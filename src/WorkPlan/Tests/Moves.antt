-- ===== src/WorkPlan/Tests/Moves.antt =====
-- Tasks that move, references that are attached, and requests to the service at concrete values.
use text.Mathlib.TextEquality.{eq_iff}
use go_mivia.Base.{◌≡◌, ◌≢◌, refl, [], ◌∷◌, arith, string_eq, All}
use go_mivia.Base.Result.{Result, ok, err, not_found}
use go_mivia.WorkPlan.TaskStatus.{
  ready, claimed, in_progress, needs_review, done, planned, task_status_eq,
  validate_task_transition, allowed_task, release_is_stale,
}
use go_mivia.WorkPlan.Safe.{validators}
use go_mivia.WorkPlan.Model.{WorkTask, Kind}
use go_mivia.WorkPlan.Transition.{
  check_before, check_claim, check_status, is_releasable, allows_git_ops_recovery_rerun,
  merge_input, or_keep, or_keep_list, added, finish, stamp, check_after, check_reviews, reviews_of,
}
use go_mivia.WorkPlan.Transition.Guards.{Passed, check_before-Passed}
use go_mivia.WorkPlan.Transition.Merge.{blank_run-frees}
use go_mivia.WorkPlan.Transition.Finish.{IsSound, finish-IsSound}
use go_mivia.WorkPlan.Transition.Reviews.{Reviewed, check_reviews-Reviewed}
use go_mivia.WorkPlan.References.{with_ref, advance}
use go_mivia.WorkPlan.References.Laws.{Advanced, with_ref-Advanced, with_ref-ne_err}
use go_mivia.WorkPlan.Build.{task_head, first_status, quality_of, TaskHead}
use go_mivia.WorkPlan.Build.Laws.{untrimmed_quality}
use go_mivia.WorkPlan.Unique.{append_unique, append_all_unique}
use go_mivia.WorkPlan.Tests.{test_task, test_input, test_create, test_review}

check_before-Passed_example : Passed (test_task ready "") (test_input "run_1") claimed
unfolding validators check_before check_claim check_status is_releasable
    allows_git_ops_recovery_rerun validate_task_transition allowed_task release_is_stale
check_before-Passed_example =
    check_before-Passed (test_task ready "") (test_input "run_1") claimed refl

abbrev merged_task : WorkTask
merged_task = record (test_task ready "run_1") { agent_run_ids = "run_1" ∷ [] }

abbrev freed_task : WorkTask
freed_task = record (test_task in_progress "") { agent_run_ids = "run_1" ∷ [] }

abbrev held_task : WorkTask
held_task = record (test_task in_progress "run_1") { agent_run_ids = "run_1" ∷ [] }

blank_run-frees_example : freed_task.claimed_by_run_id ≡ ""
unfolding validators merge_input or_keep or_keep_list added append_unique append_all_unique
blank_run-frees_example =
    blank_run-frees held_task (test_input " ") {merged = freed_task} refl
      (λ e. ground (arith, eq_iff " " "")) refl

-- A task that a reviewer approves.
abbrev verified_task : WorkTask
verified_task = record (test_task needs_review "run_1") {
  verifier_result_refs = "verify_1" ∷ [];
  review_result_refs = "review_1" ∷ [];
}

finish-IsSound_example : IsSound (finish verified_task done 9)
unfolding validators finish stamp check_after
finish-IsSound_example = finish-IsSound verified_task done 9 refl

check_reviews-Reviewed_example : All (Reviewed "run_1" (test_review "run_2" ∷ [])) ("review_1" ∷ [])
unfolding check_reviews reviews_of
check_reviews-Reviewed_example =
    check_reviews-Reviewed "run_1" (test_review "run_2" ∷ []) ("review_1" ∷ []) refl

abbrev reviewing_task : WorkTask
reviewing_task = record (test_task needs_review "run_1") { review_result_refs = "review_1" ∷ [] }

with_ref-Advanced_example :
    Advanced (test_task in_progress "run_1") Kind.review_result_ref reviewing_task
unfolding validators with_ref advance append_unique validate_task_transition allowed_task
with_ref-Advanced_example =
    with_ref-Advanced (test_task in_progress "run_1") Kind.review_result_ref "review_1" refl

with_ref-ne_err_example :
    with_ref (test_task in_progress "run_1") Kind.verifier_result_ref "verify_1" ≢ err not_found
with_ref-ne_err_example =
    with_ref-ne_err (test_task in_progress "run_1") Kind.verifier_result_ref "verify_1" not_found

abbrev new_head : Result TaskHead
new_head = task_head test_create

untrimmed_quality_example :
    (quality_of " ready " "draft" ≡ ok " ready ") × (first_status " ready " "" ≡ ok planned)
unfolding validators
untrimmed_quality_example =
    untrimmed_quality " ready " "draft" refl (λ e. ground (arith, eq_iff " ready " "ready"))
