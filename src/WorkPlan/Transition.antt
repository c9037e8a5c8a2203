-- ===== src/WorkPlan/Transition.antt =====
-- The parts of `transitionTask` of internal/projectworkplan/service.go, in the order of the code: the
-- tests on the stored task, the fields that the request sets, the change of status, and the tests on
-- the result. WorkPlan/Service.antt puts them together with the calls of the store.
pub mod Merge
pub mod Finish
pub mod Reviews
pub mod Guards
use go_mivia.Base.{
  ℕ, String, Bool, true, false, not, ◌&&◌, ◌||◌, List, [], ◌∷◌, string_eq, ◌==◌, ◌!=◌, keep_if, any,
  is_empty, if◌then◌else◌,
}
use go_mivia.Base.Result.{Result, ok, err, invalid_input, reject_if, ◌>>=◌, ◌>>◌}
use go_mivia.Text.{trim_space}
use go_mivia.WorkPlan.TaskStatus.{
  TaskStatus, ready, planned, claimed, in_progress, blocked, needs_review, verifying, done, failed,
  task_status_eq, release_is_stale, validate_task_transition,
}
use go_mivia.WorkPlan.Unique.{append_unique, append_all_unique}
use go_mivia.WorkPlan.Safe.{
  safe_optional_ref, safe_optional_text, safe_resume_instructions, safe_ref_list,
}
use go_mivia.WorkPlan.Model.{WorkTask, WorkTaskActionInput, Attachment, is_review}

unfoldable pub allows_git_ops_recovery_rerun : WorkTask → WorkTaskActionInput → TaskStatus → Bool
allows_git_ops_recovery_rerun task input next =
    task.status == verifying
    && next == ready
    && trim_space input.safe_next_action == "gitops_recovery_failed_requeue_implementation"
    && trim_space input.run_id != ""

-- A claim needs a run, and no other run may hold the task.
unfoldable pub check_claim : WorkTask → WorkTaskActionInput → Result (Unit {0})
check_claim task input =
    if trim_space input.run_id == ""
    then err (invalid_input "run_id is required to claim a task")
    else do
      run_id ← safe_optional_ref input.run_id "run_id"
      reject_if (task.claimed_by_run_id != "" && task.claimed_by_run_id != run_id)
          (invalid_input "task is claimed by another run")

-- The statuses from which a task is released.
unfoldable pub is_releasable : TaskStatus → Bool
is_releasable status =
    status == ready
    || status == planned
    || status == claimed
    || status == in_progress
    || status == blocked
    || status == needs_review

unfoldable pub check_status : WorkTask → WorkTaskActionInput → TaskStatus → Bool → Result (Unit {0})
check_status task input next rerun = do
  reject_if
      (rerun && task.claimed_by_run_id != "" && trim_space input.run_id != task.claimed_by_run_id)
      (invalid_input "gitops recovery rerun requires current claimed run")
  reject_if (next == ready && not (is_releasable task.status) && not rerun)
      (invalid_input "release requires claimed status")
  reject_if (next == in_progress && task.status != claimed)
      (invalid_input "start requires claimed status")
  reject_if (next == blocked && trim_space input.resume_instructions == "")
      (invalid_input "resume_instructions is required")
  if rerun then ok tt else validate_task_transition task.status next
  reject_if (next == ready && task.decomposition_quality != "ready")
      (invalid_input "task decomposition is not ready")

-- `ok false` is the release of a task that has moved on, which returns the task as it is.
unfoldable pub check_before : WorkTask → WorkTaskActionInput → TaskStatus → Result Bool
check_before task input next =
    let rerun = allows_git_ops_recovery_rerun task input next in
    do
      if next == claimed then check_claim task input else ok tt
      if next == ready && release_is_stale task.status && not rerun
          then ok false
          else do check_status task input next rerun; ok true

-- `if given != "" { current, err = f(given) }`, and the same for a list that is not empty
unfoldable pub or_keep : String → (String → Result String) → String → Result String
or_keep given f current = if given == "" then ok current else f given

unfoldable pub or_keep_list : List String → String → List String → Result (List String)
or_keep_list given name current = if is_empty given then ok current else safe_ref_list given name

-- The references that are added to those of the task.
unfoldable pub added : List String → String → Result (List String)
added given name = if is_empty given then ok [] else safe_ref_list given name

unfoldable pub merge_input : WorkTask → WorkTaskActionInput → Result WorkTask
merge_input task input = do
  owner ← or_keep input.owner_agent (λ v. safe_optional_ref v "owner_agent") task.owner_agent
  run ← or_keep input.run_id (λ v. safe_optional_ref v "run_id") task.claimed_by_run_id
  trace ← or_keep input.trace_id (λ v. safe_optional_ref v "trace_id") task.trace_id
  outcome ← or_keep input.outcome (λ v. safe_optional_text v "outcome" 500) task.outcome
  reason ←
      or_keep input.blocked_reason (λ v. safe_optional_text v "blocked_reason" 500)
        task.blocked_reason
  resume ←
      or_keep input.resume_instructions (λ v. safe_resume_instructions v "resume_instructions")
        task.resume_instructions
  blocked_by ← or_keep_list input.blocked_by_task_ids "blocked_by_task_ids" task.blocked_by_task_ids
  context ← added input.context_pack_refs "context_pack_refs"
  evidence ← added input.evidence_refs "evidence_refs"
  claims ← added input.claim_refs "claim_refs"
  knowledge ← added input.knowledge_refs "knowledge_candidate_refs"
  verifier ←
      or_keep_list input.verifier_result_refs "verifier_result_refs" task.verifier_result_refs
  review ← or_keep_list input.review_result_refs "review_result_refs" task.review_result_refs
  exempt ←
      or_keep input.review_exempt_reason (λ v. safe_optional_text v "review_exempt_reason" 300)
        task.review_exempt_reason
  ok (record task {
    owner_agent = owner;
    claimed_by_run_id = run;
    agent_run_ids =
        if input.run_id == "" then task.agent_run_ids else append_unique task.agent_run_ids run;
    trace_id = trace;
    outcome = outcome;
    blocked_reason = reason;
    resume_instructions = resume;
    blocked_by_task_ids = blocked_by;
    context_pack_refs = append_all_unique task.context_pack_refs context;
    evidence_refs = append_all_unique task.evidence_refs evidence;
    claim_refs = append_all_unique task.claim_refs claims;
    knowledge_candidate_refs = append_all_unique task.knowledge_candidate_refs knowledge;
    verifier_result_refs = verifier;
    review_exempt_reason = exempt;
    review_result_refs = if input.review_exempt_reason == "" then review else [];
  })

-- The times and claims that the new status sets.
unfoldable pub stamp : WorkTask → TaskStatus → ℕ → WorkTask
stamp task claimed now = record task { claimed_at = now }
stamp task ready now = record task { claimed_by_run_id = ""; claimed_at = 0 }
stamp task in_progress now = record task { started_at = now }
stamp task done now = record task { completed_at = now }
stamp task failed now = record task { completed_at = now }
stamp task _ now = task

unfoldable pub finish : WorkTask → TaskStatus → ℕ → WorkTask
unfolding stamp
finish task next now =
    let moved = record task { status = next; updated_at = now } in
    stamp
      (if next == blocked
        then moved
        else record moved { blocked_reason = ""; blocked_by_task_ids = [] })
      next now

unfoldable pub check_after : WorkTask → TaskStatus → Result (Unit {0})
check_after task next = do
  reject_if (next == blocked && task.blocked_reason == "")
      (invalid_input "blocked_reason is required")
  reject_if (next == blocked && task.resume_instructions == "")
      (invalid_input "resume_instructions is required")
  reject_if (next == done && is_empty task.verifier_result_refs)
      (invalid_input "verifier_result_refs are required before done")
  reject_if
      (next == done
        && is_empty task.review_result_refs
        && trim_space task.review_exempt_reason == "")
      (invalid_input "review_result_refs or review_exempt_reason is required before done")

-- The reviews of a task that are attached as this reference.
unfoldable pub reviews_of : List Attachment → String → List Attachment
reviews_of attachments ref = keep_if (λ a. is_review a.kind && a.ref == ref) attachments

abbrev pub is_independent : String → Attachment → Bool
is_independent run review = review.attached_by_run_id != "" && review.attached_by_run_id != run

-- The loop of `validateIndependentReviewRefs` over the references of the task.
unfoldable pub check_reviews : String → List Attachment → List String → Result (Unit {0})
check_reviews run attachments [] = ok tt
check_reviews run attachments (ref ∷ refs) =
    let reviews = reviews_of attachments ref in
    let rest = check_reviews run attachments refs in
    if is_empty reviews
    then err (invalid_input "review_result_ref must be attached before completion")
    else if run == ""
    then rest
    else if any (is_independent run) reviews
    then rest
    else err (invalid_input "review_result_ref must be attached by an independent run")
