-- ===== src/WorkPlan/Transition/Merge.antt =====
-- What the fields of a request do to a task, and what they leave alone.
use text.Mathlib.TextEquality.{eq_iff}
use go_mivia.Text.{trim_space}
use go_mivia.WorkPlan.Safe.Laws.{safe_optional_ref-trims}
use go_mivia.Base.{◌≡◌, ◌≢◌, ◌∙◌, arith, string_eq}
use go_mivia.Base.Result.{ok}
use go_mivia.WorkPlan.Safe.{safe_optional_ref}
use go_mivia.WorkPlan.Model.{WorkTask, WorkTaskActionInput}
use go_mivia.WorkPlan.Transition.{or_keep, or_keep_list, merge_input}

-- What a request sets, and what it cannot touch.
pub record Merged (task : WorkTask) (input : WorkTaskActionInput) (merged : WorkTask) : Type 0 where
  pub same_id : merged.id ≡ task.id
  pub same_project : merged.project_id ≡ task.project_id
  pub same_plan : merged.plan_id ≡ task.plan_id
  pub same_ref : merged.task_ref ≡ task.task_ref
  pub same_status : merged.status ≡ task.status
  pub same_quality : merged.decomposition_quality ≡ task.decomposition_quality
  pub same_dependencies : merged.dependency_task_ids ≡ task.dependency_task_ids
  pub same_verification : merged.verification_requirement ≡ task.verification_requirement
  pub run :
      or_keep input.run_id (λ v. safe_optional_ref v "run_id") task.claimed_by_run_id
      ≡ ok merged.claimed_by_run_id
  pub verifier :
      or_keep_list input.verifier_result_refs "verifier_result_refs" task.verifier_result_refs
      ≡ ok merged.verifier_result_refs

-- The fields of a request that are accepted leave the identity, status, decomposition, dependencies
-- and verification requirement of the task, and set its run and its verifier results to the
-- validated ones of the request where it has any.
pub merge_input-Merged :
    (task : WorkTask) (input : WorkTaskActionInput) {merged : WorkTask}
    → merge_input task input ≡ ok merged
    → Merged task input merged
unfolding merge_input
merge_input-Merged task input h = ground arith

-- A request with a run sets it.
pub Merged-run :
    (task : WorkTask) (input : WorkTaskActionInput) {merged : WorkTask}
    → Merged task input merged
    → input.run_id ≢ ""
    → merged.claimed_by_run_id ≡ trim_space input.run_id
unfolding or_keep
Merged-run task input m given =
    safe_optional_ref-trims input.run_id "run_id" (ground (arith, m.run, eq_iff input.run_id ""))

-- Where the fields of a request are accepted and its run is not empty but has only white space, the
-- merged task is held by no run.
pub blank_run-frees :
    (task : WorkTask) (input : WorkTaskActionInput) {merged : WorkTask}
    → merge_input task input ≡ ok merged
    → input.run_id ≢ ""
    → trim_space input.run_id ≡ ""
    → merged.claimed_by_run_id ≡ ""
blank_run-frees task input h given blank =
    Merged-run task input (merge_input-Merged task input h) given ∙ blank
