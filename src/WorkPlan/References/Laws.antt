-- ===== src/WorkPlan/References/Laws.antt =====
-- A task with one more reference: its soundness, its status and its errors.
use go_mivia.Base.{String, ◌≡◌, ◌≢◌, sym, subst, inr, arith, string_eq}
use go_mivia.Base.Result.{Error, ok, err}
use go_mivia.WorkPlan.TaskStatus.{
  TaskStatus, in_progress, needs_review, verifying, task_status_eq, status_beq_iff,
  validate_task_transition,
}
use go_mivia.WorkPlan.TaskStatus.Graph.{◌⟶◌, verify, ask_review, validate_task_transition_iff}
use go_mivia.WorkPlan.Unique.Canonical.{append_unique-ne_nil}
use go_mivia.WorkPlan.Model.{WorkTask, Kind, evidence_ref, verifier_result_ref, review_result_ref}
use go_mivia.WorkPlan.Transition.Finish.{IsSound}
use go_mivia.WorkPlan.References.{with_ref}

-- Where a reference takes a task that is in progress.
abbrev pub next_of : Kind → TaskStatus
next_of verifier_result_ref = verifying
next_of review_result_ref = needs_review
next_of _ = in_progress

pub with_ref-IsSound :
    (task : WorkTask) (kind : Kind) (ref : String) {added : WorkTask}
    → ref ≢ ""
    → IsSound task
    → with_ref task kind ref ≡ ok added
    → IsSound added
unfolding with_ref
with_ref-IsSound task evidence_ref ref n sound h = ground arith
with_ref-IsSound task verifier_result_ref ref n sound h = ground (
  arith,
  status_beq_iff task.status in_progress,
  append_unique-ne_nil task.verifier_result_refs ref,
)
with_ref-IsSound task review_result_ref ref n sound h = ground (
  arith,
  status_beq_iff task.status in_progress,
  append_unique-ne_nil task.review_result_refs ref,
)
with_ref-IsSound task _ ref n sound h = ground arith

-- What one more reference does to a task.
pub record Advanced (task : WorkTask) (kind : Kind) (added : WorkTask) : Type 0 where
  pub same_claim : added.claimed_by_run_id ≡ task.claimed_by_run_id
  pub resting : task.status ≢ in_progress → added.status ≡ task.status
  pub working : task.status ≡ in_progress → added.status ≡ next_of kind

-- A reference that is attached leaves the run that holds the task, leaves the status of a task that
-- is not in progress, and moves one in progress to verifying for a verifier result, to needs review
-- for a review, and nowhere for the other kinds.
pub with_ref-Advanced :
    (task : WorkTask) (kind : Kind) (ref : String) {added : WorkTask}
    → with_ref task kind ref ≡ ok added
    → Advanced task kind added
unfolding with_ref
with_ref-Advanced task verifier_result_ref ref h =
    ground (arith, status_beq_iff task.status in_progress)
with_ref-Advanced task review_result_ref ref h =
    ground (arith, status_beq_iff task.status in_progress)
with_ref-Advanced task _ ref h = ground arith

verify_ok : (s : TaskStatus) → s ≡ in_progress → validate_task_transition s verifying ≡ ok tt
verify_ok s e =
    (validate_task_transition_iff s verifying).1 (inr (subst (λ x. x ⟶ verifying) (sym e) verify))

review_ok : (s : TaskStatus) → s ≡ in_progress → validate_task_transition s needs_review ≡ ok tt
review_ok s e =
    (validate_task_transition_iff s needs_review).1
      (inr (subst (λ x. x ⟶ needs_review) (sym e) ask_review))

-- To add a reference to a task never fails, whatever the task, the kind and the reference are.
pub with_ref-ne_err :
    (task : WorkTask) (kind : Kind) (ref : String) (e : Error) → with_ref task kind ref ≢ err e
unfolding with_ref
with_ref-ne_err task verifier_result_ref ref e h =
    ground (arith, status_beq_iff task.status in_progress, verify_ok task.status)
with_ref-ne_err task review_result_ref ref e h =
    ground (arith, status_beq_iff task.status in_progress, review_ok task.status)
with_ref-ne_err task _ ref e h = cc
