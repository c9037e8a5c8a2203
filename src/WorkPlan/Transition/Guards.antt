-- ===== src/WorkPlan/Transition/Guards.antt =====
-- What the tests on the stored task let through.
use text.Mathlib.TextEquality.{eq_iff}
use go_mivia.Base.{String, ◌≡◌, ◌≢◌, ◌⊎◌, inl, inr, Bool, true, false, arith, string_eq}
use go_mivia.Base.Result.{Result, ok, err}
use go_mivia.Text.{trim_space}
use go_mivia.WorkPlan.TaskStatus.{
  TaskStatus, ready, claimed, in_progress, blocked, verifying, task_status_eq, status_beq_iff,
  release_is_stale, validate_task_transition,
}
use go_mivia.WorkPlan.TaskStatus.Graph.{◌⟶◌, validate_task_transition_iff}
use go_mivia.WorkPlan.Safe.{safe_optional_ref}
use go_mivia.WorkPlan.Model.{WorkTask, WorkTaskActionInput}
use go_mivia.WorkPlan.Transition.{
  allows_git_ops_recovery_rerun, check_claim, check_status, check_before,
}

-- A change of status that the tests let through: none, an edge of the diagram, or the requeue of a
-- task whose recovery failed, by the run that holds it.
pub data Moves (task : WorkTask) (input : WorkTaskActionInput) (next : TaskStatus) : Type 0 where
  stays : task.status ≡ next → Moves task input next
  steps : task.status ⟶ next → Moves task input next
  requeues :
      task.status ≡ verifying
      → next ≡ ready
      → (task.claimed_by_run_id ≡ "") ⊎ (task.claimed_by_run_id ≡ trim_space input.run_id)
      → Moves task input next

-- The facts that a request has established when it goes on to change the task.
pub record Passed (task : WorkTask) (input : WorkTaskActionInput) (next : TaskStatus) : Type 0 where
  pub moves : Moves task input next
  pub claim_free :
      next ≡ claimed
      → (task.claimed_by_run_id ≡ "")
        ⊎ (safe_optional_ref input.run_id "run_id" ≡ ok task.claimed_by_run_id)
  pub claim_run : next ≡ claimed → trim_space input.run_id ≢ ""
  pub started : next ≡ in_progress → task.status ≡ claimed
  pub resumable : next ≡ blocked → trim_space input.resume_instructions ≢ ""
  pub decomposed : next ≡ ready → task.decomposition_quality ≡ "ready"

abbrev text_of : Result String → String
text_of (ok s) = s
text_of (err e) = ""

module _ (task : WorkTask) (input : WorkTaskActionInput) (next : TaskStatus) where
  abbrev rerun : Bool
  rerun = allows_git_ops_recovery_rerun task input next

  rerun_facts : rerun ≡ true → (task.status ≡ verifying) × (next ≡ ready)
  unfolding allows_git_ops_recovery_rerun
  rerun_facts h = ground (arith, status_beq_iff task.status verifying, status_beq_iff next ready)

  claim_facts :
      check_claim task input ≡ ok tt
      → (trim_space input.run_id ≢ "")
        × ((task.claimed_by_run_id ≡ "")
            ⊎ (safe_optional_ref input.run_id "run_id" ≡ ok task.claimed_by_run_id))
  unfolding check_claim
  claim_facts h = ground (
    arith,
    eq_iff (trim_space input.run_id) "",
    eq_iff task.claimed_by_run_id "",
    eq_iff task.claimed_by_run_id (text_of (safe_optional_ref input.run_id "run_id")),
  )

  status_facts :
      (r : Bool)
      → check_status task input next r ≡ ok tt
      → ((r ≡ true) ⊎ (validate_task_transition task.status next ≡ ok tt))
        × (next ≡ in_progress → task.status ≡ claimed)
        × (next ≡ blocked → trim_space input.resume_instructions ≢ "")
        × (next ≡ ready → task.decomposition_quality ≡ "ready")
        × (r ≡ true
            → (task.claimed_by_run_id ≡ "") ⊎ (task.claimed_by_run_id ≡ trim_space input.run_id))
  unfolding check_status
  status_facts r h = ground (
    arith,
    eq_iff task.claimed_by_run_id "",
    eq_iff (trim_space input.run_id) task.claimed_by_run_id,
    eq_iff (trim_space input.resume_instructions) "",
    eq_iff task.decomposition_quality "ready",
    status_beq_iff next in_progress,
    status_beq_iff next blocked,
    status_beq_iff next ready,
    status_beq_iff task.status claimed,
  )

  Moves-of :
      (rerun ≡ true) ⊎ (validate_task_transition task.status next ≡ ok tt)
      → (rerun ≡ true
          → (task.claimed_by_run_id ≡ "") ⊎ (task.claimed_by_run_id ≡ trim_space input.run_id))
      → Moves task input next
  Moves-of (inl r) run = let (v, n) = rerun_facts r in requeues v n (run r)
  Moves-of (inr accepted) run = elim ((validate_task_transition_iff task.status next).0 accepted) [
    | inl e ↦ stays e
    | inr edge ↦ steps edge
  ]

  before_parts :
      check_before task input next ≡ ok true
      → (next ≡ claimed → check_claim task input ≡ ok tt)
        × (check_status task input next rerun ≡ ok tt)
  unfolding check_before
  before_parts h = ground (arith, status_beq_iff next claimed)

  -- Where the tests on the stored task let a change go on, the status stays, moves along an edge of
  -- the diagram, or is the requeue of a task that verifies by the run that holds it if any does; a
  -- claim names a run and no other run holds the task; a start is of a claimed task; a block says
  -- how to resume; and a task becomes ready only if its decomposition is.
  pub check_before-Passed : check_before task input next ≡ ok true → Passed task input next
  check_before-Passed h =
      let (claim, status) = before_parts h in
      let (moved, started, resumable, decomposed, run) = status_facts rerun status in
      record {
        moves = Moves-of moved run;
        claim_free = λ e. (claim_facts (claim e)).1;
        claim_run = λ e. (claim_facts (claim e)).0;
        started = started;
        resumable = resumable;
        decomposed = decomposed;
      }

  -- The request that changes nothing is the release of a task that verifies or has ended.
  pub check_before-stale :
      check_before task input next ≡ ok false
      → (next ≡ ready) × (release_is_stale task.status ≡ true) × (rerun ≡ false)
  unfolding check_before
  check_before-stale h = ground (arith, status_beq_iff next ready)
