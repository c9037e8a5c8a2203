-- ===== src/WorkPlan/Build/Laws.antt =====
-- What a new task looks like.
use text.Mathlib.TextEquality.{eq_iff}
use go_mivia.Base.{ℕ, String, ◌≡◌, ◌≢◌, subst, false, [], arith, string_eq}
use go_mivia.Base.Result.{ok}
use go_mivia.Text.{trim_space}
use go_mivia.WorkPlan.TaskStatus.{TaskStatus, planned, done, is_terminal_task_status}
use go_mivia.WorkPlan.Model.{WorkTask, CreateWorkTaskInput}
use go_mivia.WorkPlan.Safe.{safe_decomposition_quality}
use go_mivia.WorkPlan.Transition.Finish.{IsSound}
use go_mivia.WorkPlan.Build.{TaskHead, build_task, first_status, quality_of}

-- No run holds a new task, nothing blocks it and nothing was attached to it.
pub record IsFresh (task : WorkTask) : Type 0 where
  pub unclaimed : task.claimed_by_run_id ≡ ""
  pub no_reason : task.blocked_reason ≡ ""
  pub no_blocker : task.blocked_by_task_ids ≡ []
  pub no_result : task.verifier_result_refs ≡ []
  pub no_review : task.review_result_refs ≡ []

pub build_task-IsFresh :
    (project_id plan_id : String) (head : TaskHead) (input : CreateWorkTaskInput) {draft : WorkTask}
    → build_task project_id plan_id head input ≡ ok draft
    → IsFresh draft
unfolding build_task
build_task-IsFresh project_id plan_id head input h = ground arith

-- A new task has not ended.
pub first_status-open :
    (quality given : String) {status : TaskStatus}
    → first_status quality given ≡ ok status
    → is_terminal_task_status status ≡ false
unfolding first_status is_terminal_task_status
first_status-open quality given h = ground arith

open-ne_done : (s : TaskStatus) → is_terminal_task_status s ≡ false → s ≢ done
unfolding is_terminal_task_status
open-ne_done done h e = cc
open-ne_done _ h e = cc

-- A task that is built from an accepted request, with a first status that is accepted and any id
-- and time, is sound.
pub new_task-IsSound :
    (project_id plan_id : String) (head : TaskHead) (input : CreateWorkTaskInput) (draft : WorkTask)
    (status : TaskStatus) (id : String) (t : ℕ)
    → build_task project_id plan_id head input ≡ ok draft
    → first_status draft.decomposition_quality input.status ≡ ok status
    → IsSound (record draft { id = id; status = status; created_at = t; updated_at = t })
new_task-IsSound project_id plan_id head input draft status id t built first =
    let fresh = build_task-IsFresh project_id plan_id head input built in
    let alive =
      open-ne_done status (first_status-open draft.decomposition_quality input.status first) in
    record {
      done_verified = λ e. absurd (alive e);
      done_reviewed = λ e. absurd (alive e);
      ready_free = λ _. fresh.unclaimed;
      unblocked_clear = λ _. fresh.no_reason;
      unblocked_by_none = λ _. fresh.no_blocker;
    }

ready-ne_blank : (given : String) → trim_space given ≡ "ready" → given ≢ ""
unfolding trim_space
ready-ne_blank given h e =
    ground (arith, eq_iff "" "ready", subst (λ s. trim_space s ≡ "ready") e h)

ready_passes :
    (given : String)
    → trim_space given ≡ "ready"
    → safe_decomposition_quality given ≡ ok (trim_space given)
unfolding safe_decomposition_quality
ready_passes given h = ground (arith, h, eq_iff "ready" (trim_space given))

-- A decomposition quality that is `ready` with white space round it is accepted and stored with
-- that white space, and the task is then planned and not ready, where the request names no status.
pub untrimmed_quality :
    (given assessed : String)
    → trim_space given ≡ "ready"
    → given ≢ "ready"
    → (quality_of given assessed ≡ ok given) × (first_status given "" ≡ ok planned)
unfolding quality_of first_status
untrimmed_quality given assessed h n =
    ground
      (arith, eq_iff given "", eq_iff given "ready", ready-ne_blank given h, ready_passes given h)
