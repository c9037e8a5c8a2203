-- ===== src/WorkPlan/Service/Move.antt =====
-- The methods that move a work task through its statuses, all by `transitionTask`.
pub mod Outcome
pub mod Claim
pub mod Progress
pub mod Terminal
use go_mivia.Base.{String, ◌&&◌, not, is_empty, ◌==◌, if◌then◌else◌}
use go_mivia.Base.Exec.{Exec, pure, lift, ◌>>=◌, ◌>>◌}
use go_mivia.WorkPlan.TaskStatus.{
  TaskStatus, ready, claimed, in_progress, blocked, done, failed, task_status_eq, safe_task_status,
}
use go_mivia.WorkPlan.Safe.{safe_project_object}
use go_mivia.WorkPlan.Model.{WorkTask, WorkTaskActionInput}
use go_mivia.WorkPlan.Store.{WorkPlanStore}
use go_mivia.WorkPlan.Transition.{check_before, merge_input, finish, check_after, check_reviews}
use go_mivia.WorkPlan.Service.{Env, World, call, now}

module _ {S : Type 0} (store : WorkPlanStore S) where
  unfoldable pub validate_independent_review_refs : WorkTask → Exec (World S) (Unit {0})
  validate_independent_review_refs task = do
    attachments ← call (store.list_attachments task.project_id task.id)
    lift (check_reviews task.claimed_by_run_id attachments task.review_result_refs)

  -- A task with reviews is done only if they are independent.
  unfoldable pub check_reviewed : WorkTask → TaskStatus → Exec (World S) (Unit {0})
  check_reviewed task next =
      if next == done && not (is_empty task.review_result_refs)
      then validate_independent_review_refs task
      else pure tt

module _ {S : Type 0} (store : WorkPlanStore S) (env : Env) where
  -- from the test of the stored task to the write of the changed one
  unfoldable pub change_task : WorkTask → WorkTaskActionInput → TaskStatus → Exec (World S) WorkTask
  change_task task input next = do
    merged ← lift (merge_input task input)
    t ← now env
    let moved = finish merged next t
    lift (check_after moved next)
    check_reviewed store moved next
    call (store.update_work_task moved)

  unfoldable pub transition_task : WorkTaskActionInput → TaskStatus → Exec (World S) WorkTask
  transition_task input next = do
    (project_id, task_id) ← lift (safe_project_object input.project_id input.task_id "task_id")
    task ← call (store.get_work_task project_id task_id)
    go_on ← lift (check_before task input next)
    if go_on then change_task task input next else pure task

  unfoldable pub claim_work_task : WorkTaskActionInput → Exec (World S) WorkTask
  claim_work_task input = transition_task input claimed

  unfoldable pub release_work_task : WorkTaskActionInput → Exec (World S) WorkTask
  release_work_task input = transition_task input ready

  unfoldable pub start_work_task : WorkTaskActionInput → Exec (World S) WorkTask
  start_work_task input = transition_task input in_progress

  unfoldable pub complete_work_task : WorkTaskActionInput → Exec (World S) WorkTask
  complete_work_task input = transition_task input done

  unfoldable pub fail_work_task : WorkTaskActionInput → Exec (World S) WorkTask
  fail_work_task input = transition_task input failed

  unfoldable pub block_work_task : WorkTaskActionInput → Exec (World S) WorkTask
  block_work_task input = transition_task input blocked

  unfoldable pub update_work_task_status : WorkTaskActionInput → String → Exec (World S) WorkTask
  update_work_task_status input status = do
    next ← lift (safe_task_status status)
    transition_task input next
