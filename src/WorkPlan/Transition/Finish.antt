-- ===== src/WorkPlan/Transition/Finish.antt =====
-- What a change of status leaves behind when the tests on its result pass.
use text.Mathlib.TextEquality.{eq_iff}
use go_mivia.Base.{ℕ, ◌≡◌, ◌≢◌, ◌⊎◌, refl, [], arith, string_eq}
use go_mivia.Base.Result.{ok}
use go_mivia.Text.{trim_space}
use go_mivia.WorkPlan.TaskStatus.{TaskStatus, ready, blocked, done}
use go_mivia.WorkPlan.Model.{WorkTask}
use go_mivia.WorkPlan.Transition.{finish, check_after}

-- A sound task: one that is done was verified, and reviewed or exempt from review; a task that can be picked up is held by no run; only a blocked task has a
-- reason or tasks that block it.
pub record IsSound (task : WorkTask) : Type 0 where
  pub done_verified : task.status ≡ done → task.verifier_result_refs ≢ []
  pub done_reviewed :
      task.status ≡ done
      → (task.review_result_refs ≢ []) ⊎ (trim_space task.review_exempt_reason ≢ "")
  pub ready_free : task.status ≡ ready → task.claimed_by_run_id ≡ ""
  pub unblocked_clear : task.status ≢ blocked → task.blocked_reason ≡ ""
  pub unblocked_by_none : task.status ≢ blocked → task.blocked_by_task_ids ≡ []

-- A blocked task that was blocked by a transition says why, and how to resume.
pub record IsExplained (task : WorkTask) : Type 0 where
  pub reason : task.status ≡ blocked → task.blocked_reason ≢ ""
  pub resume : task.status ≡ blocked → task.resume_instructions ≢ ""

pub status-finish :
    (task : WorkTask) (next : TaskStatus) (now : ℕ) → (finish task next now).status ≡ next
unfolding finish
status-finish task done now = refl
status-finish task _ now = refl

-- Whatever the task, the new status and the time are, a change of status whose result passes the
-- tests on it leaves a sound task.
pub finish-IsSound :
    (task : WorkTask) (next : TaskStatus) (now : ℕ)
    → check_after (finish task next now) next ≡ ok tt
    → IsSound (finish task next now)
unfolding finish check_after
finish-IsSound task done now h = ground (arith, eq_iff (trim_space task.review_exempt_reason) "")
finish-IsSound task _ now h = ground arith

pub finish-IsExplained :
    (task : WorkTask) (next : TaskStatus) (now : ℕ)
    → check_after (finish task next now) next ≡ ok tt
    → IsExplained (finish task next now)
unfolding finish check_after
finish-IsExplained task blocked now h =
    ground (arith, eq_iff task.blocked_reason "", eq_iff task.resume_instructions "")
finish-IsExplained task _ now h = ground arith
