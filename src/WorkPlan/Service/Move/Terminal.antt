-- ===== src/WorkPlan/Service/Move/Terminal.antt =====
-- Tasks that have ended, under `transitionTask`.
use go_mivia.Base.{String, ◌≡◌, ◌⊎◌, sym, subst, ◌∙◌, ap, true, inl, inr}
use go_mivia.Base.Result.{ok}
use go_mivia.Base.Exec.{ok-inj}
use go_mivia.WorkPlan.TaskStatus.{TaskStatus, superseded, is_terminal_task_status}
use go_mivia.WorkPlan.TaskStatus.Graph.{leaves_terminal}
use go_mivia.WorkPlan.Model.{WorkTask, WorkTaskActionInput}
use go_mivia.WorkPlan.Safe.{safe_project_object}
use go_mivia.WorkPlan.Store.{WorkPlanStore, IsLawful, found_task}
use go_mivia.WorkPlan.Transition.Guards.{Moves, stays, steps, requeues}
use go_mivia.WorkPlan.Service.{Env, World}
use go_mivia.WorkPlan.Service.Move.{transition_task}
use go_mivia.WorkPlan.Service.Move.Outcome.{Moved, stale, changed, transition_task-Moved}

ends_at :
    (task : WorkTask) (input : WorkTaskActionInput) (next : TaskStatus)
    → is_terminal_task_status task.status ≡ true
    → Moves task input next
    → (next ≡ task.status) ⊎ (next ≡ superseded)
unfolding is_terminal_task_status
ends_at task input next ended (stays e) = inl (sym e)
ends_at task input next ended (steps edge) = inr (leaves_terminal edge ended)
ends_at task input next ended (requeues e _ _) =
    absurd (subst (λ s. is_terminal_task_status s ≡ true → ⊥) (sym e) (λ h. cc) ended)

module _ {S : Type 0} (store : WorkPlanStore S) where
  Moved-ends :
      (input : WorkTaskActionInput) (next : TaskStatus) (s : S) (project id : String)
      (task u : WorkTask)
      → safe_project_object input.project_id input.task_id "task_id" ≡ ok (project, id)
      → found_task store project id s ≡ ok task
      → is_terminal_task_status task.status ≡ true
      → (s' : S) → Moved store input next s u s'
      → (u.status ≡ task.status) ⊎ (u.status ≡ superseded)
  Moved-ends input next s project id task u safe found ended s' (stale p i safe' found' _ _ _) =
      let ids = ok-inj _ _ (sym safe ∙ safe') in
      let here = subst (λ x. found_task store x.0 x.1 s ≡ ok task) ids found in
      inl (ap (λ x. x.status) (ok-inj _ _ (sym found' ∙ here)))
  Moved-ends input next s project id task u safe found ended s'
        (changed p i task' safe' found' passed c) =
      let ids = ok-inj _ _ (sym safe ∙ safe') in
      let here = subst (λ x. found_task store x.0 x.1 s ≡ ok task) ids found in
      let same = ap (λ x. x.status) (ok-inj _ _ (sym found' ∙ here)) in
      elim (ends_at task' input next
        (subst (λ x. is_terminal_task_status x ≡ true) (sym same) ended) passed.moves) [
          | inl e ↦ inl (c.status ∙ e ∙ same)
          | inr e ↦ inr (c.status ∙ e)
        ]

module _ {S : Type 0} (store : WorkPlanStore S) (law : IsLawful store) (env : Env) where
  -- Over a lawful store, a move of a stored task that has ended, if it succeeds, leaves its status
  -- or supersedes it, whatever the request and the new status are.
  pub transition_task-ends :
      (input : WorkTaskActionInput) (next : TaskStatus) (w : World S) (project id : String)
      (task u : WorkTask)
      → safe_project_object input.project_id input.task_id "task_id" ≡ ok (project, id)
      → found_task store project id w.db ≡ ok task
      → is_terminal_task_status task.status ≡ true
      → (transition_task store env input next w).0 ≡ ok u
      → (u.status ≡ task.status) ⊎ (u.status ≡ superseded)
  transition_task-ends input next w project id task u safe found ended e =
      Moved-ends store input next w.db project id task u safe found ended _
        (transition_task-Moved store law env input next w u e)
