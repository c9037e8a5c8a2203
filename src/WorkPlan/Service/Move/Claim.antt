-- ===== src/WorkPlan/Service/Move/Claim.antt =====
-- Claims of a task by runs: `ClaimWorkTask`.
use go_mivia.Base.{String, ◌≡◌, refl, sym, subst, ◌∙◌, ap, ◌⊎◌, inl, inr, ◌≢◌}
use go_mivia.Base.Result.{ok}
use go_mivia.WorkPlan.Safe.Laws.{safe_optional_ref-trims}
use go_mivia.Base.Exec.{ok-inj}
use go_mivia.WorkPlan.TaskStatus.{claimed, task_status_eq}
use go_mivia.WorkPlan.Model.{WorkTask, WorkTaskActionInput}
use go_mivia.WorkPlan.Safe.{safe_project_object}
use go_mivia.WorkPlan.Store.{WorkPlanStore, IsLawful, found_task}
use go_mivia.WorkPlan.Transition.{finish}
use go_mivia.WorkPlan.Transition.Merge.{Merged-run}
use go_mivia.Text.{trim_space}
use go_mivia.WorkPlan.Service.{Env, World}
use go_mivia.WorkPlan.Service.Move.{claim_work_task}
use go_mivia.WorkPlan.Service.Move.Outcome.{Moved, stale, changed, transition_task-Moved}

module _ {S : Type 0} (store : WorkPlanStore S) (law : IsLawful store) (env : Env) where
  blank_trims : trim_space "" ≡ ""
  unfolding trim_space
  blank_trims = refl

  claimed_of :
      (input : WorkTaskActionInput) (s : S) (project id : String) (task u : WorkTask)
      → safe_project_object input.project_id input.task_id "task_id" ≡ ok (project, id)
      → found_task store project id s ≡ ok task
      → (s' : S) → Moved store input claimed s u s'
      → (u.status ≡ claimed)
        × (u.claimed_by_run_id ≡ trim_space input.run_id)
        × (trim_space input.run_id ≢ "")
        × ((task.claimed_by_run_id ≡ "") ⊎ (task.claimed_by_run_id ≡ u.claimed_by_run_id))
        × (found_task store u.project_id u.id s' ≡ ok u)
  unfolding finish
  claimed_of input s project id task u safe found s' (stale p i _ _ n _ _) = cc
  claimed_of input s project id task u safe found s' (changed p i task' safe' found' passed c) =
      let ids = ok-inj _ _ (sym safe ∙ safe') in
      let one =
        ok-inj _ _ (sym (subst (λ x. found_task store x.0 x.1 s ≡ ok task) ids found) ∙ found') in
      let takes =
        ap (λ x. x.claimed_by_run_id) c.result
        ∙ Merged-run task' input c.merges
            (λ e. passed.claim_run refl (ap trim_space e ∙ blank_trims)) in
      (
        c.status,
        takes,
        passed.claim_run refl,
        elim (passed.claim_free refl) [
          | inl free ↦ inl (ap (λ x. x.claimed_by_run_id) one ∙ free)
          | inr held ↦ inr (
              ap (λ x. x.claimed_by_run_id) one
              ∙ safe_optional_ref-trims input.run_id "run_id" held
              ∙ sym takes)
        ],
        c.stored,
      )

  -- Over a lawful store, a claim that succeeds returns a task that is claimed by the run of the
  -- request without white space, which is not empty; the store then finds this task under its own
  -- project and id; and before the claim the stored task was held by no run or by that one.
  pub claim_takes :
      (input : WorkTaskActionInput) (w : World S) (project id : String) (task u : WorkTask)
      → safe_project_object input.project_id input.task_id "task_id" ≡ ok (project, id)
      → found_task store project id w.db ≡ ok task
      → (claim_work_task store env input w).0 ≡ ok u
      → (u.status ≡ claimed)
        × (u.claimed_by_run_id ≡ trim_space input.run_id)
        × (trim_space input.run_id ≢ "")
        × ((task.claimed_by_run_id ≡ "") ⊎ (task.claimed_by_run_id ≡ u.claimed_by_run_id))
        × (found_task store u.project_id u.id (claim_work_task store env input w).1.db ≡ ok u)
  unfolding claim_work_task
  claim_takes input w project id task u safe found e =
      claimed_of input w.db project id task u safe found _
        (transition_task-Moved store law env input claimed w u e)

  -- Over a lawful store, while a run holds the stored task, a claim by a request whose run without
  -- white space is another one does not succeed.
  pub claim_excludes :
      (input : WorkTaskActionInput) (w : World S) (project id : String) (task u : WorkTask)
      → safe_project_object input.project_id input.task_id "task_id" ≡ ok (project, id)
      → found_task store project id w.db ≡ ok task
      → task.claimed_by_run_id ≢ ""
      → trim_space input.run_id ≢ task.claimed_by_run_id
      → (claim_work_task store env input w).0 ≢ ok u
  claim_excludes input w project id task u safe found held other e =
      let (_, takes, _, before, _) = claim_takes input w project id task u safe found e in
      elim before [ inl free ↦ held free | inr same ↦ other (sym takes ∙ sym same) ]
