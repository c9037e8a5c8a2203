-- ===== src/Chain/Service/Keeps/Changes.antt =====
-- The handling of status changes and the retry of a draft keep what the calls keep.
use go_mivia.Base.{
  String, ◌≡◌, refl, false, not, ◌&&◌, Option, none, some, List, [], ◌∷◌, ◌==◌, ◌!=◌, string_eq,
  any,
}
use go_mivia.Base.Result.{Error, Result, ok, err}
use go_mivia.Base.Exec.{
  Exec, attempt, ◌>>=◌, IfOk, attempt-IfOk, Keeps-bind_with, Keeps, Keeps-pure, Keeps-lift,
  Keeps-if, Keeps-bind, Keeps-bind_lift, Keeps-attempt,
}
use go_mivia.Text.{trim_space}
use go_mivia.WorkPlan.PlanStatus.{done, plan_status_eq}
use go_mivia.WorkPlan.Model.{WorkPlanStatusChange}
use go_mivia.WorkPlan.Service.{Env, World}
use go_mivia.Chain.Model.{Config, StageConfig, ChainRun, StageRun, is_chain_blocked}
use go_mivia.Chain.Config.{draft_pr}
use go_mivia.Chain.Run.{all_stages_completed, next_ready_stage}
use go_mivia.Chain.Service.{ChainService, Finalizer}
use go_mivia.Chain.Service.Keeps.{CallsKeep, FinalizerKeeps, compile_stage-Keeps}
use go_mivia.Chain.Service.Keeps.Values.{
  IsCompiled, finalize_with-Good, complete_stages-IsCompletion, compile_stage-IsCompiled,
}
use go_mivia.Chain.Service.Stable.{IsStable, IsCompletion}
use go_mivia.Chain.Service.Stages.{config}
use go_mivia.Chain.Service.Handle.{
  blocked_on_draft, create_draft, finalize_with, finalize_git_ops, save, save_and_fail, after_retry,
  retry_blocked_git_ops, retry_git_ops, is_finished_by, complete_stages, after_compile,
  after_finalize, advance_to, handle_found, handle_work_plan_status_changed,
}

module _ {S : Type 0} {Inv : World S → Type 0} {Good : ChainRun → Type 0}
    {Admitted : String → Type 0} (svc : ChainService S) (env : Env)
    (calls : CallsKeep Inv Good svc env)
    (stable : IsStable svc.engine svc.configs Admitted Good) where
  create_draft-Keeps :
      (finalizer : Finalizer S) (run : ChainRun)
      → FinalizerKeeps Inv (some finalizer)
      → Keeps Inv (create_draft svc finalizer run)
  unfolding create_draft
  create_draft-Keeps finalizer run keeps = Keeps-bind_lift _ _ λ _ _.
      Keeps-bind _ _ (calls.gets_plan _ _)
        λ plan. Keeps-bind _ _ (keeps _) λ result. Keeps-bind_lift _ _ λ _ _. Keeps-pure _

  finalize_with-Keeps :
      (finalizer : Option (Finalizer S)) (run : ChainRun)
      → FinalizerKeeps Inv finalizer
      → Keeps Inv (finalize_with svc finalizer run)
  unfolding finalize_with
  finalize_with-Keeps none run keeps = Keeps-pure _
  finalize_with-Keeps (some finalizer) run keeps =
      Keeps-if (trim_space run.pull_request_ref != "") _ _ (λ _. Keeps-pure _)
        (λ _. create_draft-Keeps finalizer run keeps)

  finalize_git_ops-Good :
      (run : ChainRun)
      → Good run
      → (w : World S) (final : ChainRun) → (finalize_git_ops svc run w).0 ≡ ok final
      → Good final
  unfolding finalize_git_ops
  finalize_git_ops-Good run good w final e =
      (finalize_with-Good svc Good svc.git_ops_finalizer run w
          (λ r p c s. stable.same run r p c s good)).at
        final e

  finalize_git_ops-Keeps : (run : ChainRun) → Keeps Inv (finalize_git_ops svc run)
  unfolding finalize_git_ops
  finalize_git_ops-Keeps run = finalize_with-Keeps svc.git_ops_finalizer run calls.finalizes

  save-Keeps : (run : ChainRun) → Good run → Keeps Inv (save svc env run)
  unfolding save
  save-Keeps run good = Keeps-bind _ _ calls.reads_clock λ t.
      Keeps-bind _ _ (calls.updates _ (stable.same run _ refl refl refl good)) λ _. Keeps-pure _

  save_and_fail-Keeps :
      (run : ChainRun) (problem : Error) → Good run → Keeps Inv (save_and_fail svc env run problem)
  unfolding save_and_fail
  save_and_fail-Keeps run problem good =
      Keeps-bind _ _ (Keeps-attempt _ (calls.updates run good)) λ _. Keeps-lift _

  attempt_finalize :
      (run : ChainRun) (next : Result ChainRun → Exec (World S) (Unit {0}))
      → Good run
      → ((r : Result ChainRun) → IfOk Good r → Keeps Inv (next r))
      → Keeps Inv (attempt (finalize_git_ops svc run) >>= next)
  attempt_finalize run next good keeps =
      Keeps-bind_with (IfOk Good) _ _
        (λ w _ r e. attempt-IfOk Good _ w (finalize_git_ops-Good run good w) r e)
        (Keeps-attempt _ (finalize_git_ops-Keeps run)) keeps

  after_retry-Keeps :
      (run : ChainRun) (r : Result ChainRun)
      → Good run
      → IfOk Good r
      → Keeps Inv (after_retry svc env run r)
  unfolding after_retry
  after_retry-Keeps run (ok final) good final_good = save-Keeps final final_good
  after_retry-Keeps run (err problem) good _ = Keeps-bind _ _ calls.reads_clock λ t.
      save_and_fail-Keeps _ problem (
        stable.same (blocked_on_draft problem run) _ refl refl refl (stable.fails run problem good))

  retry_blocked-Keeps : (run : ChainRun) → Good run → Keeps Inv (retry_blocked_git_ops svc env run)
  unfolding retry_blocked_git_ops
  retry_blocked-Keeps run good =
      attempt_finalize run _ good λ r r_good. after_retry-Keeps run r good r_good

  pub retry_git_ops-Keeps : (p i : String) → Keeps Inv (retry_git_ops svc env p i)
  unfolding retry_git_ops
  retry_git_ops-Keeps p i = Keeps-bind_lift _ _ λ ids _.
      Keeps-bind_with Good _ _ (calls.gets_good ids.0 ids.1) (calls.gets ids.0 ids.1) λ run good.
        Keeps-bind_lift _ _
          λ _ _. Keeps-bind _ _ (retry_blocked-Keeps run good) λ _. calls.gets ids.0 ids.1

  complete_stages-Keeps :
      (plan_id : String) (stages : List StageRun)
      → Keeps Inv (complete_stages svc env plan_id stages)
  unfolding complete_stages
  complete_stages-Keeps plan_id [] = Keeps-pure _
  complete_stages-Keeps plan_id (stage ∷ stages) =
      Keeps-bind _ _
        (Keeps-if (is_finished_by plan_id stage) _ _
          (λ _. Keeps-bind _ _ calls.reads_clock λ t. Keeps-pure _) (λ _. Keeps-pure _))
        λ head. Keeps-bind _ _ (complete_stages-Keeps plan_id stages) λ tail. Keeps-pure _

  after_compile-Keeps :
      (cfg : Config) (run : ChainRun) (next : StageConfig) (r : Result StageRun)
      → config svc.engine svc.configs run.project_id run.chain_ref ≡ ok cfg
      → next_ready_stage cfg run ≡ some next
      → Good run
      → IfOk (IsCompiled next) r
      → Keeps Inv (after_compile svc env run next r)
  unfolding after_compile
  after_compile-Keeps cfg run next (ok stage) known ready good (ref, status) =
      save-Keeps _ (stable.compiles cfg run next stage known ready ref status good)
  after_compile-Keeps cfg run next (err problem) known ready good _ =
      save_and_fail-Keeps _ problem (stable.blocks cfg run next known ready good)

  after_finalize-Keeps :
      (run : ChainRun) (r : Result ChainRun)
      → Good run
      → IfOk Good r
      → Keeps Inv (after_finalize svc env run r)
  unfolding after_finalize
  after_finalize-Keeps run (ok final) good final_good = save-Keeps final final_good
  after_finalize-Keeps run (err problem) good _ =
      save_and_fail-Keeps _ problem (stable.fails run problem good)

  advance_to-Keeps :
      (cfg : Config) (run : ChainRun) (next : Option StageConfig)
      → config svc.engine svc.configs run.project_id run.chain_ref ≡ ok cfg
      → next_ready_stage cfg run ≡ next
      → Good run
      → Keeps Inv (advance_to svc env cfg run next)
  unfolding advance_to
  advance_to-Keeps cfg run (some next) known ready good =
      Keeps-bind_with (IfOk (IsCompiled next)) _ _
        (λ w _ r e.
          attempt-IfOk (IsCompiled next) _ w (compile_stage-IsCompiled svc env cfg run next w) r e)
        (Keeps-attempt _ (compile_stage-Keeps svc env calls stable cfg run next false))
        λ r compiled. after_compile-Keeps cfg run next r known ready good compiled
  advance_to-Keeps cfg run none known ready good =
      Keeps-if (not (all_stages_completed run)) _ _ (λ _. save-Keeps run good)
        (λ _.
          Keeps-if (cfg.git_ops_mode == draft_pr) _ _
            (λ _. attempt_finalize run _ good λ r r_good. after_finalize-Keeps run r good r_good)
            (λ _. save-Keeps _ (stable.same run _ refl refl refl good)))

  handle_found-Keeps :
      (change : WorkPlanStatusChange) (found : Result ChainRun)
      → Admitted change.plan_id
      → IfOk Good found
      → Keeps Inv (handle_found svc env change found)
  unfolding handle_found
  handle_found-Keeps change (err problem) admitted _ = Keeps-pure _
  handle_found-Keeps change (ok run) admitted good =
      Keeps-if (is_chain_blocked run.status && run.git_ops_ready && all_stages_completed run) _ _
        (λ _. retry_blocked-Keeps run good)
        (λ _. Keeps-bind_lift _ _ λ cfg known.
          Keeps-bind_with (IsCompletion change.plan_id run.stage_runs) _ _
            (λ w _ stages e.
              (complete_stages-IsCompletion svc env change.plan_id run.stage_runs w).at stages e)
            (complete_stages-Keeps change.plan_id run.stage_runs)
            λ stages completion.
              Keeps-bind _ _
                (Keeps-if (any (is_finished_by change.plan_id) run.stage_runs) _ _
                  (λ _. calls.reads_clock) (λ _. Keeps-pure _))
                λ t.
                  advance_to-Keeps cfg _ _ known refl
                    (stable.completes run change.plan_id stages t admitted completion good))

  pub handle-Keeps :
      (change : WorkPlanStatusChange)
      → Admitted change.plan_id
      → Keeps Inv (handle_work_plan_status_changed svc env change)
  unfolding handle_work_plan_status_changed
  handle-Keeps change admitted =
      Keeps-if (change.new_status != done) _ _ (λ _. Keeps-pure _)
        (λ _.
          Keeps-bind_with (IfOk Good) _ _
            (λ w inv r e.
              attempt-IfOk Good _ w (calls.finds_good change.project_id change.plan_id w inv) r e)
            (Keeps-attempt _ (calls.finds _ _))
            λ found good. handle_found-Keeps change found admitted good)
