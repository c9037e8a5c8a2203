-- ===== src/Chain/Service/Handle.antt =====
-- `HandleWorkPlanStatusChanged`, `RetryGitOps`, `retryBlockedGitOps` and `finalizeGitOps`.
use go_mivia.Base.{
  String, Bool, true, false, not, ◌&&◌, ◌||◌, Option, none, some, List, [], ◌∷◌, any, string_eq,
  ◌==◌, ◌!=◌, if◌then◌else◌, map,
}
use go_mivia.Base.Result.{Error, Result, ok, err, invalid_chain, reject_if}
use go_mivia.Base.Exec.{Exec, pure, lift, attempt, ◌>>=◌, ◌>>◌}
use go_mivia.Text.{trim_space}
use go_mivia.WorkPlan.PlanStatus.{done, plan_status_eq}
use go_mivia.WorkPlan.Model.{WorkPlanStatusChange}
use go_mivia.WorkPlan.Service.{Env, World, call, now}
use go_mivia.Chain.Model.{
  Config, StageConfig, ChainRun, StageRun, chain_queued, chain_completed, chain_blocked,
  post_validation_passed, is_chain_blocked, stage_completed, stage_blocked, stage_status_eq,
}
use go_mivia.Chain.Rules.{safe_project_object}
use go_mivia.Chain.Config.{draft_pr}
use go_mivia.Chain.Run.{
  next_ready_stage, all_stages_completed, append_unique, append_unique_many,
  git_ops_source_work_plan_id, git_ops_blocked_reason,
}
use go_mivia.Chain.Service.{ChainService, Finalizer, GitOpsFinalizeResult}
use go_mivia.Chain.Service.Stages.{config, compile_stage}

-- the run of a chain that has its draft
unfoldable pub drafted : ChainRun → ChainRun
drafted run = record run {
  status = chain_completed;
  git_ops_ready = false;
  next_action = "workflow chain completed with draft PR GitOps output";
}

-- `run.StageRuns[len(run.StageRuns)-1].BlockedReason = reason`
abbrev pub set_last_reason : String → List StageRun → List StageRun
set_last_reason reason [] = []
set_last_reason reason (stage ∷ []) = record stage { blocked_reason = reason } ∷ []
set_last_reason reason (stage ∷ next ∷ stages) = stage ∷ set_last_reason reason (next ∷ stages)

-- the run of a chain whose draft failed
unfoldable pub blocked_on_draft : Error → ChainRun → ChainRun
blocked_on_draft problem run = record run {
  status = chain_blocked;
  git_ops_ready = true;
  next_action = "chain blocked while creating draft PR GitOps output";
  stage_runs = set_last_reason (git_ops_blocked_reason problem) run.stage_runs;
}

-- The stages with this reference, changed.
abbrev pub change_stage : (StageRun → StageRun) → String → List StageRun → List StageRun
change_stage change ref = map λ stage. if stage.stage_ref == ref then change stage else stage

abbrev pub block_stage : StageRun → StageRun
block_stage stage = record stage {
  status = stage_blocked;
  blocked_reason = "compile_next_stage_failed";
}

unfoldable pub blocked_on_stage : ChainRun → StageConfig → ChainRun
blocked_on_stage run next = record run {
  status = chain_blocked;
  next_action = "chain blocked while compiling next stage";
  stage_runs = change_stage block_stage next.stage_ref run.stage_runs;
}

unfoldable pub with_compiled : ChainRun → StageConfig → StageRun → ChainRun
with_compiled run next stage = record run {
  stage_runs = change_stage (λ _. stage) next.stage_ref run.stage_runs;
  work_plan_ids = append_unique run.work_plan_ids stage.work_plan_id;
  automation_ids = append_unique_many run.automation_ids stage.automation_ids;
  status = chain_queued;
  next_action = "next stage automation will run when lifecycle gates are satisfied";
}

unfoldable pub is_finished_by : String → StageRun → Bool
is_finished_by plan_id stage = stage.work_plan_id == plan_id && stage.status != stage_completed

no_draft : GitOpsFinalizeResult → Bool
no_draft result = result.skipped || result.no_changes || trim_space result.pull_request_ref == ""

module _ {S : Type 0} (svc : ChainService S) where
  -- from the source of the draft to the run with it
  unfoldable pub create_draft : Finalizer S → ChainRun → Exec (World S) ChainRun
  unfolding no_draft
  create_draft finalizer run = do
    let plan_id = git_ops_source_work_plan_id run
    lift (
        reject_if (plan_id == "")
          (invalid_chain "final stage Work Plan is required for GitOps finalization"))
    plan ← svc.work_plans.get_work_plan run.project_id plan_id
    result ← finalizer (record {
      project_id = run.project_id;
      chain_run_id = run.id;
      chain_ref = run.chain_ref;
      input_ref = run.input_ref;
      work_plan = plan;
      stage_runs = run.stage_runs;
      automation_ids = run.automation_ids;
      created_by_run_id = run.created_by_run_id;
      trace_id = run.trace_id;
    })
    lift (
        reject_if (no_draft result) (invalid_chain "GitOps finalization did not create a draft PR"))
    pure (drafted (record run { pull_request_ref = result.pull_request_ref }))

  unfoldable pub finalize_with : Option (Finalizer S) → ChainRun → Exec (World S) ChainRun
  finalize_with none run = pure (record run {
    status = post_validation_passed;
    git_ops_ready = true;
    next_action = "draft PR GitOps is allowed after configured GitOps checks pass";
  })
  finalize_with (some finalizer) run =
      if trim_space run.pull_request_ref != ""
      then pure (drafted run)
      else create_draft finalizer run

  -- The run that `finalizeGitOps` leaves behind its pointer: it changes it only when it succeeds.
  unfoldable pub finalize_git_ops : ChainRun → Exec (World S) ChainRun
  unfolding finalize_with
  finalize_git_ops run = finalize_with svc.git_ops_finalizer run

module _ {S : Type 0} (svc : ChainService S) (env : Env) where
  unfoldable pub save : ChainRun → Exec (World S) (Unit {0})
  save run = do
    t ← now env
    call (svc.store.update_chain_run (record run { updated_at = t }))
    pure tt

  -- `_, _ = svc.store.UpdateChainRun(ctx, run); return err`
  unfoldable pub save_and_fail : ChainRun → Error → Exec (World S) (Unit {0})
  save_and_fail run problem = do attempt (call (svc.store.update_chain_run run)); lift (err problem)

  unfoldable pub after_retry : ChainRun → Result ChainRun → Exec (World S) (Unit {0})
  after_retry run (ok final) = save final
  after_retry run (err problem) = do
    t ← now env
    save_and_fail (record (blocked_on_draft problem run) { updated_at = t }) problem

  unfoldable pub retry_blocked_git_ops : ChainRun → Exec (World S) (Unit {0})
  unfolding after_retry
  retry_blocked_git_ops run = attempt (finalize_git_ops svc run) >>= after_retry run

  unfoldable pub retry_git_ops : String → String → Exec (World S) ChainRun
  retry_git_ops project chain_run = do
    (project_id, chain_run_id) ← lift (safe_project_object project chain_run "chain_run_id")
    run ← call (svc.store.get_chain_run project_id chain_run_id)
    lift (
        reject_if
          (not (is_chain_blocked run.status)
            || not run.git_ops_ready
            || not (all_stages_completed run))
          (invalid_chain "chain is not ready for GitOps retry"))
    retry_blocked_git_ops run
    call (svc.store.get_chain_run project_id chain_run_id)

  -- The loop that completes the stages of a plan.
  unfoldable pub complete_stages : String → List StageRun → Exec (World S) (List StageRun)
  complete_stages plan_id [] = pure []
  complete_stages plan_id (stage ∷ stages) = do
    head ←
        (if is_finished_by plan_id stage
          then now env >>= (λ t. pure (record stage { status = stage_completed; completed_at = t }))
          else pure stage)
    tail ← complete_stages plan_id stages
    pure (head ∷ tail)

  unfoldable pub after_compile :
      ChainRun → StageConfig → Result StageRun → Exec (World S) (Unit {0})
  after_compile run next (ok stage) = save (with_compiled run next stage)
  after_compile run next (err problem) = save_and_fail (blocked_on_stage run next) problem

  unfoldable pub after_finalize : ChainRun → Result ChainRun → Exec (World S) (Unit {0})
  after_finalize run (ok final) = save final
  after_finalize run (err problem) = save_and_fail (blocked_on_draft problem run) problem

  -- from the choice of the next stage on
  unfoldable pub advance_to : Config → ChainRun → Option StageConfig → Exec (World S) (Unit {0})
  unfolding after_compile after_finalize
  advance_to cfg run (some next) =
      attempt (compile_stage svc env cfg run next false) >>= after_compile run next
  advance_to cfg run none =
      if not (all_stages_completed run)
      then save run
      else if cfg.git_ops_mode == draft_pr
      then attempt (finalize_git_ops svc run) >>= after_finalize run
      else save (record run { status = chain_completed; next_action = "workflow chain completed" })

  unfoldable pub handle_found : WorkPlanStatusChange → Result ChainRun → Exec (World S) (Unit {0})
  handle_found change (err problem) = pure tt
  handle_found change (ok run) =
      if is_chain_blocked run.status && run.git_ops_ready && all_stages_completed run
      then retry_blocked_git_ops run
      else do
        cfg ← lift (config svc.engine svc.configs run.project_id run.chain_ref)
        stages ← complete_stages change.plan_id run.stage_runs
        t ←
            if any (is_finished_by change.plan_id) run.stage_runs
            then now env
            else pure run.updated_at
        let completed = record run { stage_runs = stages; updated_at = t }
        advance_to cfg completed (next_ready_stage cfg completed)

  unfoldable pub handle_work_plan_status_changed : WorkPlanStatusChange → Exec (World S) (Unit {0})
  handle_work_plan_status_changed change = if change.new_status != done then pure tt else do
    found ← attempt (call (svc.store.find_chain_run_by_work_plan change.project_id change.plan_id))
    handle_found change found
