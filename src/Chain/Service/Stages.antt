-- ===== src/Chain/Service/Stages.antt =====
-- The methods that compile one stage of a chain: `config`, `resolveWorkflow`, `compileStage`,
-- `releaseCompiledTasks` and `validateConfiguredWorkflows`.
use go_mivia.Base.{
  ℕ, String, Bool, not, ◌&&◌, ◌||◌, List, [], ◌∷◌, ◌++◌, string_eq, ◌==◌, ◌!=◌, contains, is_empty,
  if◌then◌else◌,
}
use go_mivia.Base.Result
use go_mivia.Base.Result.{Result, ok, err, invalid_chain}
use go_mivia.Base.Exec.{Exec, pure, lift, ◌>>=◌, ◌>>◌}
use go_mivia.Text.{◌⧺◌}
use go_mivia.WorkPlan.TaskStatus.{planned, task_status_eq}
use go_mivia.WorkPlan.Model.{WorkTask}
use go_mivia.WorkPlan.Service.{Env, World, now}
use go_mivia.Chain.Model.{Config, StageConfig, ChainRun, StageRun, stage_planned, stage_queued}
use go_mivia.Chain.Rules.{Engine, first_non_empty}
use go_mivia.Chain.Config.{validate_config}
use go_mivia.Chain.Run.{render_template, append_unique_many}
use go_mivia.Chain.Service.{ChainService, WorkflowCompileResult}

unfoldable pub config : Engine → List Config → String → String → Result Config
config engine [] project_id chain_ref = err (invalid_chain "workflow chain config not found")
config engine (cfg ∷ configs) project_id chain_ref =
    let rest = config engine configs project_id chain_ref in
    if cfg.enabled && cfg.project_id == project_id && cfg.chain_ref == chain_ref
    then Result.◌>>=◌ (validate_config engine cfg) (λ _. ok cfg)
    else rest

-- The one workflow of the list.
unfoldable pub only_workflow : String → List String → Result String
only_workflow workflow_ref (id ∷ []) = ok id
only_workflow workflow_ref _ = err (
    invalid_chain
      ("workflow_ref " ⧺ workflow_ref ⧺ " must resolve to exactly one enabled workflow"))

unfoldable pub title_of : Config → ChainRun → StageConfig → String
title_of cfg run stage =
    let title =
      render_template
        (first_non_empty (cfg.default_title_template ∷ "{{input_ref}} governed delivery" ∷ []))
        cfg.chain_ref run.input_ref in
    if stage.stage_ref != "" then title ⧺ " / " ⧺ stage.stage_ref else title

module _ {S : Type 0} (svc : ChainService S) where
  unfoldable pub resolve_workflow : String → String → Exec (World S) String
  resolve_workflow project_id workflow_ref = do
    workflows ←
        svc.workflows.list_workflows
          (record { project_id = project_id; status = "enabled"; workflow_ref = workflow_ref })
    lift (only_workflow workflow_ref workflows)

  -- The loop, with `seen` the keys of the map.
  unfoldable pub resolve_all : Config → List String → List StageConfig → Exec (World S) (Unit {0})
  resolve_all cfg seen [] = pure tt
  resolve_all cfg seen (stage ∷ stages) = do
    if contains seen stage.workflow_ref
        then pure ""
        else resolve_workflow cfg.project_id stage.workflow_ref
    resolve_all cfg (stage.workflow_ref ∷ seen) stages

  unfoldable pub validate_configured_workflows : Config → Exec (World S) (Unit {0})
  validate_configured_workflows cfg = do
    lift (validate_config svc.engine cfg)
    resolve_all cfg [] cfg.stages

  -- The loop over the open tasks.
  unfoldable pub release_tasks :
      String → List String → ChainRun → List WorkTask → Exec (World S) (Unit {0})
  release_tasks project_id compiled_ids run [] = pure tt
  release_tasks project_id compiled_ids run (task ∷ tasks) =
      let rest = release_tasks project_id compiled_ids run tasks in
      if not (contains compiled_ids task.id) || task.status != planned then rest else do
        svc.work_plans.update_work_task_status
            (record {
              project_id = project_id;
              task_id = task.id;
              owner_agent = "";
              run_id = first_non_empty (run.created_by_run_id ∷ run.id ∷ []);
              trace_id = run.trace_id;
              outcome = "";
              safe_next_action =
                  "workflow chain released compiled stage task for automatic lifecycle execution";
              blocked_reason = "";
              blocked_by_task_ids = [];
              context_pack_refs = [];
              evidence_refs = [];
              claim_refs = [];
              knowledge_refs = [];
              resume_instructions = "";
              verifier_result_refs = [];
              review_result_refs = [];
              review_exempt_reason = "";
            })
            "ready"
        rest

  unfoldable pub release_compiled_tasks :
      String → WorkflowCompileResult → ChainRun → Exec (World S) (Unit {0})
  release_compiled_tasks project_id compiled run =
      if compiled.work_plan_id == ""
        || is_empty compiled.work_task_ids && is_empty compiled.reviewer_task_ids
      then pure tt
      else do
        tasks ← svc.work_plans.list_open_work_tasks (record {
          project_id = project_id;
          plan_id = compiled.work_plan_id;
          status = "";
          owner_agent = "";
          claimed_by_run_id = "";
        })
        release_tasks project_id (compiled.work_task_ids ++ compiled.reviewer_task_ids) run tasks

  -- the plan of the stage made active
  unfoldable pub activate_plan :
      Config → WorkflowCompileResult → ChainRun → Exec (World S) (Unit {0})
  activate_plan cfg compiled run = if compiled.work_plan_id == "" then pure tt else do
    svc.work_plans.update_work_plan_status (record {
      project_id = cfg.project_id;
      plan_id = compiled.work_plan_id;
      status = "active";
      safe_next_action = "workflow chain stage automation may run through lifecycle triggers";
      resume_summary = "";
      outcome = "";
      current_task_id = "";
      run_id = first_non_empty (run.created_by_run_id ∷ run.id ∷ []);
      trace_id = run.trace_id;
    })
    pure tt

unfoldable pub stage_run_of : StageConfig → String → WorkflowCompileResult → ℕ → StageRun
stage_run_of stage workflow_id compiled t = record {
  stage_ref = stage.stage_ref;
  workflow_ref = stage.workflow_ref;
  workflow_id = workflow_id;
  status = stage_queued;
  work_plan_id = compiled.work_plan_id;
  work_task_ids = append_unique_many compiled.work_task_ids compiled.reviewer_task_ids;
  automation_ids = compiled.automation_ids;
  started_at = t;
  completed_at = 0;
  blocked_reason = "";
}

module _ {S : Type 0} (svc : ChainService S) (env : Env) where
  unfoldable pub compile_stage : Config → ChainRun → StageConfig → Bool → Exec (World S) StageRun
  compile_stage cfg run stage dry_run = do
    workflow_id ← resolve_workflow svc cfg.project_id stage.workflow_ref
    compiled ← svc.workflows.compile_workflow (record {
      project_id = cfg.project_id;
      workflow_id = workflow_id;
      user_request_ref = run.input_ref;
      created_by_run_id = first_non_empty (run.created_by_run_id ∷ run.id ∷ []);
      trace_id = run.trace_id;
      title_override = title_of cfg run stage;
      dry_run = dry_run;
    })
    t ← now env
    let stage_run = stage_run_of stage workflow_id compiled t
    if dry_run then pure (record stage_run { status = stage_planned }) else do
      activate_plan svc cfg compiled run
      release_compiled_tasks svc cfg.project_id compiled run
      pure stage_run
