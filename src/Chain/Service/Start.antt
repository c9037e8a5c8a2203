-- ===== src/Chain/Service/Start.antt =====
-- `Start`, `dryRunStart`, `Get` and `List`.
use go_mivia.Base.{
  ℕ, String, Bool, true, false, ◌&&◌, ◌||◌, List, [], ◌∷◌, ◌++◌, string_eq, ◌==◌, keep_if, map,
  if◌then◌else◌,
}
use go_mivia.Base.Result.{err, foreign}
use go_mivia.Base.Exec.{Exec, pure, lift, ◌>>=◌, ◌>>◌}
use go_mivia.Base.Sort.{sort_by}
use go_mivia.Text.Order.{str_ltb}
use go_mivia.WorkPlan.Service.{Env, World, call, now, new_id}
use go_mivia.Chain.Model.{
  Config, StageConfig, ChainRun, StageRun, StartInput, StartResult, ChainFilter, ListResult,
  chain_planned, chain_queued, stage_planned,
}
use go_mivia.Chain.Rules.{safe_ref, safe_optional_ref, safe_project_object, normalize_input_ref}
use go_mivia.Chain.Run.{append_unique, append_unique_many, context_refs_for_input}
use go_mivia.Chain.Service.{ChainService}
use go_mivia.Chain.Service.Stages.{config, validate_configured_workflows, compile_stage}

abbrev pub planned_stage : StageConfig → StageRun
planned_stage stage = record {
  stage_ref = stage.stage_ref;
  workflow_ref = stage.workflow_ref;
  workflow_id = "";
  status = stage_planned;
  work_plan_id = "";
  work_task_ids = [];
  automation_ids = [];
  started_at = 0;
  completed_at = 0;
  blocked_reason = "";
}

abbrev no_run : ChainRun
no_run = record {
  id = "";
  project_id = "";
  chain_ref = "";
  input_ref = "";
  status = chain_planned;
  context_refs = [];
  stage_runs = [];
  work_plan_ids = [];
  automation_ids = [];
  created_by_run_id = "";
  trace_id = "";
  git_ops_ready = false;
  pull_request_ref = "";
  next_action = "";
  created_at = 0;
  updated_at = 0;
}

-- `run.StageRuns[0] = stage`
abbrev pub set_first : StageRun → List StageRun → List StageRun
set_first stage [] = []
set_first stage (old ∷ stages) = stage ∷ stages

unfoldable pub start_result : ChainRun → Bool → StartResult
start_result run dry_run = record {
  project_id = run.project_id;
  chain_ref = run.chain_ref;
  input_ref = run.input_ref;
  status = run.status;
  chain_run_id = run.id;
  stage_runs = run.stage_runs;
  work_plan_ids = run.work_plan_ids;
  automation_ids = run.automation_ids;
  dry_run = dry_run;
  next_action = run.next_action;
  pull_request_ref = run.pull_request_ref;
}

-- The run as it is before its first stage is compiled.
unfoldable pub new_run : Config → String → String → String → String → ℕ → ChainRun
new_run cfg input_ref run_id trace_id id t = record no_run {
  id = id;
  project_id = cfg.project_id;
  chain_ref = cfg.chain_ref;
  input_ref = input_ref;
  status = chain_planned;
  context_refs = context_refs_for_input cfg input_ref;
  created_by_run_id = run_id;
  trace_id = trace_id;
  created_at = t;
  updated_at = t;
  next_action = "compile first stage and activate its Work Plan";
  stage_runs = map planned_stage cfg.stages;
}

-- The run as it is stored, with its first stage compiled.
unfoldable pub started : ChainRun → StageRun → ℕ → ChainRun
started run stage t = record run {
  stage_runs = set_first stage run.stage_runs;
  work_plan_ids = append_unique run.work_plan_ids stage.work_plan_id;
  automation_ids = append_unique_many run.automation_ids stage.automation_ids;
  status = chain_queued;
  next_action = "decomposition automation will run when planned tasks transition to ready";
  updated_at = t;
}

-- A stage of a dry run added to the result.
abbrev pub with_stage : StartResult → StageRun → StartResult
with_stage result stage = record result {
  stage_runs = result.stage_runs ++ stage ∷ [];
  work_plan_ids = append_unique result.work_plan_ids stage.work_plan_id;
  automation_ids = append_unique_many result.automation_ids stage.automation_ids;
}

module _ {S : Type 0} (svc : ChainService S) (env : Env) where
  -- The loop over the stages of a dry run.
  unfoldable pub dry_run_stages :
      Config → ChainRun → List StageConfig → StartResult → Exec (World S) StartResult
  dry_run_stages cfg run [] result = pure result
  dry_run_stages cfg run (stage ∷ stages) result = do
    stage_run ← compile_stage svc env cfg run stage true
    dry_run_stages cfg run stages (with_stage result stage_run)

  unfoldable pub dry_run_start : Config → String → String → String → Exec (World S) StartResult
  dry_run_start cfg input_ref run_id trace_id =
      let run = record no_run {
        input_ref = input_ref;
        created_by_run_id = run_id;
        trace_id = trace_id;
      } in
      dry_run_stages cfg run cfg.stages (record (start_result no_run true) {
        project_id = cfg.project_id;
        chain_ref = cfg.chain_ref;
        input_ref = input_ref;
        next_action = "dry run only; no Work Plans or automations created";
      })

  -- `cfg.Stages[0]` panics for a chain without stages, which `config` refuses.
  unfoldable pub start_first : Config → ChainRun → List StageConfig → Exec (World S) StartResult
  start_first cfg run [] = lift (err (foreign "index out of range"))
  start_first cfg run (first ∷ _) = do
    stage ← compile_stage svc env cfg run first false
    t ← now env
    created ← call (svc.store.create_chain_run (started run stage t))
    pure (start_result created false)

  unfoldable pub start : StartInput → Exec (World S) StartResult
  start input = do
    project_id ← lift (safe_ref input.project_id "project_id")
    chain_ref ← lift (safe_ref input.chain_ref "chain_ref")
    run_id ← lift (safe_optional_ref input.created_by_run_id "created_by_run_id")
    trace_id ← lift (safe_optional_ref input.trace_id "trace_id")
    cfg ← lift (config svc.engine svc.configs project_id chain_ref)
    input_ref ← lift (normalize_input_ref svc.engine cfg input.input_text)
    validate_configured_workflows svc cfg
    if input.dry_run then dry_run_start cfg input_ref run_id trace_id else do
      id ← new_id env "workflow_chain_run"
      t ← now env
      start_first cfg (new_run cfg input_ref run_id trace_id id t) cfg.stages

keeps_config : String → String → Config → Bool
keeps_config project_id chain_ref cfg =
    (project_id == "" || cfg.project_id == project_id)
    && (chain_ref == "" || cfg.chain_ref == chain_ref)

config_before : Config → Config → Bool
config_before a b =
    if a.project_id == b.project_id
    then str_ltb a.chain_ref b.chain_ref
    else str_ltb a.project_id b.project_id

module _ {S : Type 0} (svc : ChainService S) where
  unfoldable pub get : String → String → Exec (World S) ChainRun
  get project chain_run = do
    (project_id, chain_run_id) ← lift (safe_project_object project chain_run "chain_run_id")
    call (svc.store.get_chain_run project_id chain_run_id)

  unfoldable pub list : ChainFilter → Exec (World S) ListResult
  unfolding keeps_config config_before
  list filter = do
    project_id ← lift (safe_optional_ref filter.project_id "project_id")
    chain_ref ← lift (safe_optional_ref filter.chain_ref "chain_ref")
    status ← lift (safe_optional_ref filter.status "status")
    let chains = sort_by config_before (keep_if (keeps_config project_id chain_ref) svc.configs)
    runs ← call (
        svc.store.list_chain_runs
          (record { project_id = project_id; chain_ref = chain_ref; status = status }))
    pure (record { chains = chains; runs = runs })
