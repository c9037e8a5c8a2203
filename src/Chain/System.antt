-- ===== src/Chain/System.antt =====
-- The work plans and the chains put together as cmd/mivia-server/main.go does: the service of the work
-- plans hands each change of a plan's status to the automation, which is a parameter, and to the chains,
-- and the chains change plans and tasks through the service of the work plans.
pub mod Sound
pub mod Both
use go_mivia.Base.{ℕ, zero, suc, Option, none, some, List, [], ◌∷◌, String}
use go_mivia.Base.Exec.{Exec, pure, ◌>>=◌, ◌>>◌}
use go_mivia.WorkPlan.Model.{WorkPlanStatusChange}
use go_mivia.WorkPlan.Store.{WorkPlanStore}
use go_mivia.WorkPlan.Service.{Env, World}
use go_mivia.WorkPlan.Service.Plans.{Handler, get_work_plan, update_work_plan_status}
use go_mivia.WorkPlan.Service.Tasks.{list_open_work_tasks}
use go_mivia.WorkPlan.Service.Move.{update_work_task_status}
use go_mivia.WorkPlan.Service.Runs.{Request, serve}
use go_mivia.Chain.Model.{Config, StartInput}
use go_mivia.Chain.Rules.{Engine}
use go_mivia.Chain.Service.{ChainStore, ChainService, WorkflowApi, WorkPlanApi, Finalizer}
use go_mivia.Chain.Service.Start.{start}
use go_mivia.Chain.Service.Handle.{handle_work_plan_status_changed, retry_git_ops}

-- `workPlanStatusFanout`
unfoldable pub fan_out :
    {S : Type 0} → List (Handler S) → WorkPlanStatusChange → Exec (World S) (Unit {0})
fan_out [] change = pure tt
fan_out (none ∷ handlers) change = fan_out handlers change
fan_out (some handler ∷ handlers) change = handler change >> fan_out handlers change

-- What the chains stand on, with the workflows and the automation outside.
pub record Parts (S : Type 0) : Type 0 where
  pub plan_store : WorkPlanStore S
  pub chain_store : ChainStore S
  pub workflows : WorkflowApi S
  pub git_ops_finalizer : Option (Finalizer S)
  pub configs : List Config
  pub engine : Engine
  pub automation : Handler S

module _ {S : Type 0} (parts : Parts S) (env : Env) where
  unfoldable pub plan_api : Handler S → WorkPlanApi S
  plan_api handler = record {
    get_work_plan = get_work_plan parts.plan_store;
    list_open_work_tasks = list_open_work_tasks parts.plan_store;
    update_work_plan_status = update_work_plan_status parts.plan_store env handler;
    update_work_task_status = update_work_task_status parts.plan_store env;
  }

  unfoldable pub chain_service : Handler S → ChainService S
  chain_service handler = record {
    store = parts.chain_store;
    workflows = parts.workflows;
    work_plans = plan_api handler;
    git_ops_finalizer = parts.git_ops_finalizer;
    configs = parts.configs;
    engine = parts.engine;
  }

  -- The handler of status changes, with `depth` of its own calls inside each other. The chains call it
  -- for a plan that becomes active, which they leave alone, so a depth of two is enough for them.
  unfoldable pub status_handler : ℕ → Handler S
  status_handler zero = parts.automation
  status_handler (suc depth) = some (
      fan_out (
        parts.automation
        ∷ some (handle_work_plan_status_changed (chain_service (status_handler depth)) env)
        ∷ []))

-- The requests that write to the work plans or to the chains.
pub data SystemRequest : Type 0 where
  plan_request : Request → SystemRequest
  start_chain : StartInput → SystemRequest
  retry_draft : String → String → SystemRequest

module _ {S : Type 0} (parts : Parts S) (env : Env) (depth : ℕ) where
  -- The world after a request.
  unfoldable pub serve_system : SystemRequest → World S → World S
  serve_system (plan_request request) w =
      serve parts.plan_store env (status_handler parts env depth) request w
  serve_system (start_chain input) w =
      (start (chain_service parts env (status_handler parts env depth)) env input w).1
  serve_system (retry_draft project chain_run) w =
      (retry_git_ops (chain_service parts env (status_handler parts env depth)) env project
        chain_run w).1

  unfoldable pub serve_requests : List SystemRequest → World S → World S
  serve_requests [] w = w
  serve_requests (request ∷ requests) w = serve_requests requests (serve_system request w)
