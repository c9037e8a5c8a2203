-- ===== src/Chain/Service.antt =====
-- The service of internal/projectworkflowchain/service.go: what it stands on, and its methods. `New` is
-- given a store, a workflow service and a work plan service, so no method here tests for them.
pub mod Stages
pub mod Start
pub mod Handle
pub mod Stable
pub mod Ordered
pub mod Keeps
use go_mivia.Base.{String, Bool, List, [], ◌∷◌, Option, string_eq, ◌==◌, ◌&&◌, if◌then◌else◌, ℕ}
use go_mivia.Base.Exec.{Exec}
use go_mivia.WorkPlan.Model.{
  WorkPlan, WorkTask, WorkTaskFilter, WorkTaskActionInput, UpdateWorkPlanStatusInput,
}
use go_mivia.WorkPlan.Service.{World}
use go_mivia.Chain.Model.{Config, ChainRun, StageRun, ChainFilter}
use go_mivia.Chain.Rules.{Engine}

-- The interface `Store`.
pub record ChainStore (S : Type 0) : Type 0 where
  pub create_chain_run : ChainRun → Exec S ChainRun
  pub get_chain_run : String → String → Exec S ChainRun
  pub list_chain_runs : ChainFilter → Exec S (List ChainRun)
  pub update_chain_run : ChainRun → Exec S ChainRun
  pub find_chain_run_by_work_plan : String → String → Exec S ChainRun

pub record WorkflowFilter : Type 0 where
  pub project_id : String
  pub status : String
  pub workflow_ref : String

pub record WorkflowCompileInput : Type 0 where
  pub project_id : String
  pub workflow_id : String
  pub user_request_ref : String
  pub created_by_run_id : String
  pub trace_id : String
  pub title_override : String
  pub dry_run : Bool

-- The fields of a compiled workflow that the chain reads.
pub record WorkflowCompileResult : Type 0 where
  pub work_plan_id : String
  pub work_task_ids : List String
  pub reviewer_task_ids : List String
  pub automation_ids : List String

-- `WorkflowAPI`, with a definition for its identifier
pub record WorkflowApi (S : Type 0) : Type 0 where
  pub list_workflows : WorkflowFilter → Exec (World S) (List String)
  pub compile_workflow : WorkflowCompileInput → Exec (World S) WorkflowCompileResult

-- `WorkPlanAPI`
pub record WorkPlanApi (S : Type 0) : Type 0 where
  pub get_work_plan : String → String → Exec (World S) WorkPlan
  pub list_open_work_tasks : WorkTaskFilter → Exec (World S) (List WorkTask)
  pub update_work_plan_status : UpdateWorkPlanStatusInput → Exec (World S) WorkPlan
  pub update_work_task_status : WorkTaskActionInput → String → Exec (World S) WorkTask

pub record GitOpsFinalizeInput : Type 0 where
  pub project_id : String
  pub chain_run_id : String
  pub chain_ref : String
  pub input_ref : String
  pub work_plan : WorkPlan
  pub stage_runs : List StageRun
  pub automation_ids : List String
  pub created_by_run_id : String
  pub trace_id : String

pub record GitOpsFinalizeResult : Type 0 where
  pub commit_ref : String
  pub push_ref : String
  pub pull_request_ref : String
  pub evidence_refs : List String
  pub no_changes : Bool
  pub skipped : Bool

-- `GitOpsFinalizer`
abbrev pub Finalizer : Type 0 → Type 0
Finalizer S = GitOpsFinalizeInput → Exec (World S) GitOpsFinalizeResult

-- `Service`, without the clock and the source of identifiers
pub record ChainService (S : Type 0) : Type 0 where
  pub store : ChainStore S
  pub workflows : WorkflowApi S
  pub work_plans : WorkPlanApi S
  pub git_ops_finalizer : Option (Finalizer S)
  pub configs : List Config
  pub engine : Engine
