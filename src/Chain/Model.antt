-- ===== src/Chain/Model.antt =====
-- The records of internal/projectworkflowchain/model.go. A time is a number of nanoseconds, with 0 for
-- the zero time.
use go_mivia.Base.{ℕ, String, ◌≡◌, ◌↔◌, Bool, true, false, List, arith, Eq, nat_eq, ◌==◌}

-- `ChainStatus…`
pub data ChainStatus : Type 0 where
  chain_planned chain_queued chain_completed post_validation_passed chain_blocked : ChainStatus

unfoldable pub chain_status_text : ChainStatus → String
chain_status_text chain_planned = "planned"
chain_status_text chain_queued = "queued"
chain_status_text chain_completed = "completed"
chain_status_text post_validation_passed = "post_validation_passed"
chain_status_text chain_blocked = "blocked"

-- `status == ChainStatusBlocked`
abbrev pub is_chain_blocked : ChainStatus → Bool
is_chain_blocked chain_blocked = true
is_chain_blocked _ = false

-- `StageStatus…`
pub data StageStatus : Type 0 where
  stage_planned stage_queued stage_completed stage_blocked : StageStatus

abbrev place : StageStatus → ℕ
place stage_planned = 0
place stage_queued = 1
place stage_completed = 2
place stage_blocked = 3

place_injective : (a b : StageStatus) → place a ≡ place b → a ≡ b
place_injective a b h = ground arith

pub stage_status_beq_iff : (a b : StageStatus) → ((place a == place b) ≡ true) ↔ (a ≡ b)
stage_status_beq_iff a b = ground (arith, place_injective a b)

instance abbrev pub stage_status_eq : Eq StageStatus
stage_status_eq = record { beq = λ a b. place a == place b; beq_iff = stage_status_beq_iff }

pub record StageConfig : Type 0 where
  pub stage_ref : String
  pub workflow_ref : String
  pub trigger : String
  pub depends_on : List String
  pub automation_ref_template : String
  pub required_status_before_next : String

pub record Config : Type 0 where
  pub project_id : String
  pub chain_ref : String
  pub enabled : Bool
  pub input_kind : String
  pub input_pattern : String
  pub context_provider : String
  pub context_mode : String
  pub default_title_template : String
  pub git_ops_mode : String
  pub git_ops_enabled : Bool
  pub stages : List StageConfig

pub record StageRun : Type 0 where
  pub stage_ref : String
  pub workflow_ref : String
  pub workflow_id : String
  pub status : StageStatus
  pub work_plan_id : String
  pub work_task_ids : List String
  pub automation_ids : List String
  pub started_at : ℕ
  pub completed_at : ℕ
  pub blocked_reason : String

pub record ChainRun : Type 0 where
  pub id : String
  pub project_id : String
  pub chain_ref : String
  pub input_ref : String
  pub status : ChainStatus
  pub context_refs : List String
  pub stage_runs : List StageRun
  pub work_plan_ids : List String
  pub automation_ids : List String
  pub created_by_run_id : String
  pub trace_id : String
  pub git_ops_ready : Bool
  pub pull_request_ref : String
  pub next_action : String
  pub created_at : ℕ
  pub updated_at : ℕ

pub record StartInput : Type 0 where
  pub project_id : String
  pub chain_ref : String
  pub input_text : String
  pub created_by_run_id : String
  pub trace_id : String
  pub dry_run : Bool

pub record StartResult : Type 0 where
  pub project_id : String
  pub chain_ref : String
  pub input_ref : String
  pub status : ChainStatus
  pub chain_run_id : String
  pub stage_runs : List StageRun
  pub work_plan_ids : List String
  pub automation_ids : List String
  pub dry_run : Bool
  pub next_action : String
  pub pull_request_ref : String

pub record ChainFilter : Type 0 where
  pub project_id : String
  pub chain_ref : String
  pub status : String

pub record ListResult : Type 0 where
  pub chains : List Config
  pub runs : List ChainRun
