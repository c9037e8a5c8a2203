-- ===== src/Chain/Tests.antt =====
-- Tests of internal/projectworkflowchain at concrete values: the rules for a configuration and a run.
pub mod Calls
pub mod System
mod Served
use go_mivia.Base.{
  ℕ, String, ◌≡◌, ◌↔◌, refl, inl, inr, true, false, none, some, List, [], ◌∷◌, string_eq, All,
}
use go_mivia.Base.Result.{ok, err, invalid_chain, foreign}
use Prim.Native.String.{len}
use Prim.Native.Nat.{◌≤◌}
use go_mivia.Text.{
  is_space, trim_left, trim_right, trim_func, trim_space, trim, has_prefix, has_code, contains_text,
  to_lower, lower_char, is_upper,
}
use go_mivia.Text.Affix.{has_suffix}
use go_mivia.Text.Decimal.{decimal}
use go_mivia.WorkPlan.Patterns.{is_letter, is_digit, is_ref_char, all_codes, ref_pattern}
use go_mivia.Chain.Model.{
  Config, StageConfig, ChainRun, StageRun, StageStatus, stage_planned, stage_completed,
  stage_queued, chain_queued,
}
use go_mivia.Chain.Rules.{Engine, safe_ref, first_non_empty, validate_input_pattern}
use go_mivia.Chain.Cycle.{deps_from, deps_of, visit, visit_all, has_dependency_cycle}
use go_mivia.Chain.Cycle.Walks.{IsCyclic}
use go_mivia.Chain.Cycle.Search.{has_dependency_cycle_iff}
use go_mivia.Chain.Config.{
  check_modes, check_git_ops, check_stage, check_stages, check_deps, check_all_deps,
  is_post_validation, stage_field, validate_config,
}
use go_mivia.Chain.Config.Laws.{IsValidConfig, validate_config-IsValidConfig}
use go_mivia.Chain.Config.Live.{IsIdle, next_ready_stage-progress}
use go_mivia.Chain.Run.{
  status_from, status_of, is_ready, first_ready, next_ready_stage, all_stages_completed, is_kept,
  is_break, write_char, write_chars, error_text, git_ops_blocked_reason,
}
use go_mivia.Chain.Run.Reason.{git_ops_blocked_reason-IsShort}

abbrev pub stage : String → String → List String → StageConfig
stage ref trigger deps = record {
  stage_ref = ref;
  workflow_ref = "flow";
  trigger = trigger;
  depends_on = deps;
  automation_ref_template = "";
  required_status_before_next = "";
}

abbrev pub two_stages : Config
two_stages = record {
  project_id = "p";
  chain_ref = "c";
  enabled = true;
  input_kind = "";
  input_pattern = "";
  context_provider = "";
  context_mode = "";
  default_title_template = "";
  git_ops_mode = "";
  git_ops_enabled = false;
  stages = stage "plan" "on_chain_start" [] ∷ stage "build" "" ("plan" ∷ []) ∷ [];
}

-- an engine without any pattern
abbrev pub no_engine : Engine
no_engine = record { compiles = λ _. false; matches = λ _ _. false }

abbrev pub stage_run : String → StageStatus → String → StageRun
stage_run ref status plan = record {
  stage_ref = ref;
  workflow_ref = "flow";
  workflow_id = "";
  status = status;
  work_plan_id = plan;
  work_task_ids = [];
  automation_ids = [];
  started_at = 0;
  completed_at = 0;
  blocked_reason = "";
}

abbrev pub run_of : List StageRun → List String → ChainRun
run_of stages plans = record {
  id = "r";
  project_id = "p";
  chain_ref = "c";
  input_ref = "input:x";
  status = chain_queued;
  context_refs = [];
  stage_runs = stages;
  work_plan_ids = plans;
  automation_ids = [];
  created_by_run_id = "";
  trace_id = "";
  git_ops_ready = false;
  pull_request_ref = "";
  next_action = "";
  created_at = 0;
  updated_at = 0;
}

abbrev loop : List StageConfig
loop = stage "a" "" ("b" ∷ []) ∷ stage "b" "" ("a" ∷ []) ∷ []

finds_loop : has_dependency_cycle loop ≡ true
unfolding has_dependency_cycle visit visit_all deps_of deps_from
finds_loop = refl

has_dependency_cycle_iff_example : (has_dependency_cycle loop ≡ true) ↔ IsCyclic loop
has_dependency_cycle_iff_example = has_dependency_cycle_iff loop

-- the rules of a configuration, opened
unfoldable pub config_rules : Unit {0}
unfolding validate_config check_modes check_git_ops check_stage check_stages check_deps
    check_all_deps is_post_validation stage_field decimal safe_ref first_non_empty
    validate_input_pattern has_suffix has_prefix contains_text trim_space trim_func trim_left
    trim_right is_space ref_pattern is_letter is_digit is_ref_char all_codes has_dependency_cycle
    visit visit_all deps_of deps_from
config_rules = tt

pub two_stages-accepted : validate_config no_engine two_stages ≡ ok tt
unfolding config_rules
two_stages-accepted = refl

validate_config-IsValidConfig_example : IsValidConfig two_stages
validate_config-IsValidConfig_example =
    validate_config-IsValidConfig no_engine two_stages two_stages-accepted

abbrev finished : ChainRun
finished =
    run_of (stage_run "plan" stage_completed "p1" ∷ stage_run "build" stage_completed "p2" ∷ []) []

finished-stuck : next_ready_stage two_stages finished ≡ none
unfolding next_ready_stage first_ready is_ready status_of status_from
finished-stuck = refl

trimmed_deps : All (λ s. All (λ dep. trim_space dep ≡ dep) s.depends_on) two_stages.stages
unfolding trim_space trim_func trim_left trim_right is_space
trimmed_deps = (tt, ((refl, tt), tt))

next_ready_stage-progress_example : all_stages_completed finished ≡ true
next_ready_stage-progress_example =
    next_ready_stage-progress no_engine two_stages finished two_stages-accepted trimmed_deps refl
      (inr refl, (inr refl, tt)) finished-stuck

-- The second stage is next once the first is completed.
second_next :
    next_ready_stage two_stages
      (run_of (stage_run "plan" stage_completed "p1" ∷ stage_run "build" stage_planned "" ∷ []) [])
    ≡ some (stage "build" "" ("plan" ∷ []))
unfolding next_ready_stage first_ready is_ready status_of status_from
second_next = refl

reason_of :
    git_ops_blocked_reason (foreign " Git worktree: unsafe path!")
    ≡ "gitops_finalize_failed_git_worktree_unsafe_path"
unfolding git_ops_blocked_reason error_text write_chars write_char is_kept is_break has_suffix
    to_lower lower_char is_upper trim trim_space trim_func trim_left trim_right is_space has_code
reason_of = refl

git_ops_blocked_reason-IsShort_example :
    (all_codes is_kept (git_ops_blocked_reason (foreign "no")) ≡ true)
    × (len (git_ops_blocked_reason (foreign "no")) ≤ 103)
git_ops_blocked_reason-IsShort_example = git_ops_blocked_reason-IsShort (foreign "no")
