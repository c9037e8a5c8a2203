-- ===== src/Chain/Config.antt =====
-- `validateConfig` of internal/projectworkflowchain/validation.go.
pub mod Laws
pub mod Live
use go_mivia.Base.{
  ℕ, zero, suc, ◌+◌, String, Bool, true, false, not, ◌&&◌, ◌||◌, List, [], ◌∷◌, ◌++◌, nat_eq,
  string_eq, ◌==◌, ◌!=◌, any, contains, is_empty, if◌then◌else◌,
}
use go_mivia.Base.Result.{Result, ok, err, invalid_chain, reject_if, ◌>>=◌, ◌>>◌}
use go_mivia.Text.{◌⧺◌, trim_space}
use go_mivia.Text.Decimal.{decimal}
use go_mivia.Chain.Model.{Config, StageConfig}
use go_mivia.Chain.Rules.{Engine, safe_ref, safe_text, first_non_empty, validate_input_pattern}
use go_mivia.Chain.Cycle.{has_dependency_cycle, stage_refs}

-- `GitOpsModeDraftPRAfterValidation`
abbrev pub draft_pr : String
draft_pr = "draft_pr_after_post_validation"

-- the checks of the references and of the modes of input and context
unfoldable pub check_modes : Engine → Config → Result (Unit {0})
check_modes engine cfg = do
  safe_ref cfg.project_id "project_id"
  safe_ref cfg.chain_ref "chain_ref"
  let kind = first_non_empty (cfg.input_kind ∷ "safe_ref" ∷ [])
  reject_if (kind != "jira_issue_key" && kind != "safe_ref")
      (invalid_chain "input_kind must be \"jira_issue_key\" or \"safe_ref\"")
  validate_input_pattern engine cfg.input_pattern
  let provider = trim_space cfg.context_provider
  reject_if
      (provider != ""
        && provider != "jira"
        && provider != "confluence"
        && provider != "indexed_repo")
      (invalid_chain "context_provider is unsupported")
  let mode = trim_space cfg.context_mode
  reject_if (mode != "" && mode != "local_ingested" && mode != "indexed")
      (invalid_chain "context_mode is unsupported")
  reject_if
      (cfg.context_provider == "jira"
        && cfg.context_mode != ""
        && cfg.context_mode != "local_ingested")
      (invalid_chain "jira context requires local_ingested mode")

-- the checks of the mode of GitOps, and that there are stages
unfoldable pub check_git_ops : Config → Result (Unit {0})
check_git_ops cfg = do
  reject_if (cfg.git_ops_mode != "" && cfg.git_ops_mode != draft_pr)
      (invalid_chain "gitops_mode is unsupported")
  reject_if (cfg.git_ops_mode == draft_pr && not cfg.git_ops_enabled)
      (invalid_chain "draft_pr_after_post_validation requires project GitOps config")
  reject_if (is_empty cfg.stages) (invalid_chain "at least one stage is required")

-- `stages[%d].` and the name of a field
unfoldable pub stage_field : ℕ → String → String
stage_field i name = "stages[" ⧺ decimal i ⧺ "]." ⧺ name

unfoldable pub check_stage : ℕ → List String → StageConfig → Result (Unit {0})
check_stage i seen stage = do
  safe_ref stage.stage_ref (stage_field i "stage_ref")
  reject_if (contains seen stage.stage_ref)
      (invalid_chain ("duplicate stage_ref " ⧺ stage.stage_ref))
  safe_ref stage.workflow_ref (stage_field i "workflow_ref")
  let trigger = first_non_empty (stage.trigger ∷ "after_stage_review_passed" ∷ [])
  reject_if (i == 0 && trigger != "on_chain_start")
      (invalid_chain "first stage trigger must be on_chain_start")
  reject_if (trigger != "on_chain_start" && trigger != "after_stage_review_passed")
      (invalid_chain ("unsupported stage trigger " ⧺ trigger))
  if stage.automation_ref_template != ""
      then safe_text stage.automation_ref_template (stage_field i "automation_ref_template") 300
      else ok ""
  let required = trim_space stage.required_status_before_next
  reject_if (required != "" && required != "completed" && required != "done")
      (invalid_chain "unsupported required_status_before_next")

-- The loop over the stages, with `seen` the keys of the map.
unfoldable pub check_stages : ℕ → List String → List StageConfig → Result (Unit {0})
check_stages i seen [] = ok tt
check_stages i seen (stage ∷ stages) =
    check_stage i seen stage >> check_stages (suc i) (stage.stage_ref ∷ seen) stages

unfoldable pub check_deps : List String → List String → Result (Unit {0})
check_deps refs [] = ok tt
check_deps refs (given ∷ deps) =
    safe_ref given "depends_on"
    >>= (λ dep.
        reject_if (not (contains refs dep)) (invalid_chain ("missing stage dependency " ⧺ dep)))
    >> check_deps refs deps

unfoldable pub check_all_deps : List String → List StageConfig → Result (Unit {0})
check_all_deps refs [] = ok tt
check_all_deps refs (stage ∷ stages) =
    check_deps refs stage.depends_on >> check_all_deps refs stages

unfoldable pub is_post_validation : StageConfig → Bool
is_post_validation stage =
    stage.stage_ref == "post-validation" || stage.stage_ref == "post_validation"

unfoldable pub validate_config : Engine → Config → Result (Unit {0})
validate_config engine cfg = do
  check_modes engine cfg
  check_git_ops cfg
  check_stages 0 [] cfg.stages
  check_all_deps (stage_refs cfg.stages) cfg.stages
  reject_if (has_dependency_cycle cfg.stages)
      (invalid_chain "workflow chain stage dependency cycle")
  reject_if (cfg.git_ops_mode == draft_pr && not (any is_post_validation cfg.stages))
      (invalid_chain "draft PR GitOps requires a post-validation stage")
