-- ===== src/Chain/Config/Laws.antt =====
-- What a configuration that `validateConfig` accepts is like.
use text.Mathlib.TextEquality.{eq_iff}
use go_mivia.Base.{
  ℕ, zero, suc, String, ◌≡◌, ◌≢◌, refl, true, false, List, [], ◌∷◌, contains, any, All, arith,
  string_eq, ◌⊎◌, inl, inr, Bool-cases,
}
use go_mivia.Base.Members.{IsDistinct}
use go_mivia.Base.Result.{Error, ok, err, invalid_chain}
use go_mivia.Text.{◌⧺◌, trim_space}
use go_mivia.WorkPlan.Patterns.{ref_pattern}
use go_mivia.Chain.Model.{Config, StageConfig}
use go_mivia.Chain.Rules.{Engine, safe_ref, first_non_empty}
use go_mivia.Chain.Cycle.{has_dependency_cycle, stage_refs}
use go_mivia.Chain.Cycle.Walks.{IsCyclic}
use go_mivia.Chain.Cycle.Search.{has_dependency_cycle_iff}
use go_mivia.Chain.Config.{
  draft_pr, check_git_ops, check_stage, check_stages, check_deps, check_all_deps,
  is_post_validation, validate_config,
}

safe_ref-cases :
    (given name : String)
    → (safe_ref given name ≡ ok (trim_space given)) ⊎ ((e : Error) × (safe_ref given name ≡ err e))
unfolding safe_ref
safe_ref-cases given name = elim (Bool-cases (ref_pattern (trim_space given))) [
  | inl e ↦ inl (rw e refl)
  | inr e ↦ inr (invalid_chain (name ⧺ " must be a safe ref"), rw e refl)
]

check_stage-new :
    (i : ℕ) (seen : List String) (stage : StageConfig)
    → check_stage i seen stage ≡ ok tt
    → contains seen stage.stage_ref ≡ false
unfolding check_stage
check_stage-new i seen stage h = ground arith

check_stage-trigger :
    (seen : List String) (stage : StageConfig)
    → check_stage zero seen stage ≡ ok tt
    → first_non_empty (stage.trigger ∷ "after_stage_review_passed" ∷ []) ≡ "on_chain_start"
unfolding check_stage
check_stage-trigger seen stage h = ground (
  arith,
  eq_iff (first_non_empty (stage.trigger ∷ "after_stage_review_passed" ∷ [])) "on_chain_start",
)

-- The list from which a loop with `x` among the seen has found nothing twice.
away_from :
    (x : String) (seen refs : List String)
    → All (λ ref. contains (x ∷ seen) ref ≡ false) refs
    → (contains refs x ≡ false) × All (λ ref. contains seen ref ≡ false) refs
away_from x seen [] h = (refl, tt)
away_from x seen (ref ∷ refs) (p, h) =
    let (rest, old) = away_from x seen refs h in
    (ground (arith, eq_iff x ref, eq_iff ref x, rest), (ground arith, old))

check_stages-IsDistinct :
    (i : ℕ) (seen : List String) (stages : List StageConfig)
    → check_stages i seen stages ≡ ok tt
    → IsDistinct (stage_refs stages) × All (λ ref. contains seen ref ≡ false) (stage_refs stages)
unfolding check_stages
check_stages-IsDistinct i seen [] h = (tt, tt)
check_stages-IsDistinct i seen (stage ∷ stages) h =
    let (distinct, away) =
      check_stages-IsDistinct (suc i) (stage.stage_ref ∷ seen) stages (ground arith) in
    let (new, old) = away_from stage.stage_ref seen (stage_refs stages) away in
    ((new, distinct), (check_stage-new i seen stage (ground arith), old))

check_deps-known :
    (refs deps : List String)
    → check_deps refs deps ≡ ok tt
    → All (λ dep. contains refs (trim_space dep) ≡ true) deps
unfolding check_deps
check_deps-known refs [] h = tt
check_deps-known refs (dep ∷ deps) h = (
  elim (safe_ref-cases dep "depends_on") [
    | inl e ↦ ground (arith, e)
    | inr (_, e) ↦ absurd (ground (arith, e))
  ],
  check_deps-known refs deps (ground arith),
)

check_all_deps-known :
    (refs : List String) (stages : List StageConfig)
    → check_all_deps refs stages ≡ ok tt
    → All (λ stage. All (λ dep. contains refs (trim_space dep) ≡ true) stage.depends_on) stages
unfolding check_all_deps
check_all_deps-known refs [] h = tt
check_all_deps-known refs (stage ∷ stages) h = (
  check_deps-known refs stage.depends_on (ground arith),
  check_all_deps-known refs stages (ground arith),
)

-- The trigger of the first stage.
abbrev pub first_trigger : List StageConfig → String
first_trigger [] = ""
first_trigger (stage ∷ stages) = first_non_empty (stage.trigger ∷ "after_stage_review_passed" ∷ [])

pub record IsValidConfig (cfg : Config) : Type 0 where
  pub distinct : IsDistinct (stage_refs cfg.stages)
  pub known :
      All
        (λ stage.
          All (λ dep. contains (stage_refs cfg.stages) (trim_space dep) ≡ true) stage.depends_on)
        cfg.stages
  pub acyclic : ¬ IsCyclic cfg.stages
  pub starts : first_trigger cfg.stages ≡ "on_chain_start"
  pub draft :
      cfg.git_ops_mode ≡ draft_pr
      → (cfg.git_ops_enabled ≡ true) × (any is_post_validation cfg.stages ≡ true)

check_git_ops-stages : (cfg : Config) → check_git_ops cfg ≡ ok tt → cfg.stages ≢ []
unfolding check_git_ops
check_git_ops-stages cfg h e = ground arith

check_git_ops-draft :
    (cfg : Config)
    → check_git_ops cfg ≡ ok tt
    → cfg.git_ops_mode ≡ draft_pr
    → cfg.git_ops_enabled ≡ true
unfolding check_git_ops
check_git_ops-draft cfg h e = ground (arith, eq_iff cfg.git_ops_mode draft_pr)

starts_of :
    (stages : List StageConfig)
    → stages ≢ []
    → check_stages zero [] stages ≡ ok tt
    → first_trigger stages ≡ "on_chain_start"
unfolding check_stages
starts_of [] some_stage h = absurd (some_stage refl)
starts_of (stage ∷ stages) some_stage h = check_stage-trigger [] stage (ground arith)

-- What passes the five steps of `validate_config`.
passed :
    (engine : Engine) (cfg : Config)
    → validate_config engine cfg ≡ ok tt
    → (check_git_ops cfg ≡ ok tt)
      × (check_stages zero [] cfg.stages ≡ ok tt)
      × (check_all_deps (stage_refs cfg.stages) cfg.stages ≡ ok tt)
      × (has_dependency_cycle cfg.stages ≡ false)
      × (cfg.git_ops_mode ≡ draft_pr → any is_post_validation cfg.stages ≡ true)
unfolding validate_config
passed engine cfg h = (
  ground arith,
  ground arith,
  ground arith,
  ground arith,
  λ e. ground (arith, eq_iff cfg.git_ops_mode draft_pr),
)

-- A configuration that is accepted has stages with different references, of which the first starts
-- with the chain; each dependency, without white space, is a stage; no reference is reached from
-- itself by dependencies; and a chain that ends in a draft has GitOps enabled and a stage after
-- which it is validated.
pub validate_config-IsValidConfig :
    (engine : Engine) (cfg : Config) → validate_config engine cfg ≡ ok tt → IsValidConfig cfg
validate_config-IsValidConfig engine cfg h =
    let (modes, stages, deps, no_cycle, post) = passed engine cfg h in
    record {
      distinct = (check_stages-IsDistinct zero [] cfg.stages stages).0;
      known = check_all_deps-known (stage_refs cfg.stages) cfg.stages deps;
      acyclic = λ c. absurd (ground (arith, (has_dependency_cycle_iff cfg.stages).1 c));
      starts = starts_of cfg.stages (check_git_ops-stages cfg modes) stages;
      draft = λ e. (check_git_ops-draft cfg modes e, post e);
    }
