-- ===== src/Chain/Service/Ordered.antt =====
-- The order of the stages of the stored runs.
pub mod Changes
pub mod Stored
use text.Mathlib.TextEquality.{eq_iff}
use go_mivia.Base.{
  ℕ, String, ◌≡◌, ◌≢◌, inl, inr, refl, sym, ap, subst, ◌∙◌, Bool, true, false, ◌&&◌, none, some,
  List, [], ◌∷◌, All, arith, map, string_eq, ◌==◌, if_ind, Option, ◌⊎◌, if◌then◌else◌,
}
use go_mivia.Base.Members.{IsDistinct}
use go_mivia.Base.Result
use go_mivia.Base.Result.{Result, Error, ok, err}
use go_mivia.Base.Exec.{ok-inj}
use go_mivia.Chain.Model.{
  StageStatus, Config, StageConfig, ChainRun, StageRun, stage_planned, stage_queued, stage_blocked,
  stage_status_eq,
}
use go_mivia.Chain.Rules.{Engine}
use go_mivia.Chain.Cycle.{deps_of, stage_refs}
use go_mivia.Chain.Service.{WorkflowCompileResult}
use go_mivia.Chain.Config.{validate_config}
use go_mivia.Chain.Config.Laws.{validate_config-IsValidConfig}
use go_mivia.Chain.Run.{next_ready_stage, first_ready, status_from, status_of}
use go_mivia.Chain.Run.Order.{AreDone, InOrder, PlansLater, has_left}
use go_mivia.Chain.Run.Order.Change.{InOrder-change}
use go_mivia.Chain.Run.Order.Complete.{
  InOrder-completion, PlansLater-completion, InOrder-start, PlansLater-planned,
}
use go_mivia.Chain.Service.Stages.{config, stage_run_of}
use go_mivia.Chain.Service.Start.{planned_stage, set_first, new_run, started}
use go_mivia.Chain.Service.Handle.{
  change_stage, set_last_reason, block_stage, blocked_on_draft, blocked_on_stage, with_compiled,
}
use go_mivia.Chain.Service.Stable.{IsStable, first_stage}

found_here :
    (here : Bool) (valid : Result (Unit {0})) (cfg found : Config) (rest : Result Config)
    → (if here then Result.◌>>=◌ valid (λ _. ok cfg) else rest) ≡ ok found
    → ((here ≡ true) × (valid ≡ ok tt) × (cfg ≡ found)) ⊎ (rest ≡ ok found)
found_here true (ok t) cfg found rest e = inl (refl, refl, ok-inj cfg found e)
found_here true (err problem) cfg found rest e = cc
found_here false valid cfg found rest e = inr e

-- What a configuration is that `config` gives for a project and a chain.
abbrev pub IsFound : Engine → String → String → Config → Type 0
IsFound engine p c cfg =
    (cfg.project_id ≡ p) × (cfg.chain_ref ≡ c) × (validate_config engine cfg ≡ ok tt)

module _ (Q : Config → Type 0) where
  pub config-IsFound :
      (engine : Engine) (configs : List Config) (p c : String) (found : Config)
      → All Q configs
      → config engine configs p c ≡ ok found
      → IsFound engine p c found × Q found
  unfolding config
  config-IsFound engine [] p c found h e = cc
  config-IsFound engine (cfg ∷ configs) p c found (q, h) e =
      elim (found_here (cfg.enabled && cfg.project_id == p && cfg.chain_ref == c) _ cfg found _ e) [
        | inl (here, valid, same) ↦
            subst (λ f. IsFound engine p c f × Q f) same
              ((
                (
                  ground (arith, eq_iff cfg.project_id p),
                  ground (arith, eq_iff cfg.chain_ref c),
                  valid,
                ),
                q,
              ))
        | inr later ↦ config-IsFound engine configs p c found h later
      ]

-- The first stage of each chain waits for no other.
abbrev pub StartsFree : Config → Type 0
StartsFree cfg = (first : StageConfig) → first_stage cfg.stages ≡ some first → first.depends_on ≡ []

module _ (engine : Engine) (configs : List Config) where
  -- The run of a chain in the order of its configuration.
  abbrev pub IsOrderly : String → String → List StageRun → Type 0
  IsOrderly p c runs =
      PlansLater runs
      × ((cfg : Config) → config engine configs p c ≡ ok cfg → InOrder cfg.stages runs)

  pub IsDistinct-refs :
      (p c : String) (cfg : Config)
      → config engine configs p c ≡ ok cfg
      → IsDistinct (stage_refs cfg.stages)
  IsDistinct-refs p c cfg known =
      let ((_, _, valid), _) =
        config-IsFound (λ _. Unit) engine configs p c cfg (all_unit configs) known in
      (validate_config-IsValidConfig engine cfg valid).distinct
    where
      all_unit : (cs : List Config) → All (λ _. Unit {0}) cs
      all_unit [] = tt
      all_unit (c2 ∷ cs) = (tt, all_unit cs)
