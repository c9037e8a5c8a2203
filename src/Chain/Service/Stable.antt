-- ===== src/Chain/Service/Stable.antt =====
-- Properties of a run that the service's changes of it keep.
use go_mivia.Base.{ℕ, String, ◌≡◌, ◌⊎◌, Option, none, some, List, [], ◌∷◌}
use go_mivia.Base.Result.{Error, ok}
use go_mivia.Chain.Model.{Config, StageConfig, ChainRun, StageRun, stage_queued, stage_completed}
use go_mivia.Chain.Rules.{Engine}
use go_mivia.Chain.Run.{next_ready_stage}
use go_mivia.Chain.Service.{WorkflowCompileResult}
use go_mivia.Chain.Service.Stages.{config, stage_run_of}
use go_mivia.Chain.Service.Start.{new_run, started}
use go_mivia.Chain.Service.Handle.{blocked_on_draft, blocked_on_stage, with_compiled}

abbrev pub first_stage : List StageConfig → Option StageConfig
first_stage [] = none
first_stage (stage ∷ stages) = some stage

-- A stage as it was, or completed if it is named after the plan.
abbrev pub IsCompleted : String → StageRun → StageRun → Type 0
IsCompleted plan_id old new =
    (new.stage_ref ≡ old.stage_ref)
    × (new.work_plan_id ≡ old.work_plan_id)
    × ((new.status ≡ old.status) ⊎ ((new.status ≡ stage_completed) × (old.work_plan_id ≡ plan_id)))

abbrev pub IsCompletion : String → List StageRun → List StageRun → Type 0
IsCompletion plan_id [] [] = Unit
IsCompletion plan_id [] (_ ∷ _) = ⊥
IsCompletion plan_id (_ ∷ _) [] = ⊥
IsCompletion plan_id (old ∷ olds) (new ∷ news) =
    IsCompleted plan_id old new × IsCompletion plan_id olds news

-- A property of runs that the changes of the service lead from runs with it to runs with it, for the
-- plans that are admitted.
pub record IsStable (engine : Engine) (configs : List Config) (Admitted : String → Type 0)
    (Good : ChainRun → Type 0) : Type 0 where
  pub same :
      (run other : ChainRun)
      → other.project_id ≡ run.project_id
      → other.chain_ref ≡ run.chain_ref
      → other.stage_runs ≡ run.stage_runs
      → Good run
      → Good other
  pub starts :
      (cfg : Config) (p c input_ref run_id trace_id id workflow : String) (t u v : ℕ)
      (first : StageConfig) (compiled : WorkflowCompileResult)
      → config engine configs p c ≡ ok cfg
      → first_stage cfg.stages ≡ some first
      → Good (
          started
            (new_run cfg input_ref run_id trace_id id t)
            (stage_run_of first workflow compiled u)
            v)
  pub fails : (run : ChainRun) (problem : Error) → Good run → Good (blocked_on_draft problem run)
  pub blocks :
      (cfg : Config) (run : ChainRun) (next : StageConfig)
      → config engine configs run.project_id run.chain_ref ≡ ok cfg
      → next_ready_stage cfg run ≡ some next
      → Good run
      → Good (blocked_on_stage run next)
  pub compiles :
      (cfg : Config) (run : ChainRun) (next : StageConfig) (stage : StageRun)
      → config engine configs run.project_id run.chain_ref ≡ ok cfg
      → next_ready_stage cfg run ≡ some next
      → stage.stage_ref ≡ next.stage_ref
      → stage.status ≡ stage_queued
      → Good run
      → Good (with_compiled run next stage)
  pub completes :
      (run : ChainRun) (plan_id : String) (stages : List StageRun) (t : ℕ)
      → Admitted plan_id
      → IsCompletion plan_id run.stage_runs stages
      → Good run
      → Good (record run { stage_runs = stages; updated_at = t })
