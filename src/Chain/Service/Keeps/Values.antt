-- ===== src/Chain/Service/Keeps/Values.antt =====
-- What the actions give that the handling of status changes goes on with.
use text.Mathlib.TextEquality.{eq_iff}
use go_mivia.Base.{
  String, ◌≡◌, refl, ap, inl, inr, arith, false, Option, none, some, List, [], ◌∷◌, ◌!=◌, string_eq,
  if◌then◌else◌,
}
use go_mivia.Base.Result.{ok}
use go_mivia.Base.Exec.{pure, ◌>>=◌, Yields, Yields-pure, Yields-if, Yields-bind, Yields-bind_lift}
use go_mivia.Text.{trim_space}
use go_mivia.WorkPlan.PlanStatus.{plan_status_eq}
use go_mivia.WorkPlan.Service.{Env, World, now}
use go_mivia.Chain.Model.{Config, StageConfig, ChainRun, StageRun, stage_queued, stage_completed}
use go_mivia.Chain.Service.{ChainService, Finalizer}
use go_mivia.Chain.Service.Keeps.{compile_stage-Compiled}
use go_mivia.Chain.Service.Stable.{IsCompleted, IsCompletion}
use go_mivia.Chain.Service.Stages.{compile_stage, stage_run_of}
use go_mivia.Chain.Service.Handle.{
  drafted, create_draft, finalize_with, is_finished_by, complete_stages,
}

-- What `compileStage` returns, as far as the order of the stages depends on it.
abbrev pub IsCompiled : StageConfig → StageRun → Type 0
IsCompiled next stage = (stage.stage_ref ≡ next.stage_ref) × (stage.status ≡ stage_queued)

completed_head :
    (plan_id : String) (old new : StageRun) (news olds : List StageRun)
    → IsCompleted plan_id old new
    → IsCompletion plan_id olds news
    → IsCompletion plan_id (old ∷ olds) (new ∷ news)
completed_head plan_id old new news olds head tail = (head, tail)

module _ {S : Type 0} (svc : ChainService S) where
  create_draft-Good :
      (Good : ChainRun → Type 0) (finalizer : Finalizer S) (run : ChainRun) (w : World S)
      → ((r : ChainRun)
          → r.project_id ≡ run.project_id
          → r.chain_ref ≡ run.chain_ref
          → r.stage_runs ≡ run.stage_runs
          → Good r)
      → Yields (λ r _. Good r) (create_draft svc finalizer run) w
  unfolding create_draft drafted
  create_draft-Good Good finalizer run w good = Yields-bind_lift _ _ w λ _ _.
      Yields-bind _ _ w λ plan _.
        Yields-bind _ _ _
          λ result _. Yields-bind_lift _ _ _ λ _ _. Yields-pure _ _ (good _ refl refl refl)

  pub finalize_with-Good :
      (Good : ChainRun → Type 0) (finalizer : Option (Finalizer S)) (run : ChainRun) (w : World S)
      → ((r : ChainRun)
          → r.project_id ≡ run.project_id
          → r.chain_ref ≡ run.chain_ref
          → r.stage_runs ≡ run.stage_runs
          → Good r)
      → Yields (λ r _. Good r) (finalize_with svc finalizer run) w
  unfolding finalize_with drafted
  finalize_with-Good Good none run w good = Yields-pure _ w (good _ refl refl refl)
  finalize_with-Good Good (some finalizer) run w good =
      Yields-if (trim_space run.pull_request_ref != "") _ _ w
        (λ _. Yields-pure _ w (good _ refl refl refl))
        (λ _. create_draft-Good Good finalizer run w good)

module _ {S : Type 0} (svc : ChainService S) (env : Env) where
  complete_head :
      (plan_id : String) (stage : StageRun) (w : World S)
      → Yields
          (λ head _. IsCompleted plan_id stage head)
          (if is_finished_by plan_id stage
            then now env
              >>= (λ t. pure (record stage { status = stage_completed; completed_at = t }))
            else pure stage)
          w
  unfolding is_finished_by
  complete_head plan_id stage w =
      Yields-if (is_finished_by plan_id stage) _ _ w
        (λ e. Yields-bind _ _ w λ t _.
          Yields-pure _ _
            (refl, refl, inr (refl, ground (arith, eq_iff stage.work_plan_id plan_id))))
        (λ _. Yields-pure _ w (refl, refl, inl refl))

  pub complete_stages-IsCompletion :
      (plan_id : String) (stages : List StageRun) (w : World S)
      → Yields (λ s _. IsCompletion plan_id stages s) (complete_stages svc env plan_id stages) w
  unfolding complete_stages
  complete_stages-IsCompletion plan_id [] w = Yields-pure _ w tt
  complete_stages-IsCompletion plan_id (stage ∷ stages) w = Yields-bind _ _ w λ head e.
      Yields-bind _ _ _ λ tail f. Yields-pure _ _ (
        completed_head plan_id stage head tail stages ((complete_head plan_id stage w).at head e)
          ((complete_stages-IsCompletion plan_id stages _).at tail f))

  pub compile_stage-IsCompiled :
      (cfg : Config) (run : ChainRun) (next : StageConfig) (w : World S) (stage : StageRun)
      → (compile_stage svc env cfg run next false w).0 ≡ ok stage
      → IsCompiled next stage
  unfolding stage_run_of
  compile_stage-IsCompiled cfg run next w stage e =
      let (workflow, compiled, t, same) =
        (compile_stage-Compiled svc env cfg run next w).at stage e in
      (ap (λ s. s.stage_ref) same, ap (λ s. s.status) same)
