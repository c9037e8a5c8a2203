-- ===== src/Chain/Service/Keeps.antt =====
-- What the calls of a chain's service keep, its methods keep: for any property of the world.
pub mod Values
pub mod Changes
use go_mivia.Base.{
  ℕ, ◌≡◌, refl, sym, ap, subst, String, Bool, true, false, not, ◌&&◌, ◌||◌, Option, none, some,
  List, [], ◌∷◌, ◌++◌, ◌==◌, ◌!=◌, string_eq, contains, is_empty, any, if◌then◌else◌,
}
use go_mivia.Base.Result.{Result, ok, err}
use go_mivia.Base.Exec.{
  Exec, pure, attempt, ◌>>=◌, Keeps, Keeps-pure, Keeps-lift, Keeps-if, Keeps-bind, Keeps-bind_lift,
  Keeps-bind_with, Yields, Yields-bind, Yields-pure,
}
use go_mivia.WorkPlan.TaskStatus.{planned, task_status_eq}
use go_mivia.WorkPlan.PlanStatus.{done, plan_status_eq}
use go_mivia.WorkPlan.Model.{
  WorkTask, WorkTaskFilter, WorkTaskActionInput, UpdateWorkPlanStatusInput, WorkPlanStatusChange,
}
use go_mivia.WorkPlan.Service.{Env, World, call, now, new_id}
use go_mivia.Chain.Model.{
  Config, StageConfig, ChainRun, StageRun, StartInput, StartResult, is_chain_blocked,
}
use go_mivia.Chain.Config.{draft_pr}
use go_mivia.Chain.Run.{all_stages_completed, next_ready_stage}
use go_mivia.Chain.Service.{
  ChainService, Finalizer, GitOpsFinalizeInput, WorkflowFilter, WorkflowCompileInput,
  WorkflowCompileResult,
}
use go_mivia.Chain.Service.Stages.{
  resolve_workflow, resolve_all, config, stage_run_of, validate_configured_workflows, release_tasks,
  release_compiled_tasks, activate_plan, compile_stage,
}
use go_mivia.Chain.Service.Start.{
  dry_run_stages, dry_run_start, start_first, start, with_stage, new_run, started,
}
use go_mivia.Chain.Service.Stable.{IsStable, first_stage}

module _ {S : Type 0} (Inv : World S → Type 0) where
  abbrev pub FinalizerKeeps : Option (Finalizer S) → Type 0
  FinalizerKeeps none = Unit
  FinalizerKeeps (some finalizer) = (input : GitOpsFinalizeInput) → Keeps Inv (finalizer input)

module _ {S : Type 0} (Inv : World S → Type 0) (Good : ChainRun → Type 0) where
  -- Each call that the service makes keeps the property of the world; a run that it writes is good, and
  -- one that it reads is.
  pub record CallsKeep (svc : ChainService S) (env : Env) : Type 0 where
    pub reads_clock : Keeps Inv (now env)
    pub makes_id : (prefix : String) → Keeps Inv (new_id env prefix)
    pub creates : (run : ChainRun) → Good run → Keeps Inv (call (svc.store.create_chain_run run))
    pub gets : (p i : String) → Keeps Inv (call (svc.store.get_chain_run p i))
    pub updates : (run : ChainRun) → Good run → Keeps Inv (call (svc.store.update_chain_run run))
    pub finds : (p i : String) → Keeps Inv (call (svc.store.find_chain_run_by_work_plan p i))
    pub gets_good :
        (p i : String) (w : World S)
        → Inv w
        → (run : ChainRun) → (call (svc.store.get_chain_run p i) w).0 ≡ ok run
        → Good run
    pub finds_good :
        (p i : String) (w : World S)
        → Inv w
        → (run : ChainRun) → (call (svc.store.find_chain_run_by_work_plan p i) w).0 ≡ ok run
        → Good run
    pub lists_workflows : (f : WorkflowFilter) → Keeps Inv (svc.workflows.list_workflows f)
    pub compiles : (i : WorkflowCompileInput) → Keeps Inv (svc.workflows.compile_workflow i)
    pub gets_plan : (p i : String) → Keeps Inv (svc.work_plans.get_work_plan p i)
    pub lists_tasks : (f : WorkTaskFilter) → Keeps Inv (svc.work_plans.list_open_work_tasks f)
    pub updates_plan :
        (i : UpdateWorkPlanStatusInput) → Keeps Inv (svc.work_plans.update_work_plan_status i)
    pub updates_task :
        (i : WorkTaskActionInput) (status : String)
        → Keeps Inv (svc.work_plans.update_work_task_status i status)
    pub finalizes : FinalizerKeeps Inv svc.git_ops_finalizer

-- A stage as `compileStage` returns it.
abbrev pub Compiled : StageConfig → StageRun → Type 0
Compiled stage run =
    (workflow : String) × (compiled : WorkflowCompileResult) × (t : ℕ) × (run
      ≡ stage_run_of stage workflow compiled t)

module _ {S : Type 0} (svc : ChainService S) (env : Env) where
  pub compile_stage-Compiled :
      (cfg : Config) (run : ChainRun) (stage : StageConfig) (w : World S)
      → Yields (λ s _. Compiled stage s) (compile_stage svc env cfg run stage false) w
  unfolding compile_stage
  compile_stage-Compiled cfg run stage w = Yields-bind _ _ w λ workflow _.
      Yields-bind _ _ _ λ compiled _. Yields-bind _ _ _ λ t _.
        Yields-bind _ _ _
          λ _ _. Yields-bind _ _ _ λ _ _. Yields-pure _ _ (workflow, compiled, t, refl)

module _ {S : Type 0} {Inv : World S → Type 0} {Good : ChainRun → Type 0}
    {Admitted : String → Type 0} (svc : ChainService S) (env : Env)
    (calls : CallsKeep Inv Good svc env)
    (stable : IsStable svc.engine svc.configs Admitted Good) where
  resolve_workflow-Keeps : (p w : String) → Keeps Inv (resolve_workflow svc p w)
  unfolding resolve_workflow
  resolve_workflow-Keeps p w = Keeps-bind _ _ (calls.lists_workflows _) λ found. Keeps-lift _

  resolve_all-Keeps :
      (cfg : Config) (seen : List String) (stages : List StageConfig)
      → Keeps Inv (resolve_all svc cfg seen stages)
  unfolding resolve_all
  resolve_all-Keeps cfg seen [] = Keeps-pure _
  resolve_all-Keeps cfg seen (stage ∷ stages) =
      Keeps-bind _ _
        (Keeps-if (contains seen stage.workflow_ref) _ _ (λ _. Keeps-pure "")
          (λ _. resolve_workflow-Keeps cfg.project_id stage.workflow_ref))
        λ _. resolve_all-Keeps cfg (stage.workflow_ref ∷ seen) stages

  workflows-Keeps : (cfg : Config) → Keeps Inv (validate_configured_workflows svc cfg)
  unfolding validate_configured_workflows
  workflows-Keeps cfg = Keeps-bind_lift _ _ λ _ _. resolve_all-Keeps cfg [] cfg.stages

  release_tasks-Keeps :
      (p : String) (ids : List String) (run : ChainRun) (tasks : List WorkTask)
      → Keeps Inv (release_tasks svc p ids run tasks)
  unfolding release_tasks
  release_tasks-Keeps p ids run [] = Keeps-pure _
  release_tasks-Keeps p ids run (task ∷ tasks) =
      Keeps-if (not (contains ids task.id) || task.status != planned) _ _
        (λ _. release_tasks-Keeps p ids run tasks)
        (λ _. Keeps-bind _ _ (calls.updates_task _ _) λ _. release_tasks-Keeps p ids run tasks)

  release_compiled_tasks-Keeps :
      (p : String) (compiled : WorkflowCompileResult) (run : ChainRun)
      → Keeps Inv (release_compiled_tasks svc p compiled run)
  unfolding release_compiled_tasks
  release_compiled_tasks-Keeps p compiled run =
      Keeps-if
        (compiled.work_plan_id == ""
          || is_empty compiled.work_task_ids && is_empty compiled.reviewer_task_ids)
        _ _ (λ _. Keeps-pure _)
        (λ _. Keeps-bind _ _ (calls.lists_tasks _) λ tasks. release_tasks-Keeps p _ run tasks)

  activate_plan-Keeps :
      (cfg : Config) (compiled : WorkflowCompileResult) (run : ChainRun)
      → Keeps Inv (activate_plan svc cfg compiled run)
  unfolding activate_plan
  activate_plan-Keeps cfg compiled run =
      Keeps-if (compiled.work_plan_id == "") _ _ (λ _. Keeps-pure _)
        (λ _. Keeps-bind _ _ (calls.updates_plan _) λ _. Keeps-pure _)

  pub compile_stage-Keeps :
      (cfg : Config) (run : ChainRun) (stage : StageConfig) (dry_run : Bool)
      → Keeps Inv (compile_stage svc env cfg run stage dry_run)
  unfolding compile_stage
  compile_stage-Keeps cfg run stage dry_run =
      Keeps-bind _ _ (resolve_workflow-Keeps cfg.project_id stage.workflow_ref) λ id.
        Keeps-bind _ _ (calls.compiles _) λ compiled. Keeps-bind _ _ calls.reads_clock λ t.
          Keeps-if dry_run _ _ (λ _. Keeps-pure _)
            (λ _. Keeps-bind _ _ (activate_plan-Keeps cfg compiled run) λ _.
              Keeps-bind _ _ (release_compiled_tasks-Keeps cfg.project_id compiled run)
                λ _. Keeps-pure _)

  dry_run_stages-Keeps :
      (cfg : Config) (run : ChainRun) (stages : List StageConfig) (result : StartResult)
      → Keeps Inv (dry_run_stages svc env cfg run stages result)
  unfolding dry_run_stages
  dry_run_stages-Keeps cfg run [] result = Keeps-pure result
  dry_run_stages-Keeps cfg run (stage ∷ stages) result =
      Keeps-bind _ _ (compile_stage-Keeps cfg run stage true)
        λ s. dry_run_stages-Keeps cfg run stages (with_stage result s)

  dry_run_start-Keeps :
      (cfg : Config) (input_ref run_id trace_id : String)
      → Keeps Inv (dry_run_start svc env cfg input_ref run_id trace_id)
  unfolding dry_run_start
  dry_run_start-Keeps cfg input_ref run_id trace_id = dry_run_stages-Keeps cfg _ cfg.stages _

  start_first-Keeps :
      (cfg : Config) (p c input_ref run_id trace_id id : String) (t : ℕ)
      → config svc.engine svc.configs p c ≡ ok cfg
      → (stages : List StageConfig) → cfg.stages ≡ stages
      → Keeps Inv (start_first svc env cfg (new_run cfg input_ref run_id trace_id id t) stages)
  unfolding start_first
  start_first-Keeps cfg p c input_ref run_id trace_id id t known [] same = Keeps-lift _
  start_first-Keeps cfg p c input_ref run_id trace_id id t known (first ∷ _) same =
      Keeps-bind_with (Compiled first) _ _
        (λ before _ stage e. (compile_stage-Compiled svc env cfg _ first before).at stage e)
        (compile_stage-Keeps cfg _ first false)
        λ stage (workflow, compiled, u, is_stage). Keeps-bind _ _ calls.reads_clock λ v.
          Keeps-bind _ _
            (calls.creates _ (
              subst (λ s. Good (started (new_run cfg input_ref run_id trace_id id t) s v))
                (sym is_stage)
                (stable.starts cfg p c input_ref run_id trace_id id workflow t u v first compiled
                  known (ap first_stage same))))
            λ _. Keeps-pure _

  pub start-Keeps : (input : StartInput) → Keeps Inv (start svc env input)
  unfolding start
  start-Keeps input = Keeps-bind_lift _ _ λ p _. Keeps-bind_lift _ _ λ c _.
      Keeps-bind_lift _ _ λ run_id _. Keeps-bind_lift _ _ λ trace_id _.
        Keeps-bind_lift _ _ λ cfg known. Keeps-bind_lift _ _ λ input_ref _.
          Keeps-bind _ _ (workflows-Keeps cfg) λ _.
            Keeps-if input.dry_run _ _ (λ _. dry_run_start-Keeps cfg input_ref run_id trace_id)
              (λ _. Keeps-bind _ _ (calls.makes_id _) λ id.
                Keeps-bind _ _ calls.reads_clock λ t.
                  start_first-Keeps cfg p c input_ref run_id trace_id id t known cfg.stages refl)
