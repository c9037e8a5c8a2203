-- ===== src/Chain/System/Sound.antt =====
-- The soundness of the stored tasks through the whole of the work plans and the chains.
use go_mivia.Base.{ℕ, zero, suc, String, ◌≡◌, none, some, List, [], ◌∷◌, All}
use go_mivia.Base.Exec.{Keeps, Keeps-pure, Keeps-bind, Keeps-bind_lift}
use go_mivia.WorkPlan.Model.{WorkTaskFilter, WorkPlanStatusChange}
use go_mivia.WorkPlan.Store.{WorkPlanStore, IsLawful, found_task}
use go_mivia.WorkPlan.Service.{Env, World}
use go_mivia.WorkPlan.Service.Keeps.{Sound, Keeps-read, Keeps-now, Keeps-new_id, Keeps-plan}
use go_mivia.WorkPlan.Service.Plans.{Handler, get_work_plan}
use go_mivia.WorkPlan.Service.Tasks.{open_plan_ids, list_tasks, list_open_work_tasks}
use go_mivia.WorkPlan.Service.Invariant.{Harmless, update_plan-Sound, update_work_task_status-Sound}
use go_mivia.WorkPlan.Service.Runs.{serve-Sound}
use go_mivia.Chain.Model.{Config, ChainRun}
use go_mivia.Chain.Rules.{Engine}
use go_mivia.Chain.Service.Stable.{IsStable}
use go_mivia.Chain.Service.{WorkflowFilter, WorkflowCompileInput}
use go_mivia.Chain.Service.Keeps.{CallsKeep, FinalizerKeeps, start-Keeps}
use go_mivia.Chain.Service.Keeps.Changes.{handle-Keeps, retry_git_ops-Keeps}
use go_mivia.Chain.System.{
  Parts, SystemRequest, plan_request, start_chain, retry_draft, fan_out, plan_api, chain_service,
  status_handler, serve_system, serve_requests,
}

-- The store of the chains leaves the tasks alone, and what is outside keeps them sound.
pub record AreHarmless {S : Type 0} (parts : Parts S) : Type 0 where
  pub creates :
      (run : ChainRun) (s : S) (p i : String)
      → found_task parts.plan_store p i (parts.chain_store.create_chain_run run s).1
        ≡ found_task parts.plan_store p i s
  pub gets :
      (q r : String) (s : S) (p i : String)
      → found_task parts.plan_store p i (parts.chain_store.get_chain_run q r s).1
        ≡ found_task parts.plan_store p i s
  pub updates :
      (run : ChainRun) (s : S) (p i : String)
      → found_task parts.plan_store p i (parts.chain_store.update_chain_run run s).1
        ≡ found_task parts.plan_store p i s
  pub finds :
      (q r : String) (s : S) (p i : String)
      → found_task parts.plan_store p i (parts.chain_store.find_chain_run_by_work_plan q r s).1
        ≡ found_task parts.plan_store p i s
  pub lists_workflows :
      (f : WorkflowFilter) → Keeps (Sound parts.plan_store) (parts.workflows.list_workflows f)
  pub compiles :
      (i : WorkflowCompileInput)
      → Keeps (Sound parts.plan_store) (parts.workflows.compile_workflow i)
  pub finalizes : FinalizerKeeps (Sound parts.plan_store) parts.git_ops_finalizer
  pub automates : Harmless parts.plan_store parts.automation

module _ {S : Type 0} (store : WorkPlanStore S) (law : IsLawful store) where
  get_work_plan-Keeps : (p i : String) → Keeps (Sound store) (get_work_plan store p i)
  unfolding get_work_plan
  get_work_plan-Keeps p i =
      Keeps-bind_lift _ _ λ ids _. Keeps-read store law _ (law.get_plan_reads ids.0 ids.1)

  list_tasks-Keeps : (f : WorkTaskFilter) → Keeps (Sound store) (list_tasks store f)
  unfolding list_tasks
  list_tasks-Keeps f = Keeps-bind_lift _ _ λ project_id _. Keeps-bind_lift _ _ λ plan_id _.
      Keeps-bind_lift _ _ λ _ _.
        Keeps-bind_lift _ _
          λ owner _. Keeps-bind_lift _ _ λ run _. Keeps-read store law _ (law.list_tasks_reads _)

  open_plan_ids-Keeps : (p : String) → Keeps (Sound store) (open_plan_ids store p)
  unfolding open_plan_ids
  open_plan_ids-Keeps p =
      Keeps-bind _ _ (Keeps-read store law _ (law.list_plans_reads _)) λ plans. Keeps-pure _

  list_open-Keeps : (f : WorkTaskFilter) → Keeps (Sound store) (list_open_work_tasks store f)
  unfolding list_open_work_tasks
  list_open-Keeps f =
      Keeps-bind _ _ (list_tasks-Keeps f)
        λ tasks. Keeps-bind _ _ (open_plan_ids-Keeps f.project_id) λ ids. Keeps-pure _

module _ {S : Type 0} (store : WorkPlanStore S) where
  fan_out-Keeps :
      (handlers : List (Handler S)) (change : WorkPlanStatusChange)
      → All (Harmless store) handlers
      → Keeps (Sound store) (fan_out handlers change)
  unfolding fan_out
  fan_out-Keeps [] change h = Keeps-pure _
  fan_out-Keeps (none ∷ handlers) change (_, h) = fan_out-Keeps handlers change h
  fan_out-Keeps (some handler ∷ handlers) change (p, h) =
      Keeps-bind _ _ (p change) λ _. fan_out-Keeps handlers change h

-- Nothing is asked of the runs themselves.
any_IsStable :
    (engine : Engine) (configs : List Config)
    → IsStable engine configs (λ _. Unit {0}) (λ _. Unit {0})
any_IsStable engine configs = record {
  same = λ _ _ _ _ _ _. tt;
  starts = λ _ _ _ _ _ _ _ _ _ _ _ _ _ _ _. tt;
  fails = λ _ _ _. tt;
  blocks = λ _ _ _ _ _ _. tt;
  compiles = λ _ _ _ _ _ _ _ _ _. tt;
  completes = λ _ _ _ _ _ _ _. tt;
}

module _ {S : Type 0} (parts : Parts S) (law : IsLawful parts.plan_store) (env : Env)
    (outside : AreHarmless parts) where
  calls_keep :
      (handler : Handler S)
      → Harmless parts.plan_store handler
      → CallsKeep (Sound parts.plan_store) (λ _. Unit {0}) (chain_service parts env handler) env
  unfolding chain_service plan_api
  calls_keep handler harmless = record {
    reads_clock = Keeps-now parts.plan_store law env;
    makes_id = Keeps-new_id parts.plan_store law env;
    creates = λ run _. Keeps-plan parts.plan_store law _ (outside.creates run);
    gets = λ q r. Keeps-plan parts.plan_store law _ (outside.gets q r);
    updates = λ run _. Keeps-plan parts.plan_store law _ (outside.updates run);
    finds = λ q r. Keeps-plan parts.plan_store law _ (outside.finds q r);
    gets_good = λ _ _ _ _ _ _. tt;
    finds_good = λ _ _ _ _ _ _. tt;
    lists_workflows = outside.lists_workflows;
    compiles = outside.compiles;
    gets_plan = get_work_plan-Keeps parts.plan_store law;
    lists_tasks = list_open-Keeps parts.plan_store law;
    updates_plan = λ i. update_plan-Sound parts.plan_store law env handler i harmless;
    updates_task = update_work_task_status-Sound parts.plan_store law env;
    finalizes = outside.finalizes;
  }

  status_handler-Harmless : (depth : ℕ) → Harmless parts.plan_store (status_handler parts env depth)
  unfolding status_handler
  status_handler-Harmless zero = outside.automates
  status_handler-Harmless (suc depth) = λ change. fan_out-Keeps parts.plan_store _ change (
    outside.automates,
    (
      λ c.
          handle-Keeps _ env (calls_keep _ (status_handler-Harmless depth)) (any_IsStable _ _) c tt,
      tt,
    ),
  )

  serve_system-Sound :
      (depth : ℕ) (request : SystemRequest) (w : World S)
      → Sound parts.plan_store w
      → Sound parts.plan_store (serve_system parts env depth request w)
  unfolding serve_system
  serve_system-Sound depth (plan_request request) =
      serve-Sound parts.plan_store law env _ (status_handler-Harmless depth) request
  serve_system-Sound depth (start_chain input) =
      (start-Keeps _ env (calls_keep _ (status_handler-Harmless depth)) (any_IsStable _ _) input).at
  serve_system-Sound depth (retry_draft project chain_run) =
      (retry_git_ops-Keeps _ env (calls_keep _ (status_handler-Harmless depth)) (any_IsStable _ _)
        project chain_run).at

  -- The services of the work plans and of the chains together, over a lawful store of plans which
  -- the store of chain runs leaves alone, with workflows, a finalizer and an automation that keep
  -- the stored tasks sound, and handlers of status changes nested to any depth: whatever requests
  -- to the two they serve, in any order and the failing ones included, all stored tasks stay sound.
  pub serve_requests-Sound :
      (depth : ℕ) (requests : List SystemRequest) (w : World S)
      → Sound parts.plan_store w
      → Sound parts.plan_store (serve_requests parts env depth requests w)
  unfolding serve_requests
  serve_requests-Sound depth [] w h = h
  serve_requests-Sound depth (request ∷ requests) w h =
      serve_requests-Sound depth requests _ (serve_system-Sound depth request w h)
