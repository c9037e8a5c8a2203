-- ===== src/Chain/Service/Ordered/Stored.antt =====
-- The stored runs of a chain's service, over any sequence of calls.
use go_mivia.Base.{String, ◌≡◌, ◌≢◌, ◌⊎◌, inl, inr, sym, subst, List, [], ◌∷◌, All}
use go_mivia.Base.Result.{Result, ok}
use go_mivia.Base.Exec.{Exec, Keeps}
use go_mivia.WorkPlan.Model.{
  WorkTaskFilter, WorkTaskActionInput, UpdateWorkPlanStatusInput, WorkPlanStatusChange,
}
use go_mivia.WorkPlan.Service.{Env, World, call, now, new_id}
use go_mivia.Chain.Model.{Config, ChainRun, StartInput}
use go_mivia.Chain.Run.Order.{InOrder}
use go_mivia.Chain.Service.{ChainStore, ChainService, WorkflowFilter, WorkflowCompileInput}
use go_mivia.Chain.Service.Stages.{config}
use go_mivia.Chain.Service.Start.{start}
use go_mivia.Chain.Service.Handle.{handle_work_plan_status_changed, retry_git_ops}
use go_mivia.Chain.Service.Keeps.{CallsKeep, FinalizerKeeps, start-Keeps}
use go_mivia.Chain.Service.Keeps.Changes.{handle-Keeps, retry_git_ops-Keeps}
use go_mivia.Chain.Service.Ordered.{IsOrderly, StartsFree}
use go_mivia.Chain.Service.Ordered.Changes.{IsOrderly-IsStable}

module _ {S : Type 0} (store : ChainStore S) where
  abbrev pub found_run : String → String → S → Result ChainRun
  found_run project chain_run s = (store.get_chain_run project chain_run s).0

  -- Reads change nothing, a search finds a stored run, and a write changes no other run.
  pub record IsLawfulChains : Type 0 where
    pub get_reads : (p i : String) (s : S) → (store.get_chain_run p i s).1 ≡ s
    pub find_reads : (p i : String) (s : S) → (store.find_chain_run_by_work_plan p i s).1 ≡ s
    pub find_stored :
        (p i : String) (s : S) (run : ChainRun)
        → (store.find_chain_run_by_work_plan p i s).0 ≡ ok run
        → (q : String) × (j : String) × (found_run q j s ≡ ok run)
    pub create_frame :
        (run : ChainRun) (s : S) (p i : String) (x : ChainRun)
        → found_run p i (store.create_chain_run run s).1 ≡ ok x
        → (x ≡ run) ⊎ (found_run p i s ≡ ok x)
    pub update_frame :
        (run : ChainRun) (s : S) (p i : String) (x : ChainRun)
        → found_run p i (store.update_chain_run run s).1 ≡ ok x
        → (x ≡ run) ⊎ (found_run p i s ≡ ok x)

module _ {S : Type 0} (svc : ChainService S) where
  abbrev pub Orderly : ChainRun → Type 0
  Orderly run = IsOrderly svc.engine svc.configs run.project_id run.chain_ref run.stage_runs

  -- All runs that can be found in the store have their stages in order.
  pub record AllOrderly (w : World S) : Type 0 where
    pub at : (p i : String) (run : ChainRun) → found_run svc.store p i w.db ≡ ok run → Orderly run

  -- The calls of other components leave the stored runs in order.
  pub record OthersKeep : Type 0 where
    pub lists_workflows : (f : WorkflowFilter) → Keeps AllOrderly (svc.workflows.list_workflows f)
    pub compiles : (i : WorkflowCompileInput) → Keeps AllOrderly (svc.workflows.compile_workflow i)
    pub gets_plan : (p i : String) → Keeps AllOrderly (svc.work_plans.get_work_plan p i)
    pub lists_tasks :
        (f : WorkTaskFilter) → Keeps AllOrderly (svc.work_plans.list_open_work_tasks f)
    pub updates_plan :
        (i : UpdateWorkPlanStatusInput)
        → Keeps AllOrderly (svc.work_plans.update_work_plan_status i)
    pub updates_task :
        (i : WorkTaskActionInput) (status : String)
        → Keeps AllOrderly (svc.work_plans.update_work_task_status i status)
    pub finalizes : FinalizerKeeps AllOrderly svc.git_ops_finalizer

-- The calls that write runs: `Start`, `HandleWorkPlanStatusChanged`, `RetryGitOps`.
pub data ChainCall : Type 0 where
  start_call : StartInput → ChainCall
  status_call : WorkPlanStatusChange → ChainCall
  retry_call : String → String → ChainCall

-- A change of status is one of a plan that has an identifier.
abbrev pub IsNamed : ChainCall → Type 0
IsNamed (status_call change) = change.plan_id ≢ ""
IsNamed _ = Unit

module _ {S : Type 0} (svc : ChainService S) (env : Env) where
  unfoldable pub serve_call : ChainCall → World S → World S
  serve_call (start_call input) w = (start svc env input w).1
  serve_call (status_call change) w = (handle_work_plan_status_changed svc env change w).1
  serve_call (retry_call project chain_run) w = (retry_git_ops svc env project chain_run w).1

  unfoldable pub serve_calls : List ChainCall → World S → World S
  serve_calls [] w = w
  serve_calls (c ∷ cs) w = serve_calls cs (serve_call c w)

module _ {S : Type 0} (svc : ChainService S) (env : Env) (law : IsLawfulChains svc.store)
    (others : OthersKeep svc) (free : All StartsFree svc.configs) where
  reads_keep :
      {A : Type 0} (m : Exec S A) → ((s : S) → (m s).1 ≡ s) → Keeps (AllOrderly svc) (call m)
  unfolding call
  reads_keep m reads = record {
    at = λ w h. record {
      at = λ p i run e.
          h.at p i run (subst (λ s. found_run svc.store p i s ≡ ok run) (reads w.db) e);
    };
  }

  write-Keeps :
      (m : Exec S ChainRun) (written : ChainRun)
      → ((s : S) (p i : String) (x : ChainRun)
          → found_run svc.store p i (m s).1 ≡ ok x
          → (x ≡ written) ⊎ (found_run svc.store p i s ≡ ok x))
      → Orderly svc written
      → Keeps (AllOrderly svc) (call m)
  unfolding call
  write-Keeps m written frame good = record {
    at = λ w h. record {
      at = λ p i x e. elim (frame w.db p i x e) [
        | inl same ↦ subst (Orderly svc) (sym same) good
        | inr old ↦ h.at p i x old
      ];
    };
  }

  calls_keep : CallsKeep (AllOrderly svc) (Orderly svc) svc env
  unfolding call now new_id
  calls_keep = record {
    reads_clock = record { at = λ w h. record { at = h.at } };
    makes_id = λ prefix. record { at = λ w h. record { at = h.at } };
    creates = λ run good. write-Keeps _ run (law.create_frame run) good;
    gets = λ p i. reads_keep _ (law.get_reads p i);
    updates = λ run good. write-Keeps _ run (law.update_frame run) good;
    finds = λ p i. reads_keep _ (law.find_reads p i);
    gets_good = λ p i w h run e. h.at p i run e;
    finds_good =
        λ p i w h run e. let (q, j, stored) = law.find_stored p i w.db run e in h.at q j run stored;
    lists_workflows = others.lists_workflows;
    compiles = others.compiles;
    gets_plan = others.gets_plan;
    lists_tasks = others.lists_tasks;
    updates_plan = others.updates_plan;
    updates_task = others.updates_task;
    finalizes = others.finalizes;
  }

  serve_call-AllOrderly :
      (c : ChainCall) (w : World S)
      → IsNamed c
      → AllOrderly svc w
      → AllOrderly svc (serve_call svc env c w)
  unfolding serve_call
  serve_call-AllOrderly (start_call input) w named h =
      (start-Keeps svc env calls_keep (IsOrderly-IsStable svc.engine svc.configs free) input).at w h
  serve_call-AllOrderly (status_call change) w named h =
      (handle-Keeps svc env calls_keep (IsOrderly-IsStable svc.engine svc.configs free) change
          named).at
        w h
  serve_call-AllOrderly (retry_call project chain_run) w named h =
      (retry_git_ops-Keeps svc env calls_keep (IsOrderly-IsStable svc.engine svc.configs free)
          project chain_run).at
        w h

  -- Over a lawful store of chain runs, where the first stage of each configured chain waits for no
  -- other, the calls of the other components leave the stored runs in order, and each change of
  -- status is of a plan with an identifier: every stored run keeps its stages in order through any
  -- sequence of starts, changes of status and retries, the failing ones included. In order means
  -- that a stage which has left planned has all stages that it depends on completed.
  pub serve_calls-InOrder :
      (cs : List ChainCall) (w : World S)
      → All IsNamed cs
      → AllOrderly svc w
      → (p i : String) (run : ChainRun) (cfg : Config)
      → found_run svc.store p i (serve_calls svc env cs w).db ≡ ok run
      → config svc.engine svc.configs run.project_id run.chain_ref ≡ ok cfg
      → InOrder cfg.stages run.stage_runs
  unfolding serve_calls
  serve_calls-InOrder [] w named h = λ p i run cfg stored known. (h.at p i run stored).1 cfg known
  serve_calls-InOrder (c ∷ cs) w (n, named) h =
      serve_calls-InOrder cs (serve_call svc env c w) named (serve_call-AllOrderly c w n h)
