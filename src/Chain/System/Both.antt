-- ===== src/Chain/System/Both.antt =====
-- Two stores side by side, each with a state of its own: the stores in memory of the work plans and of the
-- chains, put together.
use go_mivia.Base.{◌≡◌, refl, ap, Option, List}
use go_mivia.Base.Exec.{Exec, Keeps}
use go_mivia.WorkPlan.Store.{WorkPlanStore, IsLawful}
use go_mivia.WorkPlan.Service.Keeps.{Sound}
use go_mivia.WorkPlan.Service.Plans.{Handler}
use go_mivia.WorkPlan.Service.Invariant.{Harmless}
use go_mivia.WorkPlan.Memory as Plans
use go_mivia.WorkPlan.Memory.Laws.{memory_store-IsLawful}
use go_mivia.Chain.Model.{Config}
use go_mivia.Chain.Rules.{Engine}
use go_mivia.Chain.Service.{
  ChainStore, WorkflowApi, Finalizer, WorkflowFilter, WorkflowCompileInput,
}
use go_mivia.Chain.Service.Keeps.{FinalizerKeeps}
use go_mivia.Chain.Memory as Chains
use go_mivia.Chain.System.{Parts}
use go_mivia.Chain.System.Sound.{AreHarmless}

module _ {S T : Type 0} where
  abbrev on_first : {A : Type 0} → Exec S A → Exec (S × T) A
  on_first m w = ((m w.0).0, ((m w.0).1, w.1))

  abbrev on_second : {A : Type 0} → Exec T A → Exec (S × T) A
  on_second m w = ((m w.1).0, (w.0, (m w.1).1))

  abbrev pub first_store : WorkPlanStore S → WorkPlanStore (S × T)
  first_store store = record {
    create_work_plan = λ q. on_first (store.create_work_plan q);
    get_work_plan = λ p i. on_first (store.get_work_plan p i);
    list_work_plans = λ f. on_first (store.list_work_plans f);
    update_work_plan = λ q. on_first (store.update_work_plan q);
    create_work_task = λ t. on_first (store.create_work_task t);
    get_work_task = λ p i. on_first (store.get_work_task p i);
    list_work_tasks = λ f. on_first (store.list_work_tasks f);
    update_work_task = λ t. on_first (store.update_work_task t);
    create_attachment = λ a. on_first (store.create_attachment a);
    list_attachments = λ p i. on_first (store.list_attachments p i);
  }

  abbrev pub second_store : ChainStore T → ChainStore (S × T)
  second_store store = record {
    create_chain_run = λ run. on_second (store.create_chain_run run);
    get_chain_run = λ p i. on_second (store.get_chain_run p i);
    list_chain_runs = λ f. on_second (store.list_chain_runs f);
    update_chain_run = λ run. on_second (store.update_chain_run run);
    find_chain_run_by_work_plan = λ p i. on_second (store.find_chain_run_by_work_plan p i);
  }

  beside : (w : S × T) {s : S} → s ≡ w.0 → ◌≡◌ {A = S × T} (s, w.1) w
  beside w e = ap (λ s. (s, w.1)) e

  -- A lawful store of plans stays one beside another state.
  pub first_store-IsLawful :
      (store : WorkPlanStore S) → IsLawful store → IsLawful (first_store store)
  first_store-IsLawful store law = record {
    get_plan_reads = λ p i w. beside w (law.get_plan_reads p i w.0);
    get_task_reads = λ p i w. beside w (law.get_task_reads p i w.0);
    list_plans_reads = λ f w. beside w (law.list_plans_reads f w.0);
    list_tasks_reads = λ f w. beside w (law.list_tasks_reads f w.0);
    list_attachments_reads = λ p i w. beside w (law.list_attachments_reads p i w.0);
    update_task_ok = λ t w. law.update_task_ok t w.0;
    update_task_known = λ t w. law.update_task_known t w.0;
    update_task_err = λ t w h. beside w (law.update_task_err t w.0 h);
    update_task_frame = λ t w. law.update_task_frame t w.0;
    create_task_frame = λ t w. law.create_task_frame t w.0;
    create_attachment_frame = λ a w. law.create_attachment_frame a w.0;
    create_plan_frame = λ q w. law.create_plan_frame q w.0;
    update_plan_frame = λ q w. law.update_plan_frame q w.0;
    update_plan_ok = λ q w. law.update_plan_ok q w.0;
    create_task_ok = λ t w. law.create_task_ok t w.0;
    create_plan_ok = λ q w. law.create_plan_ok q w.0;
    create_attachment_ok = λ a w. law.create_attachment_ok a w.0;
    create_attachment_keeps = λ a w. law.create_attachment_keeps a w.0;
    create_task_err = λ t w h. beside w (law.create_task_err t w.0 h);
    create_plan_err = λ q w h. beside w (law.create_plan_err q w.0 h);
    update_plan_err = λ q w h. beside w (law.update_plan_err q w.0 h);
    create_attachment_err = λ a w h. beside w (law.create_attachment_err a w.0 h);
    update_task_others = λ t w. law.update_task_others t w.0;
    create_task_others = λ t w. law.create_task_others t w.0;
    update_plan_others = λ q w. law.update_plan_others q w.0;
    create_plan_others = λ q w. law.create_plan_others q w.0;
    create_attachment_others = λ a w. law.create_attachment_others a w.0;
    update_task_plans = λ t w. law.update_task_plans t w.0;
    create_task_plans = λ t w. law.create_task_plans t w.0;
    create_attachment_plans = λ a w. law.create_attachment_plans a w.0;
    update_task_attachments = λ t w. law.update_task_attachments t w.0;
    create_task_attachments = λ t w. law.create_task_attachments t w.0;
    update_plan_attachments = λ q w. law.update_plan_attachments q w.0;
    create_plan_attachments = λ q w. law.create_plan_attachments q w.0;
  }

abbrev pub Memories : Type 0
Memories = Plans.MemoryStore × Chains.MemoryStore

abbrev pub plan_memory : WorkPlanStore Memories
plan_memory = first_store Plans.memory_store

pub plan_memory-IsLawful : IsLawful plan_memory
plan_memory-IsLawful = first_store-IsLawful Plans.memory_store memory_store-IsLawful

module _ (workflows : WorkflowApi Memories) (finalizer : Option (Finalizer Memories))
    (configs : List Config) (engine : Engine) (automation : Handler Memories) where
  -- The two stores in memory, with what is outside.
  abbrev pub memory_parts : Parts Memories
  memory_parts = record {
    plan_store = plan_memory;
    chain_store = second_store Chains.memory_store;
    workflows = workflows;
    git_ops_finalizer = finalizer;
    configs = configs;
    engine = engine;
    automation = automation;
  }

  -- The store of the chains leaves the tasks alone, so it is enough that what is outside does.
  pub memory_parts-AreHarmless :
      ((f : WorkflowFilter) → Keeps (Sound plan_memory) (workflows.list_workflows f))
      → ((i : WorkflowCompileInput) → Keeps (Sound plan_memory) (workflows.compile_workflow i))
      → FinalizerKeeps (Sound plan_memory) finalizer
      → Harmless plan_memory automation
      → AreHarmless memory_parts
  memory_parts-AreHarmless lists compiles finalizes automates = record {
    creates = λ run s p i. refl;
    gets = λ q r s p i. refl;
    updates = λ run s p i. refl;
    finds = λ q r s p i. refl;
    lists_workflows = lists;
    compiles = compiles;
    finalizes = finalizes;
    automates = automates;
  }
