-- ===== src/Chain/Tests/Calls.antt =====
-- A change of status that completes a stage and compiles the next, over the store in memory.
use text.Mathlib.TextEquality.{eq_iff}
use go_mivia.Base.{
  String, ◌≡◌, ◌≢◌, refl, subst, sym, ◌∙◌, none, false, [], ◌∷◌, Bool-cases, true, arith, string_eq,
  ◌==◌, inl, inr,
}
use go_mivia.Base.Result.{ok, err, foreign}
use go_mivia.Base.Exec.{lift, pure, attempt, ◌>>=◌, Keeps-lift, Keeps-pure, ok-inj}
use go_mivia.WorkPlan.PlanStatus.{active, done, plan_status_eq}
use go_mivia.WorkPlan.Model.{WorkPlanStatusChange}
use go_mivia.WorkPlan.Service.{Env, World, call, now}
use go_mivia.Chain.Model.{ChainRun, stage_planned, stage_queued, stage_completed}
use go_mivia.Chain.Run.Order.{AreDone, InOrder, has_left}
use go_mivia.Chain.Run.{
  status_from, status_of, is_ready, first_ready, next_ready_stage, all_stages_completed,
  append_unique, append_unique_many,
}
use go_mivia.Chain.Cycle.{deps_of, deps_from}
use go_mivia.Chain.Memory.{
  MemoryStore, memory_store, lookup, insert, get_chain_run, update_chain_run,
  find_chain_run_by_work_plan, index_plans_locked, index_plans, stage_plans, forget,
}
use go_mivia.Chain.Memory.Laws.{
  memory_store-IsLawfulChains, has_plan, find_chain_run_by_work_plan-update_chain_run,
}
use go_mivia.Chain.Service.{ChainService}
use go_mivia.Chain.Service.Stages.{
  config, compile_stage, resolve_workflow, only_workflow, activate_plan, release_compiled_tasks,
  stage_run_of,
}
use go_mivia.Chain.Service.Handle.{
  handle_work_plan_status_changed, handle_found, advance_to, after_compile, complete_stages,
  is_finished_by, save, with_compiled,
}
use go_mivia.Chain.Service.Ordered.{StartsFree}
use go_mivia.Chain.Service.Ordered.Stored.{
  AllOrderly, OthersKeep, status_call, serve_call, serve_calls, found_run, serve_calls-InOrder,
  Orderly,
}
use go_mivia.Chain.Tests.{two_stages, no_engine, stage_run, run_of, config_rules}

-- Workflows that compile to a plan without tasks, and work plans that refuse every call.
abbrev test_service : ChainService MemoryStore
test_service = record {
  store = memory_store;
  workflows = record {
    list_workflows = λ f. pure ("w1" ∷ []);
    compile_workflow = λ i. pure (record {
      work_plan_id = "";
      work_task_ids = [];
      reviewer_task_ids = [];
      automation_ids = [];
    });
  };
  work_plans = record {
    get_work_plan = λ p i. lift (err (foreign "no plan"));
    list_open_work_tasks = λ f. pure [];
    update_work_plan_status = λ i. lift (err (foreign "no plan"));
    update_work_task_status = λ i s. lift (err (foreign "no task"));
  };
  git_ops_finalizer = none;
  configs = two_stages ∷ [];
  engine = no_engine;
}

abbrev pub test_env : Env
test_env = record { time_at = λ n. 7; id_at = λ prefix n. "id" }

abbrev pub waiting : ChainRun
waiting =
    run_of (stage_run "plan" stage_queued "p1" ∷ stage_run "build" stage_planned "" ∷ [])
      ("p1" ∷ [])

abbrev stored : World MemoryStore
stored = record {
  db = record { runs = (("p", "r"), waiting) ∷ []; plan_id = (("p", "p1"), ("p", "r")) ∷ [] };
  readings = 0;
}

abbrev pub finished_plan : WorkPlanStatusChange
finished_plan = record {
  project_id = "p";
  plan_id = "p1";
  plan_ref = "ref";
  old_status = active;
  new_status = done;
  owner_agent = "";
  changed_at = 5;
}

-- what the handling of a change computes with
unfoldable pub handling : Unit {0}
unfolding config_rules serve_calls serve_call handle_work_plan_status_changed handle_found
    advance_to after_compile complete_stages is_finished_by save with_compiled config compile_stage
    resolve_workflow only_workflow activate_plan release_compiled_tasks stage_run_of
    next_ready_stage first_ready is_ready status_of status_from all_stages_completed append_unique
    append_unique_many call now attempt pure lift ◌>>=◌ lookup insert get_chain_run update_chain_run
    find_chain_run_by_work_plan index_plans_locked index_plans stage_plans forget
handling = tt

abbrev moved : ChainRun
moved = record (run_of [] ("p1" ∷ [])) {
  stage_runs =
      record (stage_run "plan" stage_completed "p1") { completed_at = 7 }
      ∷ record (stage_run "build" stage_queued "") { workflow_id = "w1"; started_at = 7 }
      ∷ [];
  next_action = "next stage automation will run when lifecycle gates are satisfied";
  updated_at = 7;
}

moves_on :
    found_run memory_store "p" "r"
      (serve_calls test_service test_env (status_call finished_plan ∷ []) stored).db
    ≡ ok moved
unfolding handling
moves_on = refl

found_config : config no_engine (two_stages ∷ []) "p" "c" ≡ ok two_stages
unfolding handling
found_config = refl

no_deps : (ref : String) → ("build" == ref) ≡ false → deps_of two_stages.stages ref ≡ []
unfolding deps_of deps_from
no_deps ref e = ground (arith, e)

still_planned : has_left (status_of waiting.stage_runs "build") ≡ false
unfolding status_of status_from
still_planned = refl

waiting-InOrder : InOrder two_stages.stages waiting.stage_runs
waiting-InOrder = record {
  at = λ ref left. elim (Bool-cases ("build" == ref)) [
    | inl e ↦ absurd (
        ground (
          arith,
          still_planned,
          subst (λ r. has_left (status_of waiting.stage_runs r) ≡ true)
              (sym ((eq_iff "build" ref).0 e)) left,
        ))
    | inr e ↦ subst (AreDone waiting.stage_runs) (sym (no_deps ref e)) tt
  ];
}

waiting-Orderly : Orderly test_service waiting
waiting-Orderly = (
  ((λ e. cc), ((λ e. refl), tt)),
  λ cfg known.
      subst (λ f. InOrder f.stages waiting.stage_runs)
        (ok-inj two_stages cfg (sym found_config ∙ known)) waiting-InOrder,
)

others_keep : OthersKeep test_service
others_keep = record {
  lists_workflows = λ f. Keeps-pure _;
  compiles = λ i. Keeps-pure _;
  gets_plan = λ p i. Keeps-lift _;
  lists_tasks = λ f. Keeps-pure _;
  updates_plan = λ i. Keeps-lift _;
  updates_task = λ i s. Keeps-lift _;
  finalizes = tt;
}

the_run :
    (p i : String) (run : ChainRun) → found_run memory_store p i stored.db ≡ ok run → waiting ≡ run
unfolding get_chain_run lookup
the_run p i run e = ground (arith, e)

stored-AllOrderly : AllOrderly test_service stored
unfolding get_chain_run lookup
stored-AllOrderly = record {
  at = λ p i run e. subst (Orderly test_service) (the_run p i run e) waiting-Orderly;
}

starts_free : StartsFree two_stages
starts_free first e = cc

serve_calls-InOrder_example : InOrder two_stages.stages moved.stage_runs
serve_calls-InOrder_example =
    serve_calls-InOrder test_service test_env memory_store-IsLawfulChains others_keep
      (starts_free, tt) (status_call finished_plan ∷ []) stored (plan_named, tt) stored-AllOrderly
      "p" "r" moved two_stages moves_on found_config
  where
    plan_named : finished_plan.plan_id ≢ ""
    plan_named e = cc

abbrev two_plans : ChainRun
two_plans =
    run_of (stage_run "plan" stage_completed "p1" ∷ stage_run "build" stage_queued "p2" ∷ [])
      ("p1" ∷ [])

updated-ok : (update_chain_run two_plans stored.db).0 ≡ ok two_plans
unfolding handling
updated-ok = refl

has_it : has_plan two_plans "p2" ≡ true
unfolding stage_plans
has_it = refl

find_chain_run_by_work_plan-update_chain_run_example :
    (find_chain_run_by_work_plan "p" "p2" (update_chain_run two_plans stored.db).1).0 ≡ ok two_plans
find_chain_run_by_work_plan-update_chain_run_example =
    find_chain_run_by_work_plan-update_chain_run two_plans stored.db "p2" has_it updated-ok
