-- ===== src/Chain/Tests/System.antt =====
-- The work plans and the chains together, over the two stores in memory, at concrete values.
use go_mivia.Base.{
  ◌≡◌, refl, subst, String, some, List, [], ◌∷◌, true, false, ◌⊎◌, inl, inr, arith, if◌then◌else◌,
}
use go_mivia.Base.Result.{ok}
use go_mivia.Base.Exec.{Exec, pure, ◌>>◌, Keeps-pure, Keeps-bind}
use go_mivia.Text.{contains_text}
use go_mivia.WorkPlan.TaskStatus.{planned}
use go_mivia.WorkPlan.PlanStatus.{PlanStatus}
use go_mivia.WorkPlan.Model.{WorkTask, WorkPlanStatusChange}
use go_mivia.WorkPlan.Transition.Finish.{IsSound}
use go_mivia.WorkPlan.Memory as Plans
use go_mivia.WorkPlan.Memory.{pair_key}
use go_mivia.WorkPlan.Store.{found_task}
use go_mivia.WorkPlan.Service.{World}
use go_mivia.WorkPlan.Service.Keeps.{Sound}
use go_mivia.WorkPlan.Service.Move.{update_work_task_status}
use go_mivia.WorkPlan.Service.Invariant.{update_work_task_status-Sound}
use go_mivia.WorkPlan.Service.Runs.{Request}
use go_mivia.WorkPlan.Tests.{test_plan, test_task, test_input}
use go_mivia.WorkPlan.Tests.Requests.{clock}
use go_mivia.Chain.Model.{Config, ChainRun, StartInput, stage_completed, chain_blocked}
use go_mivia.Chain.Service.{WorkflowApi, Finalizer, WorkflowCompileResult}
use go_mivia.Chain.System.{
  Parts, SystemRequest, plan_request, start_chain, retry_draft, serve_requests,
}
use go_mivia.Chain.System.Sound.{AreHarmless, serve_requests-Sound}
use go_mivia.Chain.System.Both.{
  Memories, plan_memory, plan_memory-IsLawful, memory_parts, memory_parts-AreHarmless,
}
use go_mivia.Chain.Tests.{two_stages, no_engine, stage_run, run_of}

-- The first stage compiles to a plan with a task, the second to none.
abbrev compiled_as : String → WorkflowCompileResult
compiled_as title =
    if contains_text title "/ plan"
    then record {
      work_plan_id = "plan_1";
      work_task_ids = "task_1" ∷ [];
      reviewer_task_ids = [];
      automation_ids = [];
    }
    else record {
      work_plan_id = "";
      work_task_ids = [];
      reviewer_task_ids = [];
      automation_ids = [];
    }

abbrev test_workflows : WorkflowApi Memories
test_workflows = record {
  list_workflows = λ f. pure ("w1" ∷ []);
  compile_workflow = λ i. pure (compiled_as i.title_override);
}

abbrev test_finalizer : Finalizer Memories
test_finalizer input = pure (record {
  commit_ref = "commit";
  push_ref = "push";
  pull_request_ref = "pr_1";
  evidence_refs = [];
  no_changes = false;
  skipped = false;
})

-- An automation that releases another task.
unfoldable pub releases : WorkPlanStatusChange → Exec (World Memories) (Unit {0})
releases change =
    update_work_task_status plan_memory clock
      (record (test_input "") { project_id = change.project_id; task_id = "task_2" }) "ready"
    >> pure tt

abbrev test_configs : List Config
test_configs = record two_stages { project_id = "p1" } ∷ []

abbrev test_parts : Parts Memories
test_parts =
    memory_parts test_workflows (some test_finalizer) test_configs no_engine (some releases)

test_parts-AreHarmless : AreHarmless test_parts
unfolding releases
test_parts-AreHarmless =
    memory_parts-AreHarmless test_workflows (some test_finalizer) test_configs no_engine
      (some releases) (λ f. Keeps-pure _) (λ i. Keeps-pure _) (λ input. Keeps-pure _)
      λ change.
        Keeps-bind _ _
          (update_work_task_status-Sound plan_memory plan_memory-IsLawful clock _ "ready")
          λ _. Keeps-pure tt

abbrev pub second_task : WorkTask
second_task = record (test_task planned "") { id = "task_2"; task_ref = "ref_2" }

-- A run whose draft failed.
abbrev pub undrafted : ChainRun
undrafted = record (run_of (stage_run "build" stage_completed "plan_1" ∷ []) ("plan_1" ∷ [])) {
  id = "r2";
  project_id = "p1";
  status = chain_blocked;
  git_ops_ready = true;
}

abbrev first_world : World Memories
first_world = record {
  db = (
    record {
      plans = (pair_key "p1" "plan_1", record test_plan { status = PlanStatus.planned }) ∷ [];
      plan_refs = [];
      tasks =
          (pair_key "p1" "task_1", test_task planned "")
          ∷ (pair_key "p1" "task_2", second_task)
          ∷ [];
      task_refs = [];
      attachments = [];
    },
    record { runs = (("p1", "r2"), undrafted) ∷ []; plan_id = [] },
  );
  readings = 0;
}

planned-IsSound :
    (id ref : String) → IsSound (record (test_task planned "") { id = id; task_ref = ref })
planned-IsSound id ref = record {
  done_verified = λ e. cc;
  done_reviewed = λ e. cc;
  ready_free = λ e. cc;
  unblocked_clear = λ e. refl;
  unblocked_by_none = λ e. refl;
}

the_tasks :
    (p i : String) (x : WorkTask)
    → found_task plan_memory p i first_world.db ≡ ok x
    → (test_task planned "" ≡ x) ⊎ (second_task ≡ x)
unfolding Plans.get_work_task Plans.lookup
the_tasks p i x e = ground (arith, e)

first_world-Sound : Sound plan_memory first_world
first_world-Sound = record {
  at = λ p i x e. elim (the_tasks p i x e) [
    | inl same ↦ subst IsSound same (planned-IsSound "task_1" "ref_1")
    | inr same ↦ subst IsSound same (planned-IsSound "task_2" "ref_2")
  ];
}

abbrev test_start : StartInput
test_start = record {
  project_id = "p1";
  chain_ref = "c";
  input_text = "x";
  created_by_run_id = "";
  trace_id = "";
  dry_run = false;
}

-- A chain is started, its task is claimed, its plan is done, and another chain's draft is made.
abbrev system_requests : List SystemRequest
system_requests =
    start_chain test_start
    ∷ plan_request (Request.claim (test_input "run_1"))
    ∷ plan_request (
        Request.update_plan (record {
          project_id = "p1";
          plan_id = "plan_1";
          status = "done";
          safe_next_action = "";
          resume_summary = "";
          outcome = "";
          current_task_id = "";
          run_id = "";
          trace_id = "";
        }))
    ∷ retry_draft "p1" "r2"
    ∷ []

abbrev pub last_world : World Memories
last_world = serve_requests test_parts clock 2 system_requests first_world

serve_requests-Sound_example : Sound plan_memory last_world
serve_requests-Sound_example =
    serve_requests-Sound test_parts plan_memory-IsLawful clock test_parts-AreHarmless 2
      system_requests first_world first_world-Sound
