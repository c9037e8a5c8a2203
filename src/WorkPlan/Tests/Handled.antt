-- ===== src/WorkPlan/Tests/Handled.antt =====
-- A change of a plan's status that a handler answers by a move of a task, and the claim of that task.
use go_mivia.Base.{◌≡◌, refl, subst, String, List, [], ◌∷◌, some, arith}
use go_mivia.Base.Result.{ok}
use go_mivia.Base.Exec.{Exec, pure, ◌>>◌, Keeps-pure, Keeps-bind}
use go_mivia.WorkPlan.TaskStatus.{planned, safe_task_status}
use go_mivia.WorkPlan.PlanStatus.{
  safe_plan_status, validate_plan_transition, allowed_plan, plan_status_eq,
}
use go_mivia.WorkPlan.Model.{WorkTask, WorkPlanStatusChange, UpdateWorkPlanStatusInput}
use go_mivia.WorkPlan.Build.{merge_plan}
use go_mivia.WorkPlan.Transition.Finish.{IsSound}
use go_mivia.WorkPlan.Memory.{MemoryStore, memory_store, lookup, pair_key}
use go_mivia.WorkPlan.Memory
use go_mivia.WorkPlan.Memory.Laws.{memory_store-IsLawful}
use go_mivia.WorkPlan.Store.{found_task}
use go_mivia.WorkPlan.Service.{World}
use go_mivia.WorkPlan.Service.Keeps.{Sound}
use go_mivia.WorkPlan.Service.Plans.{update_work_plan_status, notify, change_of}
use go_mivia.WorkPlan.Service.Move.{update_work_task_status}
use go_mivia.WorkPlan.Service.Invariant.{Harmless, update_work_task_status-Sound}
use go_mivia.WorkPlan.Service.Runs.{Request, serve, serve_all, serve_all-Sound}
use go_mivia.WorkPlan.Tests.{test_task, test_input}
use go_mivia.WorkPlan.Tests.Requests.{moving, clock, world_of, claimed_task}

-- A handler that releases a task of the plan.
unfoldable releases : WorkPlanStatusChange → Exec (World MemoryStore) (Unit {0})
releases change =
    update_work_task_status memory_store clock
      (record (test_input "") { project_id = change.project_id }) "ready"
    >> pure tt

releases-Harmless : Harmless memory_store (some releases)
unfolding releases
releases-Harmless change =
    Keeps-bind _ _
      (update_work_task_status-Sound memory_store memory_store-IsLawful clock _ "ready")
      λ _. Keeps-pure tt

abbrev pause : UpdateWorkPlanStatusInput
pause = record {
  project_id = "p1";
  plan_id = "plan_1";
  status = "blocked";
  safe_next_action = "";
  resume_summary = "";
  outcome = "";
  current_task_id = "";
  run_id = "";
  trace_id = "";
}

abbrev planned_world : World MemoryStore
planned_world = world_of (test_task planned "")

planned_task-IsSound : IsSound (test_task planned "")
planned_task-IsSound = record {
  done_verified = λ e. cc;
  done_reviewed = λ e. cc;
  ready_free = λ e. cc;
  unblocked_clear = λ e. refl;
  unblocked_by_none = λ e. refl;
}

the_task :
    (p i : String) (x : WorkTask)
    → found_task memory_store p i planned_world.db ≡ ok x
    → test_task planned "" ≡ x
unfolding Memory.get_work_task lookup
the_task p i x e = ground (arith, e)

planned_world-Sound : Sound memory_store planned_world
planned_world-Sound = record {
  at = λ p i x e. subst IsSound (the_task p i x e) planned_task-IsSound;
}

-- The plan is blocked, the handler releases its task, and a run claims it.
abbrev requests : List Request
requests = Request.update_plan pause ∷ Request.claim (test_input "run_1") ∷ []

unfoldable pub serving : Unit {0}
unfolding moving serve serve_all releases update_work_plan_status notify change_of merge_plan
    safe_plan_status validate_plan_transition allowed_plan Memory.get_work_plan
    Memory.update_work_plan update_work_task_status safe_task_status pure
serving = tt

abbrev reached : World MemoryStore
reached = serve_all memory_store clock (some releases) requests planned_world

task_is_claimed :
    found_task memory_store "p1" "task_1" reached.db
    ≡ ok (record claimed_task { updated_at = 102; claimed_at = 102 })
unfolding serving
task_is_claimed = refl

serve_all-Sound_example : Sound memory_store reached
serve_all-Sound_example =
    serve_all-Sound memory_store memory_store-IsLawful clock (some releases) releases-Harmless
      requests planned_world planned_world-Sound
