-- ===== src/WorkPlan/Tests/Stories.antt =====
-- Sequences of requests, the choice of a task and the keys of the store, at concrete values.
use go_mivia.Base.{refl, String, List, [], ◌∷◌, some, true, false, string_eq}
use go_mivia.Base.Sort.{insert_by, sort_by}
use go_mivia.WorkPlan.TaskStatus.{
  ready, planned, done, task_status_eq, status_text, safe_task_status, is_terminal_task_status,
}
use go_mivia.WorkPlan.PlanStatus.{is_terminal_plan_status}
use go_mivia.WorkPlan.Model.{WorkTask, GetNextWorkTaskInput}
use go_mivia.WorkPlan.Transition.Finish.{IsSound}
use go_mivia.WorkPlan.Memory.{
  MemoryStore, new_memory_store, memory_store, lookup, insert, pair_key, keeps_task, keeps_plan,
  plan_before, task_before,
}
use go_mivia.WorkPlan.Memory
use go_mivia.WorkPlan.Service.{World}
use go_mivia.WorkPlan.Service.Runs.{Request, serve, serve_all, started_empty-IsSound}
use go_mivia.WorkPlan.Service.{new_id}
use go_mivia.WorkPlan.Service.Plans.{create_work_plan}
use go_mivia.WorkPlan.Service.Tasks.{create_work_task}
use go_mivia.WorkPlan.Build.{build_plan, build_task, task_head, quality_of, first_status, TaskHead}
use go_mivia.WorkPlan.Build.Laws.{new_task-IsSound}
use go_mivia.WorkPlan.Memory.{task_ref_key}
use go_mivia.WorkPlan.Model.{CreateWorkPlanInput, CreateWorkTaskInput}
use go_mivia.WorkPlan.Service.Tasks.{list_tasks, open_plan_ids, open_ids}
use go_mivia.WorkPlan.Service.Next.{
  get_next_work_task, choose, candidates, is_candidate, find_task, is_done_id, is_met, goes_first,
  summarize_tasks, NextResult, summary_of,
}
use go_mivia.WorkPlan.Service.Next.Choice.{Chooses, get_next_work_task-Chooses}
use go_mivia.WorkPlan.Tests.{test_plan, test_task, test_input, test_create}
use go_mivia.WorkPlan.Tests.Requests.{moving, clock, free_world, claimed_task}

-- What requests that create plans and tasks, or ask for the next task, compute with
unfoldable pub creating : Unit {0}
unfolding serve serve_all new_memory_store create_work_plan create_work_task build_plan build_task
    task_head quality_of first_status new_id Memory.create_work_plan Memory.create_work_task
    Memory.get_work_plan task_ref_key safe_task_status
creating = tt

unfoldable pub choosing : Unit {0}
unfolding get_next_work_task choose candidates is_candidate find_task is_done_id is_met goes_first
    summarize_tasks summary_of list_tasks open_plan_ids open_ids sort_by insert_by
    Memory.list_work_tasks Memory.list_work_plans Memory.get_work_plan keeps_task keeps_plan
    plan_before task_before is_terminal_plan_status is_terminal_task_status status_text
choosing = tt

abbrev plan_input : CreateWorkPlanInput
plan_input = record {
  project_id = "p1";
  plan_ref = "ref_1";
  user_request_ref = "req_1";
  title = "Plan";
  goal_summary = "Goal";
  owner_agent = "";
  created_by_run_id = "";
  trace_id = "";
  resume_summary = "";
  isolation_mode = "";
  parallel_group_ref = "";
  workspace_ref = "";
  git_base_ref = "";
  git_branch_ref = "";
  git_worktree_ref = "";
}

-- A plan and a task in it, which is claimed.
abbrev story : List Request
story =
    Request.create_plan plan_input
    ∷ Request.create_task (record test_create {
      plan_id = "work_plan";
      verification_requirement = "go test";
      decomposition_quality = "ready";
    })
    ∷ Request.claim (record (test_input "run_1") { task_id = "work_task" })
    ∷ []

abbrev story_task : WorkTask
story_task = record claimed_task {
  id = "work_task";
  plan_id = "work_plan";
  expected_output = "";
  failure_criteria = "";
  created_at = 102;
  updated_at = 104;
  claimed_at = 104;
}

started_empty-IsSound_example : IsSound story_task
unfolding moving creating
started_empty-IsSound_example = started_empty-IsSound clock story "p1" "work_task" story_task refl

abbrev next_input : GetNextWorkTaskInput
next_input = record {
  project_id = "p1";
  plan_id = "";
  owner_agent = "";
  run_id = "run_1";
  trace_id = "";
  include_claimed_by_me = false;
}

abbrev after_done : WorkTask
after_done = record (test_task ready "") {
  task_ref = "ref_2";
  dependency_task_ids = "task_0" ∷ [];
  created_at = 2;
}

-- A task that is done, one that waits for it, and an older one that waits for a task that is missing.
abbrev waiting_world : World MemoryStore
waiting_world = record free_world {
  db = record free_world.db {
    tasks =
        (pair_key "p1" "task_0", record (test_task done "run_1") { id = "task_0" })
        ∷ (pair_key "p1" "task_1", after_done)
        ∷ (
          pair_key "p1" "task_2",
          record (test_task ready "") { id = "task_2"; dependency_task_ids = "task_9" ∷ [] },
        )
        ∷ [];
  };
}

abbrev answer : NextResult
answer = record {
  counts = record { open_count = 2; blocked_count = 0; claimed_count = 0 };
  choice = some (record {
    task = after_done;
    plan = test_plan;
    dependency_summary = record { task_id = "task_0"; status = "done"; ready = true } ∷ [];
    evidence_refs = [];
    context_pack_refs = [];
    resume_instructions = "resume";
    required_verification = "go test";
  });
}

get_next_work_task-Chooses_example : Chooses memory_store next_input waiting_world answer
unfolding moving choosing
get_next_work_task-Chooses_example =
    get_next_work_task-Chooses memory_store next_input waiting_world answer refl

abbrev project : String
project = "p1"

abbrev item : String
item = "task_1"

abbrev create_input : CreateWorkTaskInput
create_input = record test_create { verification_requirement = "go test" }

abbrev new_draft : WorkTask
new_draft = record (test_task planned "") {
  id = "";
  expected_output = "";
  failure_criteria = "";
  decomposition_quality = "missing_evidence";
  created_at = 0;
  updated_at = 0;
}

abbrev head : TaskHead
head = record {
  task_ref = "ref_1";
  title = "Task";
  description = "Text";
  owner = "";
  run_id = "";
  trace_id = "";
}

new_task-IsSound_example :
    IsSound (record new_draft { id = "id"; status = planned; created_at = 5; updated_at = 5 })
unfolding moving creating
new_task-IsSound_example =
    new_task-IsSound "p1" "plan_1" head create_input new_draft planned "id" 5 refl refl
