-- ===== src/WorkPlan/Service/Next.antt =====
-- `GetNextWorkTask`: which task a run should take up.
pub mod Order
pub mod Takeable
pub mod Choice
use go_mivia.Base.{
  ℕ, suc, ◌+◌, String, Bool, true, false, not, ◌&&◌, ◌||◌, Option, none, some, List, [], ◌∷◌, map,
  nat_eq, string_eq, ◌==◌, ◌!=◌, ltb, length, is_empty, contains, all, keep_if, if◌then◌else◌,
}
use go_mivia.Base.Exec.{Exec, pure, lift, ◌>>=◌, ◌>>◌}
use go_mivia.Base.Sort.{sort_by}
use go_mivia.Text.Order.{str_ltb}
use go_mivia.WorkPlan.TaskStatus.{
  TaskStatus, ready, claimed, blocked, done, task_status_eq, status_text, is_terminal_task_status,
}
use go_mivia.WorkPlan.Safe.{safe_ref, safe_optional_ref}
use go_mivia.WorkPlan.Model.{WorkPlan, WorkTask, GetNextWorkTaskInput, DependencySummary}
use go_mivia.WorkPlan.Store.{WorkPlanStore}
use go_mivia.WorkPlan.Service.{World, call}
use go_mivia.WorkPlan.Service.Tasks.{list_tasks, open_plan_ids}

pub record Counts : Type 0 where
  pub open_count : ℕ
  pub blocked_count : ℕ
  pub claimed_count : ℕ

abbrev pub bump : Bool → ℕ → ℕ
bump true n = suc n
bump false n = n

-- `summarizeTasks`, whose loop adds to three counters
unfoldable pub summarize_tasks : List WorkTask → Counts
summarize_tasks [] = record { open_count = 0; blocked_count = 0; claimed_count = 0 }
summarize_tasks (task ∷ tasks) =
    let is_open = not (is_terminal_task_status task.status) in
    let rest = summarize_tasks tasks in
    record {
      open_count = bump is_open rest.open_count;
      blocked_count = bump (task.status == blocked) rest.blocked_count;
      claimed_count =
          bump (is_open && (task.status == claimed || task.claimed_by_run_id != ""))
            rest.claimed_count;
    }

-- The map `byID`, in which the last of two tasks with one id stays.
unfoldable pub find_task : String → List WorkTask → Option WorkTask
find_task id [] = none
find_task id (task ∷ tasks) = elim (find_task id tasks) [
  | some later ↦ some later
  | none ↦ if task.id == id then some task else none
]

-- The map `done`, which any task with this id that is done sets.
unfoldable pub is_done_id : String → List WorkTask → Bool
is_done_id id [] = false
is_done_id id (task ∷ tasks) = task.id == id && task.status == done || is_done_id id tasks

unfoldable pub is_met : List WorkTask → String → Bool
is_met tasks dep = elim (find_task dep tasks) [
  | none ↦ false
  | some task ↦ not (task.status == blocked) && is_done_id dep tasks
]

abbrev pub is_mine : Bool → String → WorkTask → Bool
is_mine include_claimed_by_me run_id task =
    include_claimed_by_me && task.claimed_by_run_id == run_id

-- The tests of the loop over the tasks: no `continue`, and every dependency done.
unfoldable pub is_candidate : List WorkTask → String → String → Bool → WorkTask → Bool
is_candidate tasks owner_agent run_id include_mine task =
    not (
      task.status != ready
      || task.decomposition_quality != "ready"
      || task.verification_requirement == "")
    && not (owner_agent != "" && task.owner_agent != "" && task.owner_agent != owner_agent)
    && not (task.claimed_by_run_id != "" && not (is_mine include_mine run_id task))
    && all (is_met tasks) task.dependency_task_ids

-- The order of the candidates.
unfoldable pub goes_first : String → WorkTask → WorkTask → Bool
goes_first owner_agent a b =
    if owner_agent != "" && a.owner_agent != b.owner_agent
    then a.owner_agent == owner_agent
    else if length a.dependency_task_ids != length b.dependency_task_ids
    then ltb (length a.dependency_task_ids) (length b.dependency_task_ids)
    else if a.created_at != b.created_at
    then ltb a.created_at b.created_at
    else str_ltb a.task_ref b.task_ref

unfoldable pub candidates : List WorkTask → String → String → Bool → List WorkTask
candidates tasks owner_agent run_id include_mine =
    sort_by (goes_first owner_agent)
      (keep_if (is_candidate tasks owner_agent run_id include_mine) tasks)

-- The status of a dependency that is not found is the text of an empty record.
unfoldable pub summary_of : List WorkTask → String → DependencySummary
summary_of tasks dep = elim (find_task dep tasks) [
  | none ↦ record { task_id = dep; status = ""; ready = false }
  | some task ↦ record {
    task_id = dep;
    status = status_text task.status;
    ready = task.status == done;
  }
]

pub record Chosen : Type 0 where
  pub task : WorkTask
  pub plan : WorkPlan
  pub dependency_summary : List DependencySummary
  pub evidence_refs : List String
  pub context_pack_refs : List String
  pub resume_instructions : String
  pub required_verification : String

-- `GetNextWorkTaskResult`: `choice` is none where `Found` is false, with the reason of the code.
pub record NextResult : Type 0 where
  pub counts : Counts
  pub choice : Option Chosen

abbrev pub in_open_plan : List String → WorkTask → Bool
in_open_plan open_plans task = contains open_plans task.plan_id

module _ {S : Type 0} (store : WorkPlanStore S) where
  unfoldable pub choose : List WorkTask → List WorkTask → Exec (World S) NextResult
  choose active [] = pure (record { counts = summarize_tasks active; choice = none })
  choose active (task ∷ rest) = do
    plan ← call (store.get_work_plan task.project_id task.plan_id)
    pure (record {
      counts = summarize_tasks active;
      choice = some (record {
        task = task;
        plan = plan;
        dependency_summary = map (summary_of active) task.dependency_task_ids;
        evidence_refs = task.evidence_refs;
        context_pack_refs = task.context_pack_refs;
        resume_instructions = task.resume_instructions;
        required_verification = task.verification_requirement;
      });
    })

  unfoldable pub get_next_work_task : GetNextWorkTaskInput → Exec (World S) NextResult
  get_next_work_task input = do
    project_id ← lift (safe_ref input.project_id "project_id")
    plan_id ← lift (safe_optional_ref input.plan_id "plan_id")
    owner_agent ← lift (safe_optional_ref input.owner_agent "owner_agent")
    run_id ← lift (safe_optional_ref input.run_id "run_id")
    lift (safe_optional_ref input.trace_id "trace_id")
    tasks ← list_tasks store (record {
      project_id = project_id;
      plan_id = plan_id;
      status = "";
      owner_agent = "";
      claimed_by_run_id = "";
    })
    open_plans ← open_plan_ids store project_id
    let active = keep_if (in_open_plan open_plans) tasks
    choose active (candidates active owner_agent run_id input.include_claimed_by_me)
