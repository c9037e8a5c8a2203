-- ===== src/WorkPlan/Memory.antt =====
-- internal/projectworkplan/store/memory.go: the store in memory. A Go map is an association list whose
-- order stands for the order in which a loop over the map meets the entries. A record is a value, so
-- the copies that `cloneTask` makes are the records themselves. The mutex makes each operation one step.
pub mod Lookup
pub mod Keys
pub mod Laws
use Prim.Native.Char.{nul}
use Prim.Native.String.{◌∷◌}
use go_mivia.Base.{
  ℕ, String, Bool, true, false, not, ◌&&◌, ◌||◌, Option, none, some, List, [], ◌∷◌, ◌++◌, nat_eq,
  string_eq, ◌==◌, ◌!=◌, ltb, keep_if, map, if◌then◌else◌,
}
use go_mivia.Base.Result.{ok, err, not_found, duplicate}
use go_mivia.Base.Exec.{Exec}
use go_mivia.Base.Sort.{sort_by}
use go_mivia.Text.{◌⧺◌}
use go_mivia.Text.Order.{str_ltb}
use go_mivia.WorkPlan.TaskStatus.{status_text}
use go_mivia.WorkPlan.PlanStatus.{plan_status_text}
use go_mivia.WorkPlan.Model.{WorkPlan, WorkTask, Attachment, WorkPlanFilter, WorkTaskFilter}
use go_mivia.WorkPlan.Store.{WorkPlanStore}

module _ {ℓ} {V : Type ℓ} where
  unfoldable pub lookup : String → List (String × V) → Option V
  lookup key [] = none
  lookup key (entry ∷ entries) =
      let later = lookup key entries in if entry.0 == key then some entry.1 else later

  -- `m[key] = value`
  unfoldable pub insert : String → V → List (String × V) → List (String × V)
  insert key value [] = (key, value) ∷ []
  insert key value (entry ∷ entries) =
      let later = insert key value entries in
      if entry.0 == key then (key, value) ∷ entries else entry ∷ later

  abbrev values : List (String × V) → List V
  values [] = []
  values ((k, v) ∷ m) = v ∷ values m

pub record MemoryStore : Type 0 where
  pub plans : List (String × WorkPlan)
  pub plan_refs : List (String × String)
  pub tasks : List (String × WorkTask)
  pub task_refs : List (String × String)
  pub attachments : List (String × List Attachment)

unfoldable pub new_memory_store : MemoryStore
new_memory_store = record {
  plans = [];
  plan_refs = [];
  tasks = [];
  task_refs = [];
  attachments = [];
}

-- `a + "\x00" + b`: the keys of plans, of plan references and of tasks
unfoldable pub pair_key : String → String → String
pair_key a b = a ⧺ nul ∷ b

unfoldable pub task_ref_key : String → String → String → String
unfolding pair_key
task_ref_key project_id plan_id task_ref = pair_key project_id (pair_key plan_id task_ref)

unfoldable pub create_work_plan : WorkPlan → Exec MemoryStore WorkPlan
create_work_plan plan s = elim (lookup (pair_key plan.project_id plan.plan_ref) s.plan_refs) [
  | some other ↦ (err duplicate, s)
  | none ↦ (
    ok plan,
    record s {
      plans = insert (pair_key plan.project_id plan.id) plan s.plans;
      plan_refs = insert (pair_key plan.project_id plan.plan_ref) plan.id s.plan_refs;
    },
  )
]

unfoldable pub get_work_plan : String → String → Exec MemoryStore WorkPlan
get_work_plan project_id plan_id s = elim (lookup (pair_key project_id plan_id) s.plans) [
  | none ↦ (err not_found, s)
  | some plan ↦ (ok plan, s)
]

-- The two listings sort by time of creation, then by reference.
unfoldable pub plan_before : WorkPlan → WorkPlan → Bool
plan_before a b =
    if a.created_at == b.created_at
    then str_ltb a.plan_ref b.plan_ref
    else ltb a.created_at b.created_at

unfoldable pub task_before : WorkTask → WorkTask → Bool
task_before a b =
    if a.created_at == b.created_at
    then str_ltb a.task_ref b.task_ref
    else ltb a.created_at b.created_at

unfoldable pub keeps_plan : WorkPlanFilter → WorkPlan → Bool
keeps_plan filter plan =
    plan.project_id == filter.project_id
    && not (filter.status != "" && plan_status_text plan.status != filter.status)
    && not (filter.owner_agent != "" && plan.owner_agent != filter.owner_agent)

unfoldable pub list_work_plans : WorkPlanFilter → Exec MemoryStore (List WorkPlan)
list_work_plans filter s =
    (ok (sort_by plan_before (keep_if (keeps_plan filter) (values s.plans))), s)

unfoldable pub update_work_plan : WorkPlan → Exec MemoryStore WorkPlan
update_work_plan plan s =
    let key = pair_key plan.project_id plan.id in
    elim (lookup key s.plans) [
      | none ↦ (err not_found, s)
      | some old ↦ (ok plan, record s { plans = insert key plan s.plans })
    ]

unfoldable pub create_work_task : WorkTask → Exec MemoryStore WorkTask
create_work_task task s = elim (lookup (pair_key task.project_id task.plan_id) s.plans) [
  | none ↦ (err not_found, s)
  | some plan ↦
      let ref_key = task_ref_key task.project_id task.plan_id task.task_ref in
      elim (lookup ref_key s.task_refs) [
        | some other ↦ (err duplicate, s)
        | none ↦ (
          ok task,
          record s {
            tasks = insert (pair_key task.project_id task.id) task s.tasks;
            task_refs = insert ref_key task.id s.task_refs;
          },
        )
      ]
]

unfoldable pub get_work_task : String → String → Exec MemoryStore WorkTask
get_work_task project_id task_id s = elim (lookup (pair_key project_id task_id) s.tasks) [
  | none ↦ (err not_found, s)
  | some task ↦ (ok task, s)
]

unfoldable pub keeps_task : WorkTaskFilter → WorkTask → Bool
keeps_task filter task =
    task.project_id == filter.project_id
    && not (filter.plan_id != "" && task.plan_id != filter.plan_id)
    && not (filter.status != "" && status_text task.status != filter.status)
    && not (filter.owner_agent != "" && task.owner_agent != filter.owner_agent)
    && not (filter.claimed_by_run_id != "" && task.claimed_by_run_id != filter.claimed_by_run_id)

unfoldable pub list_work_tasks : WorkTaskFilter → Exec MemoryStore (List WorkTask)
list_work_tasks filter s =
    (ok (sort_by task_before (keep_if (keeps_task filter) (values s.tasks))), s)

unfoldable pub update_work_task : WorkTask → Exec MemoryStore WorkTask
update_work_task task s =
    let key = pair_key task.project_id task.id in
    elim (lookup key s.tasks) [
      | none ↦ (err not_found, s)
      | some old ↦ (ok task, record s { tasks = insert key task s.tasks })
    ]

-- What a map of lists reads at a missing key is the empty list.
abbrev pub or_nil : Option (List Attachment) → List Attachment
or_nil none = []
or_nil (some xs) = xs

unfoldable pub create_attachment : Attachment → Exec MemoryStore Attachment
create_attachment attachment s =
    let key = pair_key attachment.project_id attachment.task_id in
    elim (lookup key s.tasks) [
      | none ↦ (err not_found, s)
      | some task ↦ if task.plan_id != attachment.plan_id then (err not_found, s) else (
        ok attachment,
        record s {
          attachments =
              insert key (or_nil (lookup key s.attachments) ++ attachment ∷ []) s.attachments;
        },
      )
    ]

unfoldable pub attachment_before : Attachment → Attachment → Bool
attachment_before a b =
    if a.created_at == b.created_at then str_ltb a.id b.id else ltb a.created_at b.created_at

unfoldable pub list_attachments : String → String → Exec MemoryStore (List Attachment)
list_attachments project_id task_id s =
    let key = pair_key project_id task_id in
    elim (lookup key s.tasks) [
      | none ↦ (err not_found, s)
      | some task ↦ (ok (sort_by attachment_before (or_nil (lookup key s.attachments))), s)
    ]

abbrev pub memory_store : WorkPlanStore MemoryStore
memory_store = record {
  create_work_plan = create_work_plan;
  get_work_plan = get_work_plan;
  list_work_plans = list_work_plans;
  update_work_plan = update_work_plan;
  create_work_task = create_work_task;
  get_work_task = get_work_task;
  list_work_tasks = list_work_tasks;
  update_work_task = update_work_task;
  create_attachment = create_attachment;
  list_attachments = list_attachments;
}
