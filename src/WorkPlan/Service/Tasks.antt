-- ===== src/WorkPlan/Service/Tasks.antt =====
-- The methods that create, read, list and widen work tasks.
use go_mivia.Base.{
  String, Bool, not, ◌&&◌, List, [], ◌∷◌, string_eq, ◌==◌, ◌!=◌, is_empty, keep_if, contains,
  if◌then◌else◌,
}
use go_mivia.Base.Result
use go_mivia.Base.Result.{err, invalid_input, reject_if}
use go_mivia.Base.Exec.{Exec, pure, lift, ◌>>=◌, ◌>>◌}
use go_mivia.Text.{trim_space}
use go_mivia.WorkPlan.TaskStatus.{is_terminal_task_status, safe_task_status}
use go_mivia.WorkPlan.PlanStatus.{is_terminal_plan_status}
use go_mivia.WorkPlan.Safe.{
  safe_ref, safe_optional_ref, safe_project_object, safe_path_list, safe_resume_instructions,
}
use go_mivia.WorkPlan.Unique.{append_unique, append_all_unique}
use go_mivia.WorkPlan.Model.{
  WorkPlan, WorkTask, WorkTaskFilter, CreateWorkTaskInput, ExpandWorkTaskScopeInput,
}
use go_mivia.WorkPlan.Store.{WorkPlanStore}
use go_mivia.WorkPlan.Transition.{or_keep}
use go_mivia.WorkPlan.Build.{task_head, build_task, first_status}
use go_mivia.WorkPlan.Service.{Env, World, call, now, new_id}

-- The identifiers of the plans that have not ended: the keys of the Go map.
unfoldable pub open_ids : List WorkPlan → List String
open_ids [] = []
open_ids (plan ∷ plans) =
    let rest = open_ids plans in
    if is_terminal_plan_status plan.status then rest else plan.id ∷ rest

unfoldable pub is_open_task : List String → WorkTask → Bool
is_open_task open_plans task =
    contains open_plans task.plan_id && not (is_terminal_task_status task.status)

unfoldable pub expand : WorkTask → List String → String → String → String → WorkTask
expand task files resume run_id trace_id = record task {
  files_to_edit = append_all_unique task.files_to_edit files;
  resume_instructions = if resume == "" then task.resume_instructions else resume;
  agent_run_ids =
      if run_id == "" then task.agent_run_ids else append_unique task.agent_run_ids run_id;
  trace_id = if trace_id == "" then task.trace_id else trace_id;
}

module _ {S : Type 0} (store : WorkPlanStore S) where
  unfoldable pub get_work_task : String → String → Exec (World S) WorkTask
  get_work_task project task = do
    (project_id, task_id) ← lift (safe_project_object project task "task_id")
    call (store.get_work_task project_id task_id)

  -- A status in the filter is validated without white space and compared with it.
  unfoldable pub list_tasks : WorkTaskFilter → Exec (World S) (List WorkTask)
  list_tasks filter = do
    project_id ← lift (safe_ref filter.project_id "project_id")
    plan_id ← lift (or_keep filter.plan_id (λ v. safe_optional_ref v "plan_id") "")
    lift (
        if filter.status != ""
        then Result.◌>>=◌ (safe_task_status filter.status) (λ _. Result.ok tt)
        else Result.ok tt)
    owner ← lift (or_keep filter.owner_agent (λ v. safe_optional_ref v "owner_agent") "")
    run ← lift (or_keep filter.claimed_by_run_id (λ v. safe_optional_ref v "claimed_by_run_id") "")
    call (
        store.list_work_tasks (record filter {
          project_id = project_id;
          plan_id = plan_id;
          owner_agent = owner;
          claimed_by_run_id = run;
        }))

  unfoldable pub open_plan_ids : String → Exec (World S) (List String)
  open_plan_ids project_id = do
    plans ←
        call (
          store.list_work_plans (record { project_id = project_id; status = ""; owner_agent = "" }))
    pure (open_ids plans)

  -- The plans are listed by the project of the request as it was given.
  unfoldable pub list_open_work_tasks : WorkTaskFilter → Exec (World S) (List WorkTask)
  list_open_work_tasks filter = do
    tasks ← list_tasks filter
    open_plans ← open_plan_ids filter.project_id
    pure (keep_if (is_open_task open_plans) tasks)

  unfoldable pub list_mine_work_tasks : WorkTaskFilter → Exec (World S) (List WorkTask)
  list_mine_work_tasks filter =
      if trim_space filter.owner_agent == "" && trim_space filter.claimed_by_run_id == ""
      then lift (err (invalid_input "owner_agent or claimed_by_run_id is required"))
      else list_tasks filter

  unfoldable pub list_blocked_work_tasks : WorkTaskFilter → Exec (World S) (List WorkTask)
  list_blocked_work_tasks filter = list_tasks (record filter { status = "blocked" })

module _ {S : Type 0} (store : WorkPlanStore S) (env : Env) where
  unfoldable pub create_work_task : CreateWorkTaskInput → Exec (World S) WorkTask
  create_work_task input = do
    (project_id, plan_id) ← lift (safe_project_object input.project_id input.plan_id "plan_id")
    call (store.get_work_plan project_id plan_id)
    head ← lift (task_head input)
    draft ← lift (build_task project_id plan_id head input)
    t ← now env
    status ← lift (first_status draft.decomposition_quality input.status)
    id ← new_id env "work_task"
    call (
        store.create_work_task
          (record draft { id = id; status = status; created_at = t; updated_at = t }))

  -- `UpdateWorkTask`, by which internal/projectworkflow writes back a task that it has changed
  unfoldable pub update_work_task : WorkTask → Exec (World S) WorkTask
  update_work_task task = do
    lift (safe_project_object task.project_id task.id "task_id")
    t ← now env
    call (store.update_work_task (record task { updated_at = t }))

  unfoldable pub expand_work_task_scope : ExpandWorkTaskScopeInput → Exec (World S) WorkTask
  expand_work_task_scope input = do
    (project_id, task_id) ← lift (safe_project_object input.project_id input.task_id "task_id")
    files ← lift (safe_path_list input.files_to_edit "files_to_edit")
    lift (reject_if (is_empty files) (invalid_input "files_to_edit is required"))
    resume ← lift (safe_resume_instructions input.resume_instructions "resume_instructions")
    run_id ← lift (safe_optional_ref input.run_id "run_id")
    trace_id ← lift (safe_optional_ref input.trace_id "trace_id")
    task ← call (store.get_work_task project_id task_id)
    t ← now env
    call (
        store.update_work_task
          (record (expand task files resume run_id trace_id) { updated_at = t }))
