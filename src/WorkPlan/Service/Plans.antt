-- ===== src/WorkPlan/Service/Plans.antt =====
-- The methods on work plans.
use go_mivia.Base.{String, Option, none, some, List, string_eq, ◌!=◌, if◌then◌else◌}
use go_mivia.Base.Result
use go_mivia.Base.Exec.{Exec, pure, lift, ◌>>=◌, ◌>>◌}
use go_mivia.WorkPlan.PlanStatus.{plan_status_eq, safe_plan_status, validate_plan_transition}
use go_mivia.WorkPlan.Safe.{safe_ref, safe_optional_ref, safe_project_object}
use go_mivia.WorkPlan.Model.{
  WorkPlan, CreateWorkPlanInput, WorkPlanFilter, UpdateWorkPlanStatusInput, WorkPlanStatusChange,
}
use go_mivia.WorkPlan.Store.{WorkPlanStore}
use go_mivia.WorkPlan.Transition.{or_keep}
use go_mivia.WorkPlan.Build.{build_plan, merge_plan}
use go_mivia.WorkPlan.Service.{Env, World, call, now, new_id}

module _ {S : Type 0} (store : WorkPlanStore S) where
  unfoldable pub get_work_plan : String → String → Exec (World S) WorkPlan
  get_work_plan project plan = do
    (project_id, plan_id) ← lift (safe_project_object project plan "plan_id")
    call (store.get_work_plan project_id plan_id)

  unfoldable pub resume_work_plan : String → String → Exec (World S) WorkPlan
  unfolding get_work_plan
  resume_work_plan project plan = get_work_plan project plan

  -- A status in the filter is validated without white space and compared with it.
  unfoldable pub list_work_plans : WorkPlanFilter → Exec (World S) (List WorkPlan)
  list_work_plans filter = do
    project_id ← lift (safe_ref filter.project_id "project_id")
    lift (
        if filter.status != ""
        then Result.◌>>=◌ (safe_plan_status filter.status) (λ _. Result.ok tt)
        else Result.ok tt)
    owner ← lift (or_keep filter.owner_agent (λ v. safe_optional_ref v "owner_agent") "")
    call (store.list_work_plans (record filter { project_id = project_id; owner_agent = owner }))

unfoldable pub change_of : WorkPlan → WorkPlan → WorkPlanStatusChange
change_of old updated = record {
  project_id = updated.project_id;
  plan_id = updated.id;
  plan_ref = updated.plan_ref;
  old_status = old.status;
  new_status = updated.status;
  owner_agent = updated.owner_agent;
  changed_at = updated.updated_at;
}

-- What another component does when a plan's status has changed.
abbrev pub Handler : Type 0 → Type 0
Handler S = Option (WorkPlanStatusChange → Exec (World S) (Unit {0}))

module _ {S : Type 0} (store : WorkPlanStore S) (env : Env) where
  unfoldable pub create_work_plan : CreateWorkPlanInput → Exec (World S) WorkPlan
  create_work_plan input = do
    draft ← lift (build_plan input)
    t ← now env
    id ← new_id env "work_plan"
    call (store.create_work_plan (record draft { id = id; created_at = t; updated_at = t }))

  unfoldable pub notify : Handler S → WorkPlan → WorkPlan → Exec (World S) WorkPlan
  notify none old updated = pure updated
  notify (some handler) old updated = do
    if old.status != updated.status then handler (change_of old updated) else pure tt
    pure updated

  unfoldable pub update_work_plan_status :
      Handler S → UpdateWorkPlanStatusInput → Exec (World S) WorkPlan
  update_work_plan_status handler input = do
    (project_id, plan_id) ← lift (safe_project_object input.project_id input.plan_id "plan_id")
    next ← lift (safe_plan_status input.status)
    plan ← call (store.get_work_plan project_id plan_id)
    lift (validate_plan_transition plan.status next)
    merged ← lift (merge_plan plan input)
    t ← now env
    updated ← call (store.update_work_plan (record merged { status = next; updated_at = t }))
    notify handler plan updated
