-- ===== src/WorkPlan/Service/Invariant.antt =====
-- The soundness of the stored tasks through the methods of the service, over a lawful store. Left out
-- is the raw write `UpdateWorkTask`, whose caller is trusted with the whole record.
use go_mivia.Base.{ℕ, String, ◌!=◌, none, some, not, ◌&&◌, List, is_empty, string_eq, ◌==◌}
use go_mivia.Base.Exec.{Keeps, Keeps-pure, Keeps-lift, Keeps-if, Keeps-bind, Keeps-bind_lift}
use go_mivia.WorkPlan.TaskStatus.{TaskStatus, done, task_status_eq}
use go_mivia.WorkPlan.Model.{
  WorkTask, WorkTaskActionInput, Kind, AttachInput, CreateWorkTaskInput, ExpandWorkTaskScopeInput,
  CreateWorkPlanInput, UpdateWorkPlanStatusInput, WorkPlan, WorkPlanStatusChange,
}
use go_mivia.WorkPlan.Service.Plans.{
  create_work_plan, update_work_plan_status, notify, Handler, change_of,
}
use go_mivia.WorkPlan.PlanStatus.{plan_status_eq}
use go_mivia.WorkPlan.Store.{WorkPlanStore, IsLawful}
use go_mivia.WorkPlan.Safe.Laws.{safe_ref-IsSafeRef}
use go_mivia.WorkPlan.References.Laws.{with_ref-IsSound}
use go_mivia.WorkPlan.Build.Laws.{new_task-IsSound}
use go_mivia.WorkPlan.Service.Attach.{add_attachment_ref, attach}
use go_mivia.WorkPlan.Service.Tasks.{expand, create_work_task, expand_work_task_scope}
use go_mivia.WorkPlan.Transition.{finish}
use go_mivia.WorkPlan.Transition.Finish.{IsSound, finish-IsSound}
use go_mivia.WorkPlan.Service.{Env}
use go_mivia.WorkPlan.Service.Keeps.{
  Sound, Keeps-read, Keeps-now, Keeps-new_id, Keeps-update, Keeps-create, Keeps-create_attachment,
  Keeps-get, Keeps-plan,
}
use go_mivia.WorkPlan.Service.Move.{
  change_task, transition_task, check_reviewed, validate_independent_review_refs,
  update_work_task_status,
}

retimed : (task : WorkTask) (t : ℕ) → IsSound task → IsSound (record task { updated_at = t })
retimed task t sound = record {
  done_verified = sound.done_verified;
  done_reviewed = sound.done_reviewed;
  ready_free = sound.ready_free;
  unblocked_clear = sound.unblocked_clear;
  unblocked_by_none = sound.unblocked_by_none;
}

expand-IsSound :
    (task : WorkTask) (files : List String) (resume run_id trace_id : String)
    → IsSound task
    → IsSound (expand task files resume run_id trace_id)
unfolding expand
expand-IsSound task files resume run_id trace_id sound = record {
  done_verified = sound.done_verified;
  done_reviewed = sound.done_reviewed;
  ready_free = sound.ready_free;
  unblocked_clear = sound.unblocked_clear;
  unblocked_by_none = sound.unblocked_by_none;
}

module _ {S : Type 0} (store : WorkPlanStore S) where
  -- A handler of status changes that keeps the stored tasks sound.
  abbrev pub Harmless : Handler S → Type 0
  Harmless none = Unit
  Harmless (some h) = (change : WorkPlanStatusChange) → Keeps (Sound store) (h change)

module _ {S : Type 0} (store : WorkPlanStore S) (law : IsLawful store) (env : Env) where
  reviews-Keeps : (t : WorkTask) → Keeps (Sound store) (validate_independent_review_refs store t)
  unfolding validate_independent_review_refs
  reviews-Keeps t =
      Keeps-bind _ _
        (Keeps-read store law (store.list_attachments t.project_id t.id)
          (law.list_attachments_reads t.project_id t.id))
        (λ a. Keeps-lift _)

  check_reviewed-Keeps :
      (t : WorkTask) (next : TaskStatus) → Keeps (Sound store) (check_reviewed store t next)
  unfolding check_reviewed
  check_reviewed-Keeps t next =
      Keeps-if (next == done && not (is_empty t.review_result_refs)) _ _ (λ _. reviews-Keeps t)
        (λ _. Keeps-pure tt)

  change_task-Keeps :
      (task : WorkTask) (input : WorkTaskActionInput) (next : TaskStatus)
      → Keeps (Sound store) (change_task store env task input next)
  unfolding change_task
  change_task-Keeps task input next = Keeps-bind_lift _ _ λ merged _.
      Keeps-bind _ _ (Keeps-now store law env) λ t. Keeps-bind_lift _ _ λ _ checked.
        Keeps-bind _ _ (check_reviewed-Keeps (finish merged next t) next)
          λ _. Keeps-update store law _ (finish-IsSound merged next t checked)

  -- However a task is moved, by whatever request and whether it succeeds or fails, all stored tasks
  -- stay sound: done means verified and reviewed, ready means held by no run.
  pub transition_task-Sound :
      (input : WorkTaskActionInput) (next : TaskStatus)
      → Keeps (Sound store) (transition_task store env input next)
  unfolding transition_task
  transition_task-Sound input next = Keeps-bind_lift _ _ λ ids _.
      Keeps-get store law ids.0 ids.1 _ λ task _. Keeps-bind_lift _ _ λ go_on _.
        Keeps-if go_on _ _ (λ _. change_task-Keeps task input next) (λ _. Keeps-pure task)

  pub update_work_task_status-Sound :
      (input : WorkTaskActionInput) (status : String)
      → Keeps (Sound store) (update_work_task_status store env input status)
  unfolding update_work_task_status
  update_work_task_status-Sound input status =
      Keeps-bind_lift _ _ λ next _. transition_task-Sound input next

  pub attach-Sound :
      (kind : Kind) (input : AttachInput) → Keeps (Sound store) (attach store env kind input)
  unfolding attach add_attachment_ref
  attach-Sound kind input = Keeps-bind_lift _ _ λ ids _.
      Keeps-get store law ids.0 ids.1 _ λ task sound. Keeps-bind_lift _ _ λ ref safe.
        Keeps-bind_lift _ _ λ run_id _. Keeps-bind_lift _ _ λ _ _. Keeps-bind_lift _ _ λ trace_id _.
          Keeps-bind_lift _ _ λ note _. Keeps-bind _ _ (Keeps-new_id store law env _) λ id.
            Keeps-bind _ _ (Keeps-now store law env) λ t.
              Keeps-bind _ _ (Keeps-create_attachment store law _) λ created.
                Keeps-bind _ _
                  (Keeps-bind_lift _ _ λ added e. Keeps-bind _ _ (Keeps-now store law env) λ later.
                    Keeps-update store law _ (
                      retimed added later (
                        with_ref-IsSound task kind ref (safe_ref-IsSafeRef _ _ safe).present sound
                          e)))
                  (λ _. Keeps-pure created)

  pub expand-Sound :
      (input : ExpandWorkTaskScopeInput)
      → Keeps (Sound store) (expand_work_task_scope store env input)
  unfolding expand_work_task_scope
  expand-Sound input = Keeps-bind_lift _ _ λ ids _. Keeps-bind_lift _ _ λ files _.
      Keeps-bind_lift _ _ λ _ _. Keeps-bind_lift _ _ λ resume _. Keeps-bind_lift _ _ λ run_id _.
        Keeps-bind_lift _ _ λ trace_id _. Keeps-get store law ids.0 ids.1 _ λ task sound.
          Keeps-bind _ _ (Keeps-now store law env) λ t.
            Keeps-update store law _
              (retimed _ t (expand-IsSound task files resume run_id trace_id sound))

  pub create-Sound :
      (input : CreateWorkTaskInput) → Keeps (Sound store) (create_work_task store env input)
  unfolding create_work_task
  create-Sound input = Keeps-bind_lift _ _ λ ids _.
      Keeps-bind _ _ (Keeps-read store law _ (law.get_plan_reads ids.0 ids.1)) λ plan.
        Keeps-bind_lift _ _ λ head _. Keeps-bind_lift _ _ λ draft built.
          Keeps-bind _ _ (Keeps-now store law env) λ t. Keeps-bind_lift _ _ λ status first.
            Keeps-bind _ _ (Keeps-new_id store law env _) λ id.
              Keeps-create store law _
                (new_task-IsSound ids.0 ids.1 head input draft status id t built first)

  pub create_plan-Sound :
      (input : CreateWorkPlanInput) → Keeps (Sound store) (create_work_plan store env input)
  unfolding create_work_plan
  create_plan-Sound input = Keeps-bind_lift _ _ λ draft _.
      Keeps-bind _ _ (Keeps-now store law env) λ t.
        Keeps-bind _ _ (Keeps-new_id store law env _)
          λ id. Keeps-plan store law _ (law.create_plan_frame _)

  notify-Sound :
      (handler : Handler S) (old updated : WorkPlan)
      → Harmless store handler
      → Keeps (Sound store) (notify store env handler old updated)
  unfolding notify
  notify-Sound none old updated harmless = Keeps-pure _
  notify-Sound (some h) old updated harmless =
      Keeps-bind _ _
        (Keeps-if (old.status != updated.status) _ _ (λ _. harmless (change_of old updated))
          (λ _. Keeps-pure tt))
        λ _. Keeps-pure updated

  pub update_plan-Sound :
      (handler : Handler S) (input : UpdateWorkPlanStatusInput)
      → Harmless store handler
      → Keeps (Sound store) (update_work_plan_status store env handler input)
  unfolding update_work_plan_status
  update_plan-Sound handler input harmless = Keeps-bind_lift _ _ λ ids _.
      Keeps-bind_lift _ _ λ next _.
        Keeps-bind _ _ (Keeps-read store law _ (law.get_plan_reads ids.0 ids.1)) λ plan.
          Keeps-bind_lift _ _ λ _ _. Keeps-bind_lift _ _ λ merged _.
            Keeps-bind _ _ (Keeps-now store law env) λ t.
              Keeps-bind _ _ (Keeps-plan store law _ (law.update_plan_frame _))
                λ updated. notify-Sound handler plan updated harmless
