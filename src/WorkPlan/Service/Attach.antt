-- ===== src/WorkPlan/Service/Attach.antt =====
-- The methods that attach a reference to a work task.
use go_mivia.Base.{String, ◌&&◌, string_eq, ◌==◌, ◌!=◌}
use go_mivia.Base.Result.{invalid_input, reject_if}
use go_mivia.Base.Exec.{Exec, pure, lift, ◌>>=◌, ◌>>◌}
use go_mivia.WorkPlan.Safe.{safe_ref, safe_optional_ref, safe_optional_text, safe_project_object}
use go_mivia.WorkPlan.Model.{WorkTask, Attachment, AttachInput, Kind, kind_text, is_review}
use go_mivia.WorkPlan.Store.{WorkPlanStore}
use go_mivia.WorkPlan.References.{with_ref}
use go_mivia.WorkPlan.Service.{Env, World, call, now, new_id}

module _ {S : Type 0} (store : WorkPlanStore S) (env : Env) where
  unfoldable pub add_attachment_ref : WorkTask → Kind → String → Exec (World S) WorkTask
  add_attachment_ref task kind ref = do
    added ← lift (with_ref task kind ref)
    t ← now env
    call (store.update_work_task (record added { updated_at = t }))

  unfoldable pub attach : Kind → AttachInput → Exec (World S) Attachment
  attach kind input = do
    (project_id, task_id) ← lift (safe_project_object input.project_id input.task_id "task_id")
    task ← call (store.get_work_task project_id task_id)
    ref ← lift (safe_ref input.ref (kind_text kind))
    run_id ← lift (safe_optional_ref input.attached_by_run_id "attached_by_run_id")
    lift (
        reject_if
          (is_review kind
            && run_id != ""
            && task.claimed_by_run_id != ""
            && run_id == task.claimed_by_run_id)
          (invalid_input "review_result_ref must be attached by an independent run"))
    trace_id ← lift (safe_optional_ref input.trace_id "trace_id")
    note ← lift (safe_optional_text input.note "note" 300)
    id ← new_id env "work_attachment"
    t ← now env
    created ← call (
        store.create_attachment (record {
          id = id;
          project_id = project_id;
          plan_id = task.plan_id;
          task_id = task_id;
          kind = kind;
          ref = ref;
          attached_by_run_id = run_id;
          trace_id = trace_id;
          note = note;
          created_at = t;
        }))
    add_attachment_ref task kind ref
    pure created
