-- ===== src/WorkPlan/Store.antt =====
-- The interface `Store` of internal/projectworkplan/service.go: ten operations on a state `S`, and the
-- laws that the service relies on.
use mathlib.Core.List.{Memᴰ}
use go_mivia.Base.{String, ◌≡◌, ◌≢◌, ◌⊎◌, List, All}
use go_mivia.Base.Result.{Error, Result, ok, err}
use go_mivia.Base.Exec.{Exec}
use go_mivia.WorkPlan.Safe.Laws.{AllCodes}
use go_mivia.WorkPlan.Model.{WorkPlan, WorkTask, Attachment, WorkPlanFilter, WorkTaskFilter}

pub record WorkPlanStore (S : Type 0) : Type 0 where
  pub create_work_plan : WorkPlan → Exec S WorkPlan
  pub get_work_plan : String → String → Exec S WorkPlan
  pub list_work_plans : WorkPlanFilter → Exec S (List WorkPlan)
  pub update_work_plan : WorkPlan → Exec S WorkPlan
  pub create_work_task : WorkTask → Exec S WorkTask
  pub get_work_task : String → String → Exec S WorkTask
  pub list_work_tasks : WorkTaskFilter → Exec S (List WorkTask)
  pub update_work_task : WorkTask → Exec S WorkTask
  pub create_attachment : Attachment → Exec S Attachment
  pub list_attachments : String → String → Exec S (List Attachment)

-- A text without zero bytes, as each validated reference is.
abbrev pub NoNul : String → Type 0
NoNul = AllCodes (λ n. n ≢ 0)

-- Two pairs of a project and an id that differ, where neither project has a zero byte.
abbrev pub Apart : String → String → String → String → Type 0
Apart p i q j = NoNul p × NoNul q × ((p ≡ q) × (i ≡ j) → ⊥)

module _ {S : Type 0} (store : WorkPlanStore S) where
  -- What a read by project and task finds.
  abbrev pub found_task : String → String → S → Result WorkTask
  found_task project task s = (store.get_work_task project task s).0

  abbrev pub found_plan : String → String → S → Result WorkPlan
  found_plan project plan s = (store.get_work_plan project plan s).0

  abbrev pub found_attachments : String → String → S → Result (List Attachment)
  found_attachments project task s = (store.list_attachments project task s).0

  -- Reads change nothing; a write that succeeds is read back and one that fails changes nothing; and
  -- no write changes a task, a plan or a list of attachments under another project or id.
  pub record IsLawful : Type 0 where
    pub get_plan_reads : (p i : String) (s : S) → (store.get_work_plan p i s).1 ≡ s
    pub get_task_reads : (p i : String) (s : S) → (store.get_work_task p i s).1 ≡ s
    pub list_plans_reads : (f : WorkPlanFilter) (s : S) → (store.list_work_plans f s).1 ≡ s
    pub list_tasks_reads : (f : WorkTaskFilter) (s : S) → (store.list_work_tasks f s).1 ≡ s
    pub list_attachments_reads : (p i : String) (s : S) → (store.list_attachments p i s).1 ≡ s
    pub update_task_ok :
        (t : WorkTask) (s : S) {u : WorkTask}
        → (store.update_work_task t s).0 ≡ ok u
        → (u ≡ t) × (found_task t.project_id t.id (store.update_work_task t s).1 ≡ ok t)
    pub update_task_known :
        (t : WorkTask) (s : S) {x : WorkTask}
        → found_task t.project_id t.id s ≡ ok x
        → (store.update_work_task t s).0 ≡ ok t
    pub update_task_err :
        (t : WorkTask) (s : S) {e : Error}
        → (store.update_work_task t s).0 ≡ err e
        → (store.update_work_task t s).1 ≡ s
    pub update_task_frame :
        (t : WorkTask) (s : S) (p i : String) (x : WorkTask)
        → found_task p i (store.update_work_task t s).1 ≡ ok x
        → (x ≡ t) ⊎ (found_task p i s ≡ ok x)
    pub create_task_frame :
        (t : WorkTask) (s : S) (p i : String) (x : WorkTask)
        → found_task p i (store.create_work_task t s).1 ≡ ok x
        → (x ≡ t) ⊎ (found_task p i s ≡ ok x)
    pub create_attachment_frame :
        (a : Attachment) (s : S) (p i : String)
        → found_task p i (store.create_attachment a s).1 ≡ found_task p i s
    pub create_plan_frame :
        (q : WorkPlan) (s : S) (p i : String)
        → found_task p i (store.create_work_plan q s).1 ≡ found_task p i s
    pub update_plan_frame :
        (q : WorkPlan) (s : S) (p i : String)
        → found_task p i (store.update_work_plan q s).1 ≡ found_task p i s
    pub update_plan_ok :
        (q : WorkPlan) (s : S) {u : WorkPlan}
        → (store.update_work_plan q s).0 ≡ ok u
        → (u ≡ q) × (found_plan q.project_id q.id (store.update_work_plan q s).1 ≡ ok q)
    pub create_task_ok :
        (t : WorkTask) (s : S) {u : WorkTask}
        → (store.create_work_task t s).0 ≡ ok u
        → (u ≡ t) × (found_task t.project_id t.id (store.create_work_task t s).1 ≡ ok t)
    pub create_plan_ok :
        (q : WorkPlan) (s : S) {u : WorkPlan}
        → (store.create_work_plan q s).0 ≡ ok u
        → (u ≡ q) × (found_plan q.project_id q.id (store.create_work_plan q s).1 ≡ ok q)
    pub create_attachment_ok :
        (a : Attachment) (s : S) {u : Attachment}
        → (store.create_attachment a s).0 ≡ ok u
        → (u ≡ a)
          × (listed : List Attachment) × (found_attachments a.project_id a.task_id
                (store.create_attachment a s).1
              ≡ ok listed)
          × Memᴰ a listed
    pub create_attachment_keeps :
        (a : Attachment) (s : S) (p i : String) {old new : List Attachment}
        → found_attachments p i s ≡ ok old
        → found_attachments p i (store.create_attachment a s).1 ≡ ok new
        → All (λ x. Memᴰ x new) old
    pub create_task_err :
        (t : WorkTask) (s : S) {e : Error}
        → (store.create_work_task t s).0 ≡ err e
        → (store.create_work_task t s).1 ≡ s
    pub create_plan_err :
        (q : WorkPlan) (s : S) {e : Error}
        → (store.create_work_plan q s).0 ≡ err e
        → (store.create_work_plan q s).1 ≡ s
    pub update_plan_err :
        (q : WorkPlan) (s : S) {e : Error}
        → (store.update_work_plan q s).0 ≡ err e
        → (store.update_work_plan q s).1 ≡ s
    pub create_attachment_err :
        (a : Attachment) (s : S) {e : Error}
        → (store.create_attachment a s).0 ≡ err e
        → (store.create_attachment a s).1 ≡ s
    pub update_task_others :
        (t : WorkTask) (s : S) (p i : String)
        → Apart t.project_id t.id p i
        → found_task p i (store.update_work_task t s).1 ≡ found_task p i s
    pub create_task_others :
        (t : WorkTask) (s : S) (p i : String)
        → Apart t.project_id t.id p i
        → found_task p i (store.create_work_task t s).1 ≡ found_task p i s
    pub update_plan_others :
        (q : WorkPlan) (s : S) (p i : String)
        → Apart q.project_id q.id p i
        → found_plan p i (store.update_work_plan q s).1 ≡ found_plan p i s
    pub create_plan_others :
        (q : WorkPlan) (s : S) (p i : String)
        → Apart q.project_id q.id p i
        → found_plan p i (store.create_work_plan q s).1 ≡ found_plan p i s
    pub create_attachment_others :
        (a : Attachment) (s : S) (p i : String)
        → Apart a.project_id a.task_id p i
        → found_attachments p i (store.create_attachment a s).1 ≡ found_attachments p i s
    pub update_task_plans :
        (t : WorkTask) (s : S) (p i : String)
        → found_plan p i (store.update_work_task t s).1 ≡ found_plan p i s
    pub create_task_plans :
        (t : WorkTask) (s : S) (p i : String)
        → found_plan p i (store.create_work_task t s).1 ≡ found_plan p i s
    pub create_attachment_plans :
        (a : Attachment) (s : S) (p i : String)
        → found_plan p i (store.create_attachment a s).1 ≡ found_plan p i s
    pub update_task_attachments :
        (t : WorkTask) (s : S) (p i : String) {listed : List Attachment}
        → found_attachments p i s ≡ ok listed
        → found_attachments p i (store.update_work_task t s).1 ≡ ok listed
    pub create_task_attachments :
        (t : WorkTask) (s : S) (p i : String) {listed : List Attachment}
        → found_attachments p i s ≡ ok listed
        → found_attachments p i (store.create_work_task t s).1 ≡ ok listed
    pub update_plan_attachments :
        (q : WorkPlan) (s : S) (p i : String)
        → found_attachments p i (store.update_work_plan q s).1 ≡ found_attachments p i s
    pub create_plan_attachments :
        (q : WorkPlan) (s : S) (p i : String)
        → found_attachments p i (store.create_work_plan q s).1 ≡ found_attachments p i s
