-- ===== src/WorkPlan/Service/Move/Outcome.antt =====
-- What a transition that succeeds has done, over any lawful store.
use go_mivia.Base.{
  ℕ, String, ◌≡◌, refl, sym, subst, ◌∙◌, ap, true, not, ◌&&◌, List, [], arith, is_empty, ◌==◌, All,
  ◌≢◌,
}
use go_mivia.Base.Result.{ok}
use go_mivia.Base.Exec.{lift, Yields, Yields-pure, Yields-if, Yields-bind, Yields-bind_lift}
use go_mivia.WorkPlan.TaskStatus.{
  TaskStatus, ready, done, task_status_eq, status_beq_iff, release_is_stale,
}
use go_mivia.WorkPlan.Model.{WorkTask, Attachment, WorkTaskActionInput}
use go_mivia.WorkPlan.Safe.{safe_project_object}
use go_mivia.WorkPlan.Store.{WorkPlanStore, IsLawful, found_task}
use go_mivia.WorkPlan.Transition.{check_before, finish}
use go_mivia.WorkPlan.Transition.Guards.{Passed, check_before-Passed, check_before-stale}
use go_mivia.WorkPlan.Transition.Merge.{Merged, merge_input-Merged}
use go_mivia.WorkPlan.Transition.Finish.{
  IsSound, IsExplained, finish-IsSound, finish-IsExplained, status-finish,
}
use go_mivia.WorkPlan.Transition.Reviews.{Reviewed, check_reviews-Reviewed}
use go_mivia.WorkPlan.Service.{Env, World, call, now}
use go_mivia.WorkPlan.Service.Move.{
  validate_independent_review_refs, check_reviewed, change_task, transition_task,
}

module _ {S : Type 0} (store : WorkPlanStore S) where
  -- Each review of a task is attached in the store, by another run than the one that holds the task.
  pub record IsReviewed (task : WorkTask) (s : S) : Type 0 where
    pub attachments : List Attachment
    pub listed : (store.list_attachments task.project_id task.id s).0 ≡ ok attachments
    pub all_reviewed : All (Reviewed task.claimed_by_run_id attachments) task.review_result_refs

  -- What a change of the stored task from the state `s` leaves: the result, which is read back from
  -- `s'`, is the merge of the task and the request with the new status, keeps the rules, and when it is
  -- done with reviews, these are independent ones of `s`.
  pub record Changed (task : WorkTask) (input : WorkTaskActionInput) (next : TaskStatus) (s : S)
      (u : WorkTask) (s' : S) : Type 0 where
    pub merged : WorkTask
    pub time : ℕ
    pub merges : Merged task input merged
    pub result : u ≡ finish merged next time
    pub status : u.status ≡ next
    pub sound : IsSound u
    pub explained : IsExplained u
    pub reviewed : next ≡ done → u.review_result_refs ≢ [] → IsReviewed u s
    pub stored : found_task store u.project_id u.id s' ≡ ok u

  -- How a request to move a task succeeds: a stale release returns the stored task, anything else has
  -- passed the tests on the stored task and changed it.
  pub data Moved (input : WorkTaskActionInput) (next : TaskStatus) (s : S) (u : WorkTask) (s' : S)
      : Type 0 where
    stale :
        (project id : String)
        → safe_project_object input.project_id input.task_id "task_id" ≡ ok (project, id)
        → found_task store project id s ≡ ok u
        → next ≡ ready
        → release_is_stale u.status ≡ true
        → s' ≡ s
        → Moved input next s u s'
    changed :
        (project id : String) (task : WorkTask)
        → safe_project_object input.project_id input.task_id "task_id" ≡ ok (project, id)
        → found_task store project id s ≡ ok task
        → Passed task input next
        → Changed task input next s u s'
        → Moved input next s u s'

module _ {S : Type 0} (store : WorkPlanStore S) (law : IsLawful store) (env : Env) where
  reviews_read :
      (task : WorkTask) (w : World S)
      → Yields
          (λ _ v. (v.db ≡ w.db) × IsReviewed store task w.db)
          (validate_independent_review_refs store task)
          w
  unfolding validate_independent_review_refs call lift
  reviews_read task w = Yields-bind _ _ _ λ attachments listed. record {
    at = λ a e. (
      law.list_attachments_reads task.project_id task.id w.db,
      record {
        attachments = attachments;
        listed = listed;
        all_reviewed = check_reviews-Reviewed task.claimed_by_run_id attachments _ e;
      },
    );
  }

  IsReviewed-read :
      (task : WorkTask) (next : TaskStatus) (w : World S)
      → Yields
          (λ _ v.
            (v.db ≡ w.db)
            × (next ≡ done → task.review_result_refs ≢ [] → IsReviewed store task w.db))
          (check_reviewed store task next)
          w
  unfolding check_reviewed
  IsReviewed-read task next w =
      Yields-if (next == done && not (is_empty task.review_result_refs)) _ _ _
        (λ _. record {
          at = λ a e. let (same, rev) = (reviews_read task w).at a e in (same, λ _ _. rev);
        })
        (λ b. Yields-pure _ _ (refl, λ d n. absurd (ground (arith, b, status_beq_iff next done))))

  change_task-Changed :
      (task : WorkTask) (input : WorkTaskActionInput) (next : TaskStatus) (w : World S)
      → Yields
          (λ u v. Changed store task input next w.db u v.db)
          (change_task store env task input next)
          w
  unfolding change_task call now
  change_task-Changed task input next w = Yields-bind_lift _ _ _ λ merged merges.
      Yields-bind _ _ _ λ t _. Yields-bind_lift _ _ _ λ _ checked. Yields-bind _ _ _ λ _ reviewed.
        let moved = finish merged next t in
        let before = (check_reviewed store moved next (now env w).1).1.db in
        record {
          at = λ u e.
              let (same, back) = law.update_task_ok moved _ e in
              record {
                merged = merged;
                time = t;
                merges = merge_input-Merged task input merges;
                result = same;
                status = ap (λ x. x.status) same ∙ status-finish merged next t;
                sound = subst IsSound (sym same) (finish-IsSound merged next t checked);
                explained = subst IsExplained (sym same) (finish-IsExplained merged next t checked);
                reviewed =
                    subst (λ x. next ≡ done → x.review_result_refs ≢ [] → IsReviewed store x w.db)
                      (sym same) ((IsReviewed-read moved next _).at _ reviewed).1;
                stored =
                    subst
                      (λ x.
                        found_task store x.project_id x.id (store.update_work_task moved before).1
                        ≡ ok x)
                      (sym same) back;
              };
        }

  transition_task-Yields :
      (input : WorkTaskActionInput) (next : TaskStatus) (w : World S)
      → Yields (λ u v. Moved store input next w.db u v.db) (transition_task store env input next) w
  unfolding transition_task call
  transition_task-Yields input next w = Yields-bind_lift _ _ _ λ ids safe.
      Yields-bind _ _ _ λ task found. Yields-bind_lift _ _ _ λ go_on checked.
        let reads = law.get_task_reads ids.0 ids.1 w.db in
        let read = (call (store.get_work_task ids.0 ids.1) w).1 in
        let end = (change_task store env task input next read).1.db in
        Yields-if go_on _ _ _
          (λ yes. record {
            at = λ u e.
                changed ids.0 ids.1 task safe found
                  (check_before-Passed task input next
                    (subst (λ b. check_before task input next ≡ ok b) yes checked))
                  (subst (λ s. Changed store task input next s u end) reads
                    ((change_task-Changed task input next _).at u e));
          })
          (λ no.
            let (n, old, _) =
              check_before-stale task input next
                (subst (λ b. check_before task input next ≡ ok b) no checked) in
            Yields-pure _ _ (stale ids.0 ids.1 safe found n old reads))

  pub transition_task-Moved :
      (input : WorkTaskActionInput) (next : TaskStatus) (w : World S) (u : WorkTask)
      → (transition_task store env input next w).0 ≡ ok u
      → Moved store input next w.db u (transition_task store env input next w).1.db
  transition_task-Moved input next w u e = (transition_task-Yields input next w).at u e
