-- ===== src/WorkPlan/Service/Move/Progress.antt =====
-- The success of `ClaimWorkTask`.
use text.Mathlib.TextEquality.{eq_iff}
use go_mivia.Base.{String, ◌≡◌, refl, sym, subst, ◌∙◌, ap, true, [], arith, string_eq, inr}
use go_mivia.Base.Result.{Result, ok}
use go_mivia.Base.Exec.{Exec, continue, lift, pure, ◌>>=◌}
use go_mivia.Text.{trim_space}
use go_mivia.WorkPlan.TaskStatus.{ready, claimed, validate_task_transition, task_status_eq}
use go_mivia.WorkPlan.TaskStatus.Graph.{◌⟶◌, validate_task_transition_iff}
use go_mivia.WorkPlan.Unique.{append_unique, append_all_unique}
use go_mivia.WorkPlan.Safe.{safe_optional_ref, safe_project_object}
use go_mivia.WorkPlan.Safe.Laws.{IsSafeRef, safe_ref_of_IsSafeRef}
use go_mivia.WorkPlan.Model.{WorkTask, WorkTaskActionInput}
use go_mivia.WorkPlan.Store.{WorkPlanStore, IsLawful, found_task}
use go_mivia.WorkPlan.Transition.{
  check_before, check_claim, check_status, allows_git_ops_recovery_rerun, merge_input, or_keep,
  or_keep_list, added, finish, check_after,
}
use go_mivia.WorkPlan.Service.{Env, World, call, now}
use go_mivia.WorkPlan.Service.Move.{check_reviewed, change_task, transition_task, claim_work_task}

-- The request that only claims.
abbrev pub claim_request : String → String → String → WorkTaskActionInput
claim_request project id run = record {
  project_id = project;
  task_id = id;
  owner_agent = "";
  run_id = run;
  trace_id = "";
  outcome = "";
  safe_next_action = "";
  blocked_reason = "";
  blocked_by_task_ids = [];
  context_pack_refs = [];
  evidence_refs = [];
  claim_refs = [];
  knowledge_refs = [];
  resume_instructions = "";
  verifier_result_refs = [];
  review_result_refs = [];
  review_exempt_reason = "";
}

abbrev held_by : WorkTask → String → WorkTask
held_by task run = record task {
  claimed_by_run_id = run;
  agent_run_ids = append_unique task.agent_run_ids run;
}

module _ {S A B : Type 0} where
  bind_lift-returns :
      (r : Result A) (f : A → Exec S B) (s : S) {a : A} {b : B}
      → r ≡ ok a
      → (f a s).0 ≡ ok b
      → ((lift r >>= f) s).0 ≡ ok b
  unfolding ◌>>=◌
  bind_lift-returns r f s e h = ap (λ x. (continue x f s).0) e ∙ h

  bind-returns :
      (m : Exec S A) (f : A → Exec S B) (s : S) {a : A} {b : B}
      → (m s).0 ≡ ok a
      → (f a (m s).1).0 ≡ ok b
      → ((m >>= f) s).0 ≡ ok b
  unfolding ◌>>=◌
  bind-returns m f s e h = ap (λ x. (continue x f (m s).1).0) e ∙ h

safe_ids :
    (project id : String)
    → IsSafeRef project
    → IsSafeRef id
    → safe_project_object project id "task_id" ≡ ok (project, id)
unfolding safe_project_object
safe_ids project id p i =
    ground
      (arith, safe_ref_of_IsSafeRef project "project_id" p, safe_ref_of_IsSafeRef id "task_id" i)

safe_run : (run : String) → IsSafeRef run → safe_optional_ref run "run_id" ≡ ok run
unfolding safe_optional_ref
safe_run run r =
    ground (
      arith,
      eq_iff (trim_space run) "",
      r.trimmed,
      r.present,
      safe_ref_of_IsSafeRef run "run_id" r,
    )

claim_passes :
    (task : WorkTask) (project id run : String)
    → IsSafeRef run
    → task.status ≡ ready
    → task.claimed_by_run_id ≡ ""
    → check_before task (claim_request project id run) claimed ≡ ok true
unfolding check_before check_claim check_status allows_git_ops_recovery_rerun
claim_passes task project id run r is_ready free = ground (
  arith,
  safe_run run r,
  r.present,
  r.trimmed,
  eq_iff (trim_space run) "",
  eq_iff task.claimed_by_run_id "",
  subst (λ from. validate_task_transition from claimed ≡ ok tt) (sym is_ready)
      ((validate_task_transition_iff ready claimed).1 (inr ◌⟶◌.claim)),
)

claim_merges :
    (task : WorkTask) (project id run : String)
    → IsSafeRef run
    → merge_input task (claim_request project id run) ≡ ok (held_by task run)
unfolding merge_input or_keep or_keep_list added append_all_unique
claim_merges task project id run r = ground (arith, safe_run run r, r.present, eq_iff run "")

module _ {S : Type 0} (store : WorkPlanStore S) (law : IsLawful store) (env : Env) where
  change-returns :
      (task : WorkTask) (project id run : String) (w : World S)
      → IsSafeRef run
      → found_task store task.project_id task.id w.db ≡ ok task
      → (u : WorkTask) × ((change_task store env task (claim_request project id run) claimed w).0
          ≡ ok u)
  unfolding change_task check_reviewed call now finish check_after pure
  change-returns task project id run w r found = (
    _,
    bind_lift-returns _ _ w (claim_merges task project id run r) (
        bind-returns _ _ _ refl (
          bind_lift-returns _ _ _ refl
            (bind-returns _ _ _ refl (law.update_task_known _ w.db found)))),
  )

  -- Over a lawful store, the claim of a ready task by a run, with validated references and nothing
  -- else in the request, succeeds, where the task is stored under its own project and id and is
  -- held by no run.
  pub claim_succeeds :
      (project id run : String) (task : WorkTask) (w : World S)
      → IsSafeRef project
      → IsSafeRef id
      → IsSafeRef run
      → found_task store project id w.db ≡ ok task
      → task.project_id ≡ project
      → task.id ≡ id
      → task.status ≡ ready
      → task.claimed_by_run_id ≡ ""
      → (u : WorkTask) × ((claim_work_task store env (claim_request project id run) w).0 ≡ ok u)
  unfolding claim_work_task transition_task call
  claim_succeeds project id run task w p i r found own_project own_id is_ready free =
      let after_read = (call (store.get_work_task project id) w).1 in
      let still =
        subst (λ k. found_task store k task.id after_read.db ≡ ok task) (sym own_project)
          (subst (λ k. found_task store project k after_read.db ≡ ok task) (sym own_id)
            (subst (λ s. found_task store project id s ≡ ok task)
              (sym (law.get_task_reads project id w.db)) found)) in
      let (u, done) = change-returns task project id run after_read r still in
      (
        u,
        bind_lift-returns _ _ w (safe_ids project id p i) (
            bind-returns _ _ w found (
              bind_lift-returns _ _ after_read (claim_passes task project id run r is_ready free)
                done)),
      )
