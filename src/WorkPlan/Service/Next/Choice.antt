-- ===== src/WorkPlan/Service/Next/Choice.antt =====
-- The choice of `GetNextWorkTask` and the order of the candidates.
use mathlib.Core.List.{Memᴰ}
use go_mivia.Base.{
  String, ◌≡◌, refl, sym, subst, Bool, true, false, Option, none, some, List, [], ◌∷◌, arith,
  nat_eq, string_eq, keep_if, All, All-map, All-of_keep_if, keep_if-Mem, contains,
}
use go_mivia.Base.Result.{ok}
use go_mivia.Base.Exec.{Yields, Yields-pure, Yields-bind, Yields-bind_lift}
use go_mivia.Base.Sort.{IsSorted, sort_by-IsSorted, All-sort_by, All-of_sort_by}
use go_mivia.WorkPlan.TaskStatus.{task_status_eq}
use go_mivia.WorkPlan.Model.{WorkTask, GetNextWorkTaskInput, WorkTaskFilter}
use go_mivia.WorkPlan.Safe.{safe_ref, safe_optional_ref}
use go_mivia.WorkPlan.Store.{WorkPlanStore}
use go_mivia.WorkPlan.Service.{World}
use go_mivia.WorkPlan.Service.Tasks.{list_tasks, open_plan_ids}
use go_mivia.WorkPlan.Service.Next.{
  is_candidate, goes_first, candidates, in_open_plan, choose, get_next_work_task, Chosen,
  NextResult,
}
use go_mivia.WorkPlan.Service.Next.Takeable.{
  IsTakeable, GoesBefore, is_candidate_iff, goes_first_iff,
}
use go_mivia.WorkPlan.Service.Next.Order.{
  Fits, goes_first_asym, goes_first_not_trans, goes_first_irrefl,
}

module _ (tasks : List WorkTask) (owner run : String) (mine : Bool) where
  abbrev cand : WorkTask → Bool
  cand = is_candidate tasks owner run mine

  abbrev less : WorkTask → WorkTask → Bool
  less = goes_first owner

  abbrev passed : List WorkTask
  passed = keep_if cand tasks

  -- A task chosen from `tasks`: it may be taken up, and no other such task goes first.
  pub record IsFirst (t : WorkTask) : Type 0 where
    pub among : Memᴰ t tasks
    pub is_takeable : IsTakeable tasks owner run mine t
    pub is_first : All (λ z. IsTakeable tasks owner run mine z → GoesBefore owner z t → ⊥) tasks

  not_before :
      (t z : WorkTask)
      → (cand z ≡ true → less z t ≡ false)
      → IsTakeable tasks owner run mine z
      → GoesBefore owner z t
      → ⊥
  not_before t z free takeable before = ground (
    arith,
    free ((is_candidate_iff tasks owner run mine z).1 takeable),
    (goes_first_iff owner z t).1 before,
  )

  pub candidates-IsFirst :
      (t : WorkTask) (rest : List WorkTask) → candidates tasks owner run mine ≡ t ∷ rest → IsFirst t
  unfolding candidates
  candidates-IsFirst t rest e =
      let passing = keep_if-Mem cand tasks in
      let fitting =
        All-map (λ z (_, h). ((is_candidate_iff tasks owner run mine z).0 h).fits) passed passing in
      let sorted =
        sort_by-IsSorted less (Fits owner) (goes_first_asym owner) (goes_first_not_trans owner)
          passed fitting in
      let (mem, ok_) =
        (subst (All (λ z. Memᴰ z tasks × (cand z ≡ true))) e
          (All-sort_by less (λ z. Memᴰ z tasks × (cand z ≡ true)) passed passing)).0 in
      record {
        among = mem;
        is_takeable = (is_candidate_iff tasks owner run mine t).0 ok_;
        is_first =
            All-map (λ z free. not_before t z free) tasks
              (All-of_keep_if (λ z. less z t ≡ false) cand tasks
                (All-of_sort_by less (λ z. less z t ≡ false) passed
                  (subst (All (λ z. less z t ≡ false)) (sym e)
                    (goes_first_irrefl owner t, (subst (IsSorted less) e sorted).0))));
      }

  pub candidates-none :
      candidates tasks owner run mine ≡ [] → All (λ z. IsTakeable tasks owner run mine z → ⊥) tasks
  unfolding candidates
  candidates-none e =
      All-map (λ z free takeable. free ((is_candidate_iff tasks owner run mine z).1 takeable)) tasks
        (All-of_keep_if (λ _. ⊥) cand tasks
          (All-of_sort_by less (λ _. ⊥) passed (subst (All (λ _. ⊥)) (sym e) tt)))

  -- The answer from `tasks`: a first one of those that may be taken up, or none where there is none.
  pub data Answers : Option Chosen → Type 0 where
    nothing : All (λ z. IsTakeable tasks owner run mine z → ⊥) tasks → Answers none
    chosen : (c : Chosen) → IsFirst c.task → Answers (some c)

module _ {S : Type 0} (store : WorkPlanStore S) where
  choose-Answers :
      (tasks : List WorkTask) (owner run : String) (mine : Bool) (sorted : List WorkTask)
      (w : World S)
      → candidates tasks owner run mine ≡ sorted
      → Yields (λ r _. Answers tasks owner run mine r.choice) (choose store tasks sorted) w
  unfolding choose
  choose-Answers tasks owner run mine [] w e =
      Yields-pure _ _ (nothing (candidates-none tasks owner run mine e))
  choose-Answers tasks owner run mine (t ∷ rest) w e =
      Yields-bind _ _ _
        λ plan _. Yields-pure _ _ (chosen _ (candidates-IsFirst tasks owner run mine t rest e))

  abbrev whole_plan : String → String → WorkTaskFilter
  whole_plan project plan = record {
    project_id = project;
    plan_id = plan;
    status = "";
    owner_agent = "";
    claimed_by_run_id = "";
  }

  -- What the answer to a request is chosen from: the tasks that the store lists for the project, the
  -- plan and no other filter, less those of plans that are not open.
  pub record Chooses (input : GetNextWorkTaskInput) (w : World S) (result : NextResult)
      : Type 0 where
    pub project : String
    pub plan : String
    pub owner : String
    pub run : String
    pub is_project : safe_ref input.project_id "project_id" ≡ ok project
    pub is_owner : safe_optional_ref input.owner_agent "owner_agent" ≡ ok owner
    pub is_run : safe_optional_ref input.run_id "run_id" ≡ ok run
    pub listed : List WorkTask
    pub open_plans : List String
    pub is_plan : safe_optional_ref input.plan_id "plan_id" ≡ ok plan
    pub is_listed : (list_tasks store (whole_plan project plan) w).0 ≡ ok listed
    pub are_open :
        (open_plan_ids store project (list_tasks store (whole_plan project plan) w).1).0
        ≡ ok open_plans
    pub in_open_plans :
        All (λ t. contains open_plans t.plan_id ≡ true) (keep_if (in_open_plan open_plans) listed)
    pub answers :
        Answers
          (keep_if (in_open_plan open_plans) listed)
          owner
          run
          input.include_claimed_by_me
          result.choice

  get_next_work_task-Yields :
      (input : GetNextWorkTaskInput) (w : World S)
      → Yields (λ r _. Chooses input w r) (get_next_work_task store input) w
  unfolding get_next_work_task
  get_next_work_task-Yields input w = Yields-bind_lift _ _ _ λ project p.
      Yields-bind_lift _ _ _ λ plan_id q. Yields-bind_lift _ _ _ λ owner o.
        Yields-bind_lift _ _ _ λ run r. Yields-bind_lift _ _ _ λ _ _. Yields-bind _ _ _ λ listed l.
          Yields-bind _ _ _ λ open_plans op. record {
            at = λ result e. record {
              project = project;
              plan = plan_id;
              is_plan = q;
              is_listed = l;
              are_open = op;
              owner = owner;
              run = run;
              is_project = p;
              is_owner = o;
              is_run = r;
              listed = listed;
              open_plans = open_plans;
              in_open_plans =
                  All-map (λ _ (_, h). h) _ (keep_if-Mem (in_open_plan open_plans) listed);
              answers =
                  (choose-Answers _ owner run input.include_claimed_by_me _ _ refl).at result e;
            };
          }

  -- The answer to a request for the next task, where there is no error, is chosen from the tasks
  -- that are listed for the project and the plan and whose plans are open: a task that the run may
  -- take up, such that no other that it may take up goes before it, or none where the run may take
  -- up none of them. A run may take up a task that is ready, decomposed and has a verification
  -- requirement, whose owner fits, which no run holds or the run itself where the request allows
  -- it, and each of whose dependencies is the id of a task among them that is done, while the last
  -- task with that id is not blocked. The tasks of the asked owner go before the others; else the
  -- one with fewer dependencies, then the older one, then the one with the smaller reference.
  pub get_next_work_task-Chooses :
      (input : GetNextWorkTaskInput) (w : World S) (result : NextResult)
      → (get_next_work_task store input w).0 ≡ ok result
      → Chooses input w result
  get_next_work_task-Chooses input w result e = (get_next_work_task-Yields input w).at result e
