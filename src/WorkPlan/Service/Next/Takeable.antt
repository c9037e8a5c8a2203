-- ===== src/WorkPlan/Service/Next/Takeable.antt =====
-- When a run may take up a task, and which of two tasks goes before the other, in terms of the tasks
-- alone.
use text.Mathlib.TextEquality.{eq_iff}
use mathlib.Core.List.{Memᴰ}
use go_mivia.Base.{
  ◌<◌, String, ◌≡◌, ◌≢◌, ◌↔◌, ◌⊎◌, refl, sym, subst, ◌∙◌, ap, Bool, true, Option, none, some, List,
  [], ◌∷◌, arith, nat_eq, string_eq, ◌==◌, length, all, All, All-map, if◌then◌else◌, inl, inr,
  Bool-cases, ◌&&◌,
}
use go_mivia.Text.Order.{str_ltb}
use go_mivia.WorkPlan.TaskStatus.{ready, blocked, done, task_status_eq, status_beq_iff}
use go_mivia.WorkPlan.Model.{WorkTask}
use go_mivia.WorkPlan.Service.Next.{find_task, is_done_id, is_met, is_candidate, goes_first}
use go_mivia.WorkPlan.Service.Next.Order.{Fits}

-- The last task with an id.
pub data IsLast (id : String) : List WorkTask → WorkTask → Type 0 where
  here :
      {t : WorkTask} {rest : List WorkTask}
      → t.id ≡ id
      → All (λ z. z.id ≢ id) rest
      → IsLast id (t ∷ rest) t
  there : {t x : WorkTask} {rest : List WorkTask} → IsLast id rest t → IsLast id (x ∷ rest) t

-- Among the tasks there is one with this id that is done, and the last one with it is not blocked.
pub record IsMet (tasks : List WorkTask) (id : String) : Type 0 where
  pub last : WorkTask
  pub is_last : IsLast id tasks last
  pub unblocked : last.status ≢ blocked
  pub finished : WorkTask
  pub among : Memᴰ finished tasks
  pub same_id : finished.id ≡ id
  pub is_done : finished.status ≡ done

-- A task that a run may take up.
pub record IsTakeable (tasks : List WorkTask) (owner run : String) (mine : Bool) (t : WorkTask)
    : Type 0 where
  pub is_ready : t.status ≡ ready
  pub is_decomposed : t.decomposition_quality ≡ "ready"
  pub is_verifiable : t.verification_requirement ≢ ""
  pub fits : Fits owner t
  pub free : (t.claimed_by_run_id ≡ "") ⊎ ((mine ≡ true) × (t.claimed_by_run_id ≡ run))
  pub dependencies_met : All (IsMet tasks) t.dependency_task_ids

-- The asked owner's own tasks go first; among tasks of one owner, or when none is asked for, the one with
-- fewer dependencies, then the older one, then the one with the smaller reference.
abbrev pub GoesBefore : String → WorkTask → WorkTask → Type 0
GoesBefore owner a b =
    ((owner ≢ "") × (a.owner_agent ≡ owner) × (b.owner_agent ≢ owner))
    ⊎ (((owner ≡ "") ⊎ (a.owner_agent ≡ b.owner_agent))
        × ((length a.dependency_task_ids < length b.dependency_task_ids)
            ⊎ ((length a.dependency_task_ids ≡ length b.dependency_task_ids)
                × ((a.created_at < b.created_at)
                    ⊎ ((a.created_at ≡ b.created_at) × (str_ltb a.task_ref b.task_ref ≡ true))))))

pub goes_first_iff :
    (owner : String) (a b : WorkTask) → (goes_first owner a b ≡ true) ↔ GoesBefore owner a b
unfolding goes_first
goes_first_iff owner a b = (
  λ h. ground (
    arith,
    eq_iff owner "",
    eq_iff a.owner_agent b.owner_agent,
    eq_iff a.owner_agent owner,
    eq_iff b.owner_agent owner,
  ),
  λ h. ground (
    arith,
    eq_iff owner "",
    eq_iff a.owner_agent b.owner_agent,
    eq_iff a.owner_agent owner,
    eq_iff b.owner_agent owner,
  ),
)

none_found :
    (id : String) (tasks : List WorkTask) → find_task id tasks ≡ none → All (λ z. z.id ≢ id) tasks
unfolding find_task
none_found id [] e = tt
none_found id (t ∷ tasks) e = (ground (arith, eq_iff t.id id), none_found id tasks (ground arith))

finds_none :
    (id : String) (tasks : List WorkTask) → All (λ z. z.id ≢ id) tasks → find_task id tasks ≡ none
unfolding find_task
finds_none id [] h = refl
finds_none id (t ∷ tasks) (p, h) = ground (arith, eq_iff t.id id, finds_none id tasks h)

find_task-IsLast :
    (id : String) (tasks : List WorkTask) {t : WorkTask}
    → find_task id tasks ≡ some t
    → IsLast id tasks t
unfolding find_task
find_task-IsLast id [] e = cc
find_task-IsLast id (x ∷ tasks) {t} e =
    at_later (find_task id tasks) refl (λ y p. find_task-IsLast id tasks p) e
  where
    at_later :
        (later : Option WorkTask)
        → find_task id tasks ≡ later
        → ((y : WorkTask) → find_task id tasks ≡ some y → IsLast id tasks y)
        → (elim later [ some y ↦ some y | none ↦ if x.id == id then some x else none ]) ≡ some t
        → IsLast id (x ∷ tasks) t
    at_later (some y) p before h = IsLast.there (before _ (p ∙ h))
    at_later none p before h =
        let same : x ≡ t = ground arith in
        subst (IsLast id (x ∷ tasks)) same
          (IsLast.here (ground (arith, eq_iff x.id id)) (none_found id tasks p))

IsLast-find_task :
    (id : String) (tasks : List WorkTask) {t : WorkTask}
    → IsLast id tasks t
    → find_task id tasks ≡ some t
unfolding find_task
IsLast-find_task id [] l = elim l [ ]
IsLast-find_task id (x ∷ tasks) (IsLast.here same others) =
    ground (arith, eq_iff x.id id, finds_none id tasks others)
IsLast-find_task id (x ∷ tasks) (IsLast.there last) = ground (arith, IsLast-find_task id tasks last)

done_among :
    (id : String) (tasks : List WorkTask)
    → is_done_id id tasks ≡ true
    → (d : WorkTask) × Memᴰ d tasks × (d.id ≡ id) × (d.status ≡ done)
unfolding is_done_id
done_among id [] e = cc
done_among id (t ∷ tasks) e = elim (Bool-cases (t.id == id && t.status == done)) [
  | inl both ↦ (
    t,
    Memᴰ.head refl,
    ground (arith, eq_iff t.id id),
    ground (arith, status_beq_iff t.status done),
  )
  | inr other ↦
      let (d, m, same, is_done) = done_among id tasks (ground arith) in
      (d, Memᴰ.tail m, same, is_done)
]

among_done :
    (id : String) (tasks : List WorkTask) (d : WorkTask)
    → Memᴰ d tasks
    → d.id ≡ id
    → d.status ≡ done
    → is_done_id id tasks ≡ true
unfolding is_done_id
among_done id [] d m is_id is_done = elim m [ ]
among_done id (t ∷ tasks) d (Memᴰ.head same) is_id is_done =
    let i : t.id ≡ id = ap (λ x. x.id) (sym same) ∙ is_id in
    let s : t.status ≡ done = ap (λ x. x.status) (sym same) ∙ is_done in
    ground (arith, i, s, eq_iff t.id id, status_beq_iff t.status done)
among_done id (t ∷ tasks) d (Memᴰ.tail m) is_id is_done =
    ground (arith, among_done id tasks d m is_id is_done)

All-of_all : (p : String → Bool) (xs : List String) → all p xs ≡ true → All (λ x. p x ≡ true) xs
All-of_all p [] h = tt
All-of_all p (x ∷ xs) h = (ground arith, All-of_all p xs (ground arith))

all-All : (p : String → Bool) (xs : List String) → All (λ x. p x ≡ true) xs → all p xs ≡ true
all-All p [] h = refl
all-All p (x ∷ xs) (q, h) = ground (arith, all-All p xs h)

module _ (tasks : List WorkTask) where
  is_met-found :
      (id : String) (found : Option WorkTask)
      → find_task id tasks ≡ found
      → is_met tasks id ≡ true
      → (last : WorkTask) × (find_task id tasks ≡ some last)
        × (last.status ≢ blocked)
        × (is_done_id id tasks ≡ true)
  unfolding is_met
  is_met-found id none p h = ground (arith, p)
  is_met-found id (some last) p h =
      (last, p, ground (arith, p, status_beq_iff last.status blocked), ground (arith, p))

  is_met-IsMet : (id : String) → is_met tasks id ≡ true → IsMet tasks id
  is_met-IsMet id h =
      let (last, found, unblocked, is_done) = is_met-found id (find_task id tasks) refl h in
      let (d, m, same, finished) = done_among id tasks is_done in
      record {
        last = last;
        is_last = find_task-IsLast id tasks found;
        unblocked = unblocked;
        finished = d;
        among = m;
        same_id = same;
        is_done = finished;
      }

  IsMet-is_met : (id : String) → IsMet tasks id → is_met tasks id ≡ true
  unfolding is_met
  IsMet-is_met id met = ground (
    arith,
    IsLast-find_task id tasks met.is_last,
    among_done id tasks met.finished met.among met.same_id met.is_done,
    met.unblocked,
    status_beq_iff met.last.status blocked,
  )

  module _ (owner run : String) (mine : Bool) (t : WorkTask) where
    is_candidate-IsTakeable :
        is_candidate tasks owner run mine t ≡ true → IsTakeable tasks owner run mine t
    unfolding is_candidate
    is_candidate-IsTakeable h = record {
      is_ready = ground (arith, status_beq_iff t.status ready);
      is_decomposed = ground (arith, eq_iff t.decomposition_quality "ready");
      is_verifiable = ground (arith, eq_iff t.verification_requirement "");
      fits = ground (arith, eq_iff owner "", eq_iff t.owner_agent "", eq_iff t.owner_agent owner);
      free = ground (arith, eq_iff t.claimed_by_run_id "", eq_iff t.claimed_by_run_id run);
      dependencies_met =
          All-map is_met-IsMet t.dependency_task_ids
            (All-of_all (is_met tasks) t.dependency_task_ids (ground arith));
    }

    IsTakeable-is_candidate :
        IsTakeable tasks owner run mine t → is_candidate tasks owner run mine t ≡ true
    unfolding is_candidate
    IsTakeable-is_candidate k = ground (
      arith,
      k.is_ready,
      k.is_decomposed,
      k.is_verifiable,
      k.fits,
      k.free,
      all-All (is_met tasks) t.dependency_task_ids
          (All-map IsMet-is_met t.dependency_task_ids k.dependencies_met),
      status_beq_iff t.status ready,
      eq_iff t.decomposition_quality "ready",
      eq_iff t.verification_requirement "",
      eq_iff owner "",
      eq_iff t.owner_agent "",
      eq_iff t.owner_agent owner,
      eq_iff t.claimed_by_run_id "",
      eq_iff t.claimed_by_run_id run,
    )

    -- The tests of the loop let a task through exactly when the run may take it up.
    pub is_candidate_iff :
        (is_candidate tasks owner run mine t ≡ true) ↔ IsTakeable tasks owner run mine t
    is_candidate_iff = (is_candidate-IsTakeable, IsTakeable-is_candidate)
