-- ===== src/WorkPlan/Memory/Laws.antt =====
-- The store in memory and the laws of the interface.
use text.Mathlib.TextEquality.{eq_iff}
use mathlib.Core.List.{Memᴰ}
use go_mivia.Base.{
  String, ◌≡◌, refl, sym, subst, List, [], ◌∷◌, ◌++◌, arith, string_eq, ◌==◌, All, All-map, Bool,
  false, ◌⊎◌, inl, inr,
}
use go_mivia.Base.Result.{ok}
use go_mivia.Base.Sort.{sort_by, All-of_sort_by, All-sort_by}
use go_mivia.WorkPlan.Model.{Attachment}
use go_mivia.WorkPlan.Store.{IsLawful, Apart, found_attachments}
use go_mivia.WorkPlan.Memory.Lookup.{lookup-insert}
use go_mivia.WorkPlan.Memory.Keys.{key_differs}
use go_mivia.WorkPlan.Memory.{
  MemoryStore, lookup, pair_key, create_work_plan, get_work_plan, list_work_plans, update_work_plan,
  create_work_task, get_work_task, list_work_tasks, update_work_task, create_attachment,
  list_attachments, memory_store, attachment_before, or_nil,
}

All-members : {A : Type 0} (xs : List A) → All (λ x. Memᴰ x xs) xs
All-members [] = tt
All-members (x ∷ xs) = (Memᴰ.head refl, All-map (λ y m. Memᴰ.tail m) xs (All-members xs))

last_of : {A : Type 0} (P : A → Type 0) (xs : List A) (a : A) → All P (xs ++ a ∷ []) → P a
last_of P [] a (p, _) = p
last_of P (x ∷ xs) a (_, h) = last_of P xs a h

-- What is sorted in with others is a member of the result.
sort_by-member :
    {A : Type 0} (less : A → A → Bool) (xs : List A) (a : A) → Memᴰ a (sort_by less (xs ++ a ∷ []))
sort_by-member less xs a =
    last_of (λ x. Memᴰ x (sort_by less (xs ++ a ∷ []))) xs a
      (All-of_sort_by less _ (xs ++ a ∷ []) (All-members (sort_by less (xs ++ a ∷ []))))

module _ (a : Attachment) (s : MemoryStore) where
  abbrev attached : List Attachment
  attached =
      sort_by attachment_before
        (or_nil (lookup (pair_key a.project_id a.task_id) s.attachments) ++ a ∷ [])

  create_attachment-read :
      {u : Attachment}
      → (create_attachment a s).0 ≡ ok u
      → (u ≡ a)
        × (found_attachments memory_store a.project_id a.task_id (create_attachment a s).1
            ≡ ok attached)
  unfolding create_attachment list_attachments
  create_attachment-read h =
      let k = pair_key a.project_id a.task_id in
      (
        ground arith,
        ground (
          arith,
          eq_iff k k,
          lookup-insert k k (or_nil (lookup k s.attachments) ++ a ∷ []) s.attachments,
        ),
      )

-- What is sorted with one more has all of what was sorted before.
sort_by-members :
    {A : Type 0} (less : A → A → Bool) (xs : List A) (a : A)
    → All (λ x. Memᴰ x (sort_by less (xs ++ a ∷ []))) (sort_by less xs)
sort_by-members less xs a = All-sort_by less _ xs (
    first_of (λ x. Memᴰ x (sort_by less (xs ++ a ∷ []))) xs (a ∷ [])
      (All-of_sort_by less _ (xs ++ a ∷ []) (All-members (sort_by less (xs ++ a ∷ [])))))
  where
    first_of : {B : Type 0} (P : B → Type 0) (ys zs : List B) → All P (ys ++ zs) → All P ys
    first_of P [] zs h = tt
    first_of P (y ∷ ys) zs (p, h) = (p, first_of P ys zs h)

listed_after :
    (a : Attachment) (s : MemoryStore) (p i : String) {old new : List Attachment}
    → found_attachments memory_store p i s ≡ ok old
    → found_attachments memory_store p i (create_attachment a s).1 ≡ ok new
    → (new ≡ old)
      ⊎ ((old ≡ sort_by attachment_before (or_nil (lookup (pair_key p i) s.attachments)))
          × (new
              ≡ sort_by attachment_before (or_nil (lookup (pair_key p i) s.attachments) ++ a ∷ [])))
unfolding create_attachment list_attachments
listed_after a s p i h k =
    let key = pair_key a.project_id a.task_id in
    ground (
      arith,
      eq_iff key (pair_key p i),
      lookup-insert key (pair_key p i) (or_nil (lookup key s.attachments) ++ a ∷ []) s.attachments,
    )

listed_after-keeps :
    (a : Attachment) (s : MemoryStore) (p i : String) {old new : List Attachment}
    → found_attachments memory_store p i s ≡ ok old
    → found_attachments memory_store p i (create_attachment a s).1 ≡ ok new
    → All (λ x. Memᴰ x new) old
listed_after-keeps a s p i {old} {new} h k = elim (listed_after a s p i h k) [
  | inl same ↦ subst (λ l. All (λ x. Memᴰ x l) old) (sym same) (All-members old)
  | inr (before, after) ↦
      subst (λ l. All (λ x. Memᴰ x l) old) (sym after)
        (subst
          (All (λ x.
            Memᴰ x
              (sort_by attachment_before (or_nil (lookup (pair_key p i) s.attachments) ++ a ∷ []))))
          (sym before)
          (sort_by-members attachment_before (or_nil (lookup (pair_key p i) s.attachments)) a))
]

apart : (p i q j : String) → Apart p i q j → (pair_key p i == pair_key q j) ≡ false
apart p i q j (hp, hq, differ) = key_differs p i q j hp hq differ

-- The store in memory is a lawful store: its reads change nothing; a task or a plan that is created
-- or updated is read back, and an attachment that is created is in the list of its task, which
-- keeps what it had; the update of a task that is found succeeds; a write that fails changes
-- nothing; and a write leaves the tasks, the plans and the lists of attachments that are found
-- under every other project and id, where the two projects hold no zero byte. A write of one kind
-- leaves what is found of the others, and whatever the projects hold, a task that is found after a
-- write is the written one or was found before.
pub memory_store-IsLawful : IsLawful memory_store
unfolding create_work_plan get_work_plan list_work_plans update_work_plan create_work_task
    get_work_task list_work_tasks update_work_task create_attachment list_attachments
memory_store-IsLawful = record {
  get_plan_reads = λ p i s. ground arith;
  get_task_reads = λ p i s. ground arith;
  list_plans_reads = λ f s. refl;
  list_tasks_reads = λ f s. refl;
  list_attachments_reads = λ p i s. ground arith;
  update_task_ok = λ t s h.
      let k = pair_key t.project_id t.id in ground (arith, lookup-insert k k t s.tasks, eq_iff k k);
  update_task_known = λ t s h. ground arith;
  update_task_err = λ t s h. ground arith;
  update_task_frame = λ t s p i x h.
      ground (arith, lookup-insert (pair_key t.project_id t.id) (pair_key p i) t s.tasks);
  create_task_frame = λ t s p i x h.
      ground (arith, lookup-insert (pair_key t.project_id t.id) (pair_key p i) t s.tasks);
  create_attachment_frame = λ a s p i. ground arith;
  create_plan_frame = λ q s p i. ground arith;
  update_plan_frame = λ q s p i. ground arith;
  update_plan_ok = λ q s h.
      let k = pair_key q.project_id q.id in ground (arith, lookup-insert k k q s.plans, eq_iff k k);
  create_task_ok = λ t s h.
      let k = pair_key t.project_id t.id in ground (arith, lookup-insert k k t s.tasks, eq_iff k k);
  create_plan_ok = λ q s h.
      let k = pair_key q.project_id q.id in ground (arith, lookup-insert k k q s.plans, eq_iff k k);
  create_attachment_ok = λ a s h.
      let (same, read) = create_attachment-read a s h in
      (same, attached a s, read, sort_by-member attachment_before _ a);
  create_attachment_keeps = λ a s p i h k. listed_after-keeps a s p i h k;
  create_task_err = λ t s h. ground arith;
  create_plan_err = λ q s h. ground arith;
  update_plan_err = λ q s h. ground arith;
  create_attachment_err = λ a s h. ground arith;
  update_task_others = λ t s p i h. ground (
    arith,
    lookup-insert (pair_key t.project_id t.id) (pair_key p i) t s.tasks,
    apart t.project_id t.id p i h,
  );
  create_task_others = λ t s p i h. ground (
    arith,
    lookup-insert (pair_key t.project_id t.id) (pair_key p i) t s.tasks,
    apart t.project_id t.id p i h,
  );
  update_plan_others = λ q s p i h. ground (
    arith,
    lookup-insert (pair_key q.project_id q.id) (pair_key p i) q s.plans,
    apart q.project_id q.id p i h,
  );
  create_plan_others = λ q s p i h. ground (
    arith,
    lookup-insert (pair_key q.project_id q.id) (pair_key p i) q s.plans,
    apart q.project_id q.id p i h,
  );
  create_attachment_others = λ a s p i h. ground (
    arith,
    lookup-insert (pair_key a.project_id a.task_id) (pair_key p i)
        (or_nil (lookup (pair_key a.project_id a.task_id) s.attachments) ++ a ∷ []) s.attachments,
    apart a.project_id a.task_id p i h,
  );
  update_task_plans = λ t s p i. ground arith;
  create_task_plans = λ t s p i. ground arith;
  create_attachment_plans = λ a s p i. ground arith;
  update_task_attachments = λ t s p i h.
      ground (arith, lookup-insert (pair_key t.project_id t.id) (pair_key p i) t s.tasks);
  create_task_attachments = λ t s p i h.
      ground (arith, lookup-insert (pair_key t.project_id t.id) (pair_key p i) t s.tasks);
  update_plan_attachments = λ q s p i. ground arith;
  create_plan_attachments = λ q s p i. ground arith;
}
