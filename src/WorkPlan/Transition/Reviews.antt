-- ===== src/WorkPlan/Transition/Reviews.antt =====
-- What the independent-review test requires.
use text.Mathlib.TextEquality.{eq_iff}
use mathlib.Core.List.{Memᴰ}
use go_mivia.Base.{
  String, ◌≡◌, ◌≢◌, ◌⊎◌, refl, Bool, true, false, ◌&&◌, List, [], ◌∷◌, arith, string_eq, ◌==◌, any,
  is_empty, All, Bool-cases, inl, inr,
}
use go_mivia.Base.Result.{ok}
use go_mivia.WorkPlan.Model.{Attachment, is_review}
use go_mivia.WorkPlan.Transition.{reviews_of, is_independent, check_reviews}

-- An attached review with this reference, by another run than `run`, unless `run` is blank.
pub record Reviewed (run : String) (attachments : List Attachment) (ref : String) : Type 0 where
  pub review : Attachment
  pub attached : Memᴰ review attachments
  pub is_one : is_review review.kind ≡ true
  pub same_ref : review.ref ≡ ref
  pub independent : run ≢ "" → (review.attached_by_run_id ≢ "") × (review.attached_by_run_id ≢ run)

abbrev Picked : String → (Attachment → Bool) → Attachment → Type 0
Picked ref p a = (is_review a.kind ≡ true) × (a.ref ≡ ref) × (p a ≡ true)

find_review :
    (p : Attachment → Bool) (ref : String) (attachments : List Attachment)
    → any p (reviews_of attachments ref) ≡ true
    → (a : Attachment) × Memᴰ a attachments × Picked ref p a
unfolding reviews_of
find_review p ref [] h = cc
find_review p ref (a ∷ as') h = elim (Bool-cases (is_review a.kind && a.ref == ref && p a)) [
  | inl e ↦ (a, Memᴰ.head refl, ground (arith, eq_iff a.ref ref))
  | inr e ↦ let (b, m, q) = find_review p ref as' (ground arith) in (b, Memᴰ.tail m, q)
]

some_review : (xs : List Attachment) → is_empty xs ≡ false → any (λ _. true) xs ≡ true
some_review [] h = cc
some_review (x ∷ xs) h = refl

reviewed :
    (run ref : String) (attachments : List Attachment)
    → is_empty (reviews_of attachments ref) ≡ false
    → (run ≡ "") ⊎ (any (is_independent run) (reviews_of attachments ref) ≡ true)
    → Reviewed run attachments ref
reviewed run ref attachments h (inl blank) =
    let (a, m, q) = find_review (λ _. true) ref attachments (some_review _ h) in
    record {
      review = a;
      attached = m;
      is_one = q.0;
      same_ref = q.1;
      independent = λ n. absurd (n blank);
    }
reviewed run ref attachments h (inr other) =
    let (a, m, q) = find_review (is_independent run) ref attachments other in
    record {
      review = a;
      attached = m;
      is_one = q.0;
      same_ref = q.1;
      independent =
          λ n. ground (arith, q.2, eq_iff a.attached_by_run_id "", eq_iff a.attached_by_run_id run);
    }

parts :
    (run : String) (attachments : List Attachment) (ref : String) (refs : List String)
    → check_reviews run attachments (ref ∷ refs) ≡ ok tt
    → (is_empty (reviews_of attachments ref) ≡ false)
      × ((run ≡ "") ⊎ (any (is_independent run) (reviews_of attachments ref) ≡ true))
      × (check_reviews run attachments refs ≡ ok tt)
unfolding check_reviews
parts run attachments ref refs h = ground (arith, eq_iff run "")

-- Where the independent-review test passes, each reference is an attached review, by another run
-- than the given one unless that is empty.
pub check_reviews-Reviewed :
    (run : String) (attachments : List Attachment) (refs : List String)
    → check_reviews run attachments refs ≡ ok tt
    → All (Reviewed run attachments) refs
check_reviews-Reviewed run attachments [] h = tt
check_reviews-Reviewed run attachments (ref ∷ refs) h =
    let (some_one, other, rest) = parts run attachments ref refs h in
    (reviewed run ref attachments some_one other, check_reviews-Reviewed run attachments refs rest)
