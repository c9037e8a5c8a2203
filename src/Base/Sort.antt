-- ===== src/Base/Sort.antt =====
-- Go's `sort`, as the stable insertion sort: for a strict weak order every stable sort has its
-- result, and `sort.Slice` has it up to the order of elements that the test does not tell apart.
use mathlib.Core.Path.{◌≡◌, refl, subst}
use mathlib.Core.Bool.{Bool, true, false}
use mathlib.Core.Logic.{inl, inr}
use mathlib.Core.List.{List, [], ◌∷◌}
use native.Mathlib.Omega.{arith}
use go_mivia.Base.Tests.{Eq, if◌then◌else◌, Bool-cases}
use go_mivia.Base.Lists.{All, contains}

module _ {ℓ} {A : Type ℓ} (less : A → A → Bool) where
  -- `x` goes in front of the first element that it is not behind.
  unfoldable pub insert_by : A → List A → List A
  insert_by x [] = x ∷ []
  insert_by x (y ∷ ys) = let rest = insert_by x ys in if less y x then y ∷ rest else x ∷ y ∷ ys

  unfoldable pub sort_by : List A → List A
  unfolding insert_by
  sort_by [] = []
  sort_by (x ∷ xs) = insert_by x (sort_by xs)

  -- No element may come before one that stands in front of it.
  abbrev pub IsSorted : List A → Type 0
  IsSorted [] = Unit
  IsSorted (x ∷ xs) = All (λ z. less z x ≡ false) xs × IsSorted xs

  pub All-insert_by {κ} :
      (P : A → Type κ) (x : A) (ys : List A) → P x → All P ys → All P (insert_by x ys)
  unfolding insert_by
  All-insert_by P x [] p h = (p, tt)
  All-insert_by P x (y ∷ ys) p (q, h) = elim (Bool-cases (less y x)) [
    | inl e ↦ rw e (q, All-insert_by P x ys p h)
    | inr e ↦ rw e (p, (q, h))
  ]

  pub All-sort_by {κ} : (P : A → Type κ) (xs : List A) → All P xs → All P (sort_by xs)
  unfolding sort_by
  All-sort_by P [] h = tt
  All-sort_by P (x ∷ xs) (p, h) = All-insert_by P x (sort_by xs) p (All-sort_by P xs h)

  All-of_insert_by {κ} :
      (P : A → Type κ) (x : A) (ys : List A) → All P (insert_by x ys) → P x × All P ys
  unfolding insert_by
  All-of_insert_by P x [] h = h
  All-of_insert_by P x (y ∷ ys) h = elim (Bool-cases (less y x)) [
    | inl e ↦
        let (q, k) = subst (λ b. All P (if b then y ∷ insert_by x ys else x ∷ y ∷ ys)) e h in
        let (p, r) = All-of_insert_by P x ys k in (p, (q, r))
    | inr e ↦ subst (λ b. All P (if b then y ∷ insert_by x ys else x ∷ y ∷ ys)) e h
  ]

  pub All-of_sort_by {κ} : (P : A → Type κ) (xs : List A) → All P (sort_by xs) → All P xs
  unfolding sort_by
  All-of_sort_by P [] h = tt
  All-of_sort_by P (x ∷ xs) h =
      let (p, r) = All-of_insert_by P x (sort_by xs) h in (p, All-of_sort_by P xs r)

module _ {ℓ} {A : Type ℓ} (less : A → A → Bool) ⦃e : Eq A⦄ where
  contains-insert_by :
      (x : A) (ys : List A) (a : A) → contains (insert_by less x ys) a ≡ contains (x ∷ ys) a
  unfolding insert_by
  contains-insert_by x [] a = refl
  contains-insert_by x (y ∷ ys) a = ground (arith, contains-insert_by x ys a)

  pub contains-sort_by : (xs : List A) (a : A) → contains (sort_by less xs) a ≡ contains xs a
  unfolding sort_by
  contains-sort_by [] a = refl
  contains-sort_by (x ∷ xs) a =
      ground (arith, contains-insert_by x (sort_by less xs) a, contains-sort_by xs a)

-- On elements with `P`, where "not behind" is transitive and the order has no loop of two.
module _ {ℓ κ} {A : Type ℓ} (less : A → A → Bool) (P : A → Type κ)
    (asym : (a b : A) → less a b ≡ true → less b a ≡ false)
    (not_trans : (a b c : A)
      → P a
      → P b
      → P c
      → less b a ≡ false
      → less c b ≡ false
      → less c a ≡ false) where
  All-not_less :
      (x y : A) (ys : List A)
      → P x
      → P y
      → less y x ≡ false
      → All P ys
      → All (λ z. less z y ≡ false) ys
      → All (λ z. less z x ≡ false) ys
  All-not_less x y [] px py p h k = tt
  All-not_less x y (z ∷ zs) px py p (pz, h) (q, k) =
      (not_trans x y z px py pz p q, All-not_less x y zs px py p h k)

  insert_by-IsSorted :
      (x : A) (ys : List A)
      → P x
      → All P ys
      → IsSorted less ys
      → IsSorted less (insert_by less x ys)
  unfolding insert_by
  insert_by-IsSorted x [] px py h = (tt, tt)
  insert_by-IsSorted x (y ∷ ys) px (py, pys) (h, s) = elim (Bool-cases (less y x)) [
    | inl e ↦ rw e (
      All-insert_by less (λ z. less z y ≡ false) x ys (asym y x e) h,
      insert_by-IsSorted x ys px pys s,
    )
    | inr e ↦ rw e ((e, All-not_less x y ys px py e pys h), (h, s))
  ]

  pub sort_by-IsSorted : (xs : List A) → All P xs → IsSorted less (sort_by less xs)
  unfolding sort_by
  sort_by-IsSorted [] h = tt
  sort_by-IsSorted (x ∷ xs) (p, h) =
      insert_by-IsSorted x (sort_by less xs) p (All-sort_by less P xs h) (sort_by-IsSorted xs h)
