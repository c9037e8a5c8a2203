-- ===== src/Base/Lists.antt =====
-- Lists measured by native numbers, Boolean membership and filters, and predicates on lists.
use Prim.Native.Nat.{ℕ, suc, ◌+◌}
use mathlib.Core.Path.{◌≡◌, refl, ap, subst}
use mathlib.Core.Bool.{Bool, true, false, ◌&&◌, ◌||◌}
use mathlib.Core.List.{List, [], ◌∷◌, ◌++◌, map, Memᴰ}
use mathlib.Core.Logic.{inl, inr}
use mathlib.Core.Option.{Option, none, some}
use Prim.Native.String.{String}
use text.Mathlib.TextEquality.{eq_iff}
use native.Mathlib.Omega.{arith}
use go_mivia.Base.Tests.{Eq, string_eq, Bool-cases, ◌==◌, if◌then◌else◌}

module _ {ℓ} {A : Type ℓ} where
  abbrev pub length : List A → ℕ
  length [] = 0
  length (x ∷ xs) = suc (length xs)

  abbrev pub is_empty : List A → Bool
  is_empty [] = true
  is_empty (x ∷ xs) = false

  abbrev pub all : (A → Bool) → List A → Bool
  all p [] = true
  all p (x ∷ xs) = p x && all p xs

  abbrev pub any : (A → Bool) → List A → Bool
  any p [] = false
  any p (x ∷ xs) = p x || any p xs

  -- the loops that keep the elements passing a test
  abbrev pub keep_if : (A → Bool) → List A → List A
  keep_if p [] = []
  keep_if p (x ∷ xs) = let rest = keep_if p xs in if p x then x ∷ rest else rest

  abbrev pub contains : ⦃e : Eq A⦄ → List A → A → Bool
  contains [] a = false
  contains (x ∷ xs) a = x == a || contains xs a

  -- the first element with this name
  unfoldable pub named : (A → String) → List A → String → Option A
  named f [] x = none
  named f (a ∷ as') x = let rest = named f as' x in if x == f a then some a else rest

  pub named_lem :
      (f : A → String) (xs : List A) (x : String) {a : A} → named f xs x ≡ some a → x ≡ f a
  unfolding named
  named_lem f [] x h = cc
  named_lem f (b ∷ xs) x {a = a} h = ground (arith, eq_iff x (f b), named_lem f xs x {a = a})

  pub length-append : (xs ys : List A) → length (xs ++ ys) ≡ length xs + length ys
  length-append [] ys = omega arith
  length-append (x ∷ xs) ys = omega (arith, length-append xs ys)

module _ {ℓ κ} {A : Type ℓ} {B : Type κ} where
  pub length-map : (f : A → B) (xs : List A) → length (map f xs) ≡ length xs
  length-map f [] = refl
  length-map f (x ∷ xs) = ap suc (length-map f xs)

module _ {ℓ κ} {A : Type ℓ} (P : A → Type κ) where
  abbrev pub All : List A → Type κ
  All [] = Unit
  All (x ∷ xs) = P x × All xs

  pub All-append : (xs ys : List A) → All xs → All ys → All (xs ++ ys)
  All-append [] ys h k = k
  All-append (x ∷ xs) ys (p, h) k = (p, All-append xs ys h k)

  pub All-keep_if : (p : A → Bool) (xs : List A) → All xs → All (keep_if p xs)
  All-keep_if p [] h = tt
  All-keep_if p (x ∷ xs) (q, h) = ground (arith, All-keep_if p xs h)

module _ {ℓ κ} {A : Type ℓ} (P : A → Type κ) where
  -- What holds of the elements that are kept, holds of all that pass the test.
  pub All-of_keep_if :
      (p : A → Bool) (xs : List A) → All P (keep_if p xs) → All (λ x. p x ≡ true → P x) xs
  All-of_keep_if p [] h = tt
  All-of_keep_if p (x ∷ xs) h = elim (Bool-cases (p x)) [
    | inl e ↦
        let (q, r) = subst (λ b. All P (if b then x ∷ keep_if p xs else keep_if p xs)) e h in
        (λ _. q, All-of_keep_if p xs r)
    | inr e ↦
        let r = subst (λ b. All P (if b then x ∷ keep_if p xs else keep_if p xs)) e h in
        (λ t. absurd (ground arith), All-of_keep_if p xs r)
  ]

module _ {ℓ κ} {A : Type ℓ} {P : A → Type κ} where
  pub All-map {μ} : {Q : A → Type μ} (f : (a : A) → P a → Q a) (xs : List A) → All P xs → All Q xs
  All-map f [] h = tt
  All-map f (x ∷ xs) (p, h) = (f x p, All-map f xs h)

module _ {ℓ κ} {A : Type ℓ} (P Q : A → Type κ) where
  pub All-both : (xs : List A) → All P xs → All Q xs → All (λ a. P a × Q a) xs
  All-both [] h k = tt
  All-both (x ∷ xs) (p, h) (q, k) = ((p, q), All-both xs h k)

module _ {ℓ} {A : Type ℓ} where
  -- Elements that are kept are elements, and pass the test.
  pub keep_if-Mem :
      (p : A → Bool) (xs : List A) → All (λ x. Memᴰ x xs × (p x ≡ true)) (keep_if p xs)
  keep_if-Mem p [] = tt
  keep_if-Mem p (x ∷ xs) =
      let rest = All-map (λ y (m, q). (Memᴰ.tail m, q)) _ (keep_if-Mem p xs) in
      elim (Bool-cases (p x)) [ inl e ↦ rw e ((Memᴰ.head refl, e), rest) | inr e ↦ rw e rest ]
