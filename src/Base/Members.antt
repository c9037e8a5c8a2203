-- ===== src/Base/Members.antt =====
-- Membership as a Boolean test: predicates on the members, and lists of different texts.
use Prim.Native.Nat.{suc, ◌≤◌}
use Prim.Native.String.{String}
use mathlib.Core.Path.{◌≡◌, subst}
use mathlib.Core.Bool.{true, false}
use mathlib.Core.Logic.{inl, inr}
use mathlib.Core.List.{List, [], ◌∷◌}
use text.Mathlib.TextEquality.{eq_iff}
use native.Mathlib.Omega.{arith}
use go_mivia.Base.Tests.{string_eq, ◌==◌, Bool-cases, if◌then◌else◌}
use go_mivia.Base.Lists.{All, contains, length}

module _ {ℓ} (P : String → Type ℓ) where
  pub All-contains : (xs : List String) (x : String) → All P xs → contains xs x ≡ true → P x
  All-contains [] x h e = cc
  All-contains (y ∷ ys) x (p, h) e = elim (Bool-cases (y == x)) [
    | inl same ↦ subst P ((eq_iff y x).0 same) p
    | inr other ↦ All-contains ys x h (ground arith)
  ]

  pub All-of_contains : (xs : List String) → ((x : String) → contains xs x ≡ true → P x) → All P xs
  All-of_contains [] h = tt
  All-of_contains (y ∷ ys) h =
      (h y (ground (arith, eq_iff y y)), All-of_contains ys λ x e. h x (ground arith))

-- All members of `xs` are members of `ys`.
abbrev pub IsWithin : List String → List String → Type 0
IsWithin ys = All λ x. contains ys x ≡ true

pub All-within {ℓ} :
    (P : String → Type ℓ) (xs ys : List String) → IsWithin ys xs → All P ys → All P xs
All-within P [] ys w h = tt
All-within P (x ∷ xs) ys (p, w) h = (All-contains P ys x h p, All-within P xs ys w h)

pub IsWithin-cons : (y : String) (ys xs : List String) → IsWithin ys xs → IsWithin (y ∷ ys) xs
IsWithin-cons y ys [] h = tt
IsWithin-cons y ys (x ∷ xs) (p, h) = (ground arith, IsWithin-cons y ys xs h)

pub IsWithin-refl : (xs : List String) → IsWithin xs xs
IsWithin-refl [] = tt
IsWithin-refl (x ∷ xs) = (ground (arith, eq_iff x x), IsWithin-cons x xs xs (IsWithin-refl xs))

pub IsWithin-trans : (xs ys zs : List String) → IsWithin ys xs → IsWithin zs ys → IsWithin zs xs
IsWithin-trans [] ys zs h k = tt
IsWithin-trans (x ∷ xs) ys zs (p, h) k =
    (All-contains (λ z. contains zs z ≡ true) ys x k p, IsWithin-trans xs ys zs h k)

abbrev pub IsDistinct : List String → Type 0
IsDistinct [] = Unit
IsDistinct (x ∷ xs) = (contains xs x ≡ false) × IsDistinct xs

-- The list without the first occurrence.
abbrev without : String → List String → List String
without x [] = []
without x (y ∷ ys) = let rest = without x ys in if y == x then ys else y ∷ rest

length-without :
    (x : String) (ys : List String) → contains ys x ≡ true → suc (length (without x ys)) ≡ length ys
length-without x [] h = cc
length-without x (y ∷ ys) h = ground (arith, length-without x ys)

contains-without :
    (x z : String) (ys : List String)
    → (x == z) ≡ false
    → contains ys z ≡ true
    → contains (without x ys) z ≡ true
contains-without x z [] h k = cc
contains-without x z (y ∷ ys) h k =
    ground (arith, eq_iff x z, eq_iff y z, eq_iff y x, contains-without x z ys)

IsWithin-without :
    (x : String) (xs ys : List String)
    → contains xs x ≡ false
    → IsWithin ys xs
    → IsWithin (without x ys) xs
IsWithin-without x [] ys new h = tt
IsWithin-without x (z ∷ zs) ys new (p, h) = (
  contains-without x z ys (ground (arith, eq_iff x z, eq_iff z x)) p,
  IsWithin-without x zs ys (ground arith) h,
)

-- Different members of a list are no more than the list is long.
pub length-IsDistinct :
    (xs ys : List String) → IsDistinct xs → IsWithin ys xs → length xs ≤ length ys
length-IsDistinct [] ys d h = omega arith
length-IsDistinct (x ∷ xs) ys (new, d) (p, h) = omega (
  arith,
  length-without x ys p,
  length-IsDistinct xs (without x ys) d (IsWithin-without x xs ys new h),
)
