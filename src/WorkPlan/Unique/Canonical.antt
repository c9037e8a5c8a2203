-- ===== src/WorkPlan/Unique/Canonical.antt =====
-- `unique` as a canonical form of sets of texts.
use text.Mathlib.TextEquality.{eq_iff}
use go_mivia.Base.{
  String, ◌≡◌, ◌≢◌, refl, sym, ap, ◌∙◌, true, false, not, ◌&&◌, ◌||◌, List, [], ◌∷◌, ◌++◌, arith,
  string_eq, ◌==◌, contains, All, Bool-cases, inl, inr,
}
use go_mivia.Base.Sort.{sort_by, insert_by, All-insert_by, contains-sort_by}
use go_mivia.Text.Order.{
  str_ltb, sort_strings, str_ltb_asym, str_ltb_not_trans, str_ltb_total, str_ltb_irrefl,
}
use go_mivia.WorkPlan.Unique.{unique_from, unique, append_unique}

-- Each text comes before all behind it, so none stands twice.
abbrev pub IsStrict : List String → Type 0
IsStrict [] = Unit
IsStrict (x ∷ xs) = All (λ z. str_ltb x z ≡ true) xs × IsStrict xs

abbrev NoDup : List String → Type 0
NoDup [] = Unit
NoDup (x ∷ xs) = (contains xs x ≡ false) × NoDup xs

contains-unique_from :
    (seen xs : List String) (a : String)
    → contains (unique_from seen xs) a ≡ contains xs a && not (a == "") && not (contains seen a)
unfolding unique_from
contains-unique_from seen [] a = refl
contains-unique_from seen (x ∷ xs) a = ground (
  arith,
  eq_iff x a,
  eq_iff x "",
  eq_iff a "",
  contains-unique_from seen xs a,
  contains-unique_from (x ∷ seen) xs a,
)

-- A text is in the result exactly when it is in the list and is not empty.
pub contains-unique :
    (xs : List String) (a : String) → contains (unique xs) a ≡ contains xs a && not (a == "")
unfolding unique sort_strings
contains-unique xs a =
    ground (arith, contains-sort_by str_ltb (unique_from [] xs) a, contains-unique_from [] xs a)

NoDup-unique_from : (seen xs : List String) → NoDup (unique_from seen xs)
unfolding unique_from
NoDup-unique_from seen [] = tt
NoDup-unique_from seen (x ∷ xs) = ground (
  arith,
  NoDup-unique_from seen xs,
  NoDup-unique_from (x ∷ seen) xs,
  contains-unique_from (x ∷ seen) xs x,
  eq_iff x x,
)

str_ltb_trans : (s t u : String) → str_ltb s t ≡ true → str_ltb t u ≡ true → str_ltb s u ≡ true
str_ltb_trans s t u h k = ground (arith, str_ltb_not_trans t u s, str_ltb_asym t u)

All-str_ltb :
    (x y : String) (ys : List String)
    → str_ltb x y ≡ true
    → All (λ z. str_ltb y z ≡ true) ys
    → All (λ z. str_ltb x z ≡ true) ys
All-str_ltb x y [] p h = tt
All-str_ltb x y (z ∷ zs) p (q, h) = (str_ltb_trans x y z p q, All-str_ltb x y zs p h)

IsStrict-insert_by :
    (x : String) (ys : List String)
    → contains ys x ≡ false
    → IsStrict ys
    → IsStrict (insert_by str_ltb x ys)
unfolding insert_by
IsStrict-insert_by x [] n h = (tt, tt)
IsStrict-insert_by x (y ∷ ys) n (h, s) = elim (Bool-cases (str_ltb y x)) [
  | inl e ↦ rw e (
    All-insert_by str_ltb (λ z. str_ltb y z ≡ true) x ys e h,
    IsStrict-insert_by x ys (ground arith) s,
  )
  | inr e ↦
      let p : str_ltb x y ≡ true = ground (arith, str_ltb_total x y, eq_iff y x) in
      rw e ((p, All-str_ltb x y ys p h), (h, s))
]

IsStrict-sort_by : (xs : List String) → NoDup xs → IsStrict (sort_by str_ltb xs)
unfolding sort_by
IsStrict-sort_by [] h = tt
IsStrict-sort_by (x ∷ xs) (n, h) =
    IsStrict-insert_by x (sort_by str_ltb xs) (contains-sort_by str_ltb xs x ∙ n)
      (IsStrict-sort_by xs h)

-- The result of `unique` is strictly ascending, for any list.
pub unique-IsStrict : (xs : List String) → IsStrict (unique xs)
unfolding unique sort_strings
unique-IsStrict xs = IsStrict-sort_by (unique_from [] xs) (NoDup-unique_from [] xs)

below-All :
    (x y : String) (ys : List String)
    → All (λ z. str_ltb y z ≡ true) ys
    → contains ys x ≡ true
    → str_ltb y x ≡ true
below-All x y [] h c = cc
below-All x y (z ∷ zs) (p, h) c = ground (arith, below-All x y zs h, eq_iff z x)

abbrev SameTexts : List String → List String → Type 0
SameTexts xs ys = (a : String) → contains xs a ≡ contains ys a

heads_agree :
    (x y : String) (xs ys : List String)
    → IsStrict (x ∷ xs)
    → IsStrict (y ∷ ys)
    → SameTexts (x ∷ xs) (y ∷ ys)
    → x ≡ y
heads_agree x y xs ys (h, s) (k, t) same = ground (
  arith,
  same x,
  same y,
  eq_iff x x,
  eq_iff y y,
  eq_iff x y,
  eq_iff y x,
  below-All x y ys k,
  below-All y x xs h,
  str_ltb_asym x y,
)

tails_agree :
    (x y : String) (xs ys : List String)
    → x ≡ y
    → IsStrict (x ∷ xs)
    → IsStrict (y ∷ ys)
    → SameTexts (x ∷ xs) (y ∷ ys)
    → SameTexts xs ys
tails_agree x y xs ys e (h, s) (k, t) same a = ground (
  arith,
  same a,
  eq_iff x a,
  eq_iff y a,
  below-All a x xs h,
  below-All a y ys k,
  str_ltb_irrefl x,
)

-- A strictly sorted list is determined by its texts.
IsStrict-ext : (xs ys : List String) → IsStrict xs → IsStrict ys → SameTexts xs ys → xs ≡ ys
IsStrict-ext [] [] h k same = refl
IsStrict-ext [] (y ∷ ys) h k same = ground (arith, same y, eq_iff y y)
IsStrict-ext (x ∷ xs) [] h k same = ground (arith, same x, eq_iff x x)
IsStrict-ext (x ∷ xs) (y ∷ ys) h k same =
    let e = heads_agree x y xs ys h k same in
    cc (e, IsStrict-ext xs ys h.1 k.1 (tails_agree x y xs ys e h k same))

-- `unique` is a canonical form of sets of texts: two lists with the same texts, the empty one
-- apart, have one result.
pub unique-ext :
    (xs ys : List String)
    → ((a : String) → contains xs a && not (a == "") ≡ contains ys a && not (a == ""))
    → unique xs ≡ unique ys
unique-ext xs ys same =
    IsStrict-ext (unique xs) (unique ys) (unique-IsStrict xs) (unique-IsStrict ys)
      (λ a. contains-unique xs a ∙ same a ∙ sym (contains-unique ys a))

contains-append :
    (xs ys : List String) (a : String) → contains (xs ++ ys) a ≡ contains xs a || contains ys a
contains-append [] ys a = refl
contains-append (x ∷ xs) ys a = ground (arith, contains-append xs ys a)

pub contains-append_unique :
    (xs : List String) (x a : String)
    → contains (append_unique xs x) a ≡ (contains xs a || x == a) && not (a == "")
unfolding append_unique
contains-append_unique xs x a =
    ground (arith, contains-unique (xs ++ x ∷ []) a, contains-append xs (x ∷ []) a)

-- Two references that are added to a list leave the same list in either order.
pub append_unique_comm :
    (xs : List String) (x y : String)
    → append_unique (append_unique xs x) y ≡ append_unique (append_unique xs y) x
append_unique_comm xs x y =
    IsStrict-ext _ _ (strict (append_unique xs x) y) (strict (append_unique xs y) x) λ a. ground (
      arith,
      contains-append_unique xs x a,
      contains-append_unique xs y a,
      contains-append_unique (append_unique xs x) y a,
      contains-append_unique (append_unique xs y) x a,
    )
  where
    strict : (zs : List String) (z : String) → IsStrict (append_unique zs z)
    strict zs z = unfold append_unique in unique-IsStrict (zs ++ z ∷ [])

-- Adding a reference that a list of `unique` holds changes nothing.
pub append_unique_idem :
    (xs : List String) (x : String) → append_unique (append_unique xs x) x ≡ append_unique xs x
append_unique_idem xs x = IsStrict-ext _ _ (strict (append_unique xs x)) (strict xs) λ a.
    ground (arith, contains-append_unique xs x a, contains-append_unique (append_unique xs x) x a)
  where
    strict : (zs : List String) → IsStrict (append_unique zs x)
    strict zs = unfold append_unique in unique-IsStrict (zs ++ x ∷ [])

pub append_unique-ne_nil : (xs : List String) (x : String) → x ≢ "" → append_unique xs x ≢ []
append_unique-ne_nil xs x n e =
    ground
      (arith, contains-append_unique xs x x, eq_iff x x, eq_iff x "", ap (λ ys. contains ys x) e)
