-- ===== src/Text/Path/Laws.antt =====
-- The parts of a path and `Clean`.
use Prim.Native.Char.{Char, code}
use Prim.Native.String.{[], ◌∷◌}
use Prim.Native.String.append
use mathlib.Core.List.{append_assoc, append-nil}
use text.Mathlib.TextEquality.{eq_iff, Char-path}
use go_mivia.Base.{
  ℕ, String, ◌≡◌, ◌≢◌, refl, sym, ap, subst, ◌∙◌, Bool, true, false, not, ◌||◌, List, [], ◌∷◌, ◌++◌,
  nat_eq, string_eq, ◌==◌, all, arith, if◌then◌else◌, contains, Bool-cases, inl, inr, nat_beq_iff,
  if_ind,
}
use go_mivia.Text.{◌⧺◌, has_prefix, join, has_code}
use go_mivia.Text.Path.{put_first, split, clean_parts, clean}

-- A part that stays in a clean path.
abbrev pub is_proper : String → Bool
is_proper part = not (part == "" || part == "." || part == "..")

clean_parts-proper :
    (rooted : Bool) (done parts : List String)
    → all is_proper parts ≡ true
    → clean_parts rooted done parts ≡ done ++ parts
unfolding clean_parts
clean_parts-proper rooted done [] e = sym (append-nil done)
clean_parts-proper rooted done (part ∷ parts) e = ground (
  arith,
  clean_parts-proper rooted (done ++ part ∷ []) parts,
  append_assoc done (part ∷ []) parts,
)

join-put_first :
    (c : Char) (parts : List String) → join (put_first c parts) "/" ≡ c ∷ join parts "/"
unfolding join
join-put_first c [] = refl
join-put_first c (part ∷ []) = refl
join-put_first c (part ∷ next ∷ parts) = append.cons c part _

split-cons : (s : String) → (part : String) × (parts : List String) × (split s ≡ part ∷ parts)
unfolding split
split-cons [] = ("", [], refl)
split-cons (c ∷ s) =
    let (part, parts, e) = split-cons s in
    elim (Bool-cases (code c == b'/')) [
      | inl slash ↦ ("", part ∷ parts, ground (arith, slash, e))
      | inr other ↦ (c ∷ part, parts, ground (arith, other, e))
    ]

slash-append : (s : String) → "/" ⧺ s ≡ "/" ∷ s
slash-append s = append.cons "/" "" s ∙ ap (λ t. "/" ∷ t) (append.nil s)

join_slash :
    (parts : List String) (part : String) (rest : List String)
    → parts ≡ part ∷ rest
    → join ("" ∷ parts) "/" ≡ "/" ∷ join parts "/"
unfolding join
join_slash [] part rest e = cc
join_slash (first ∷ parts) part rest e =
    append.nil ("/" ⧺ join (first ∷ parts) "/") ∙ slash-append (join (first ∷ parts) "/")

is_slash : (c : Char) → (code c == b'/') ≡ true → "/" ≡ c
is_slash c e = Char-path "/" c (sym ((nat_beq_iff (code c) b'/').0 e))

-- The parts of a path, joined, are the path.
pub join-split : (s : String) → join (split s) "/" ≡ s
unfolding split join
join-split [] = refl
join-split (c ∷ s) =
    let (part, parts, e) = split-cons s in
    if_ind (λ ps. join ps "/" ≡ c ∷ s) (code c == b'/') ("" ∷ split s) (put_first c (split s))
      (λ slash.
        join_slash (split s) part parts e
        ∙ ap (λ d. d ∷ join (split s) "/") (is_slash c slash)
        ∙ ap (λ t. c ∷ t) (join-split s))
      (λ _. join-put_first c (split s) ∙ ap (λ t. c ∷ t) (join-split s))

not_blank : (s : String) → all is_proper (split s) ≡ true → s ≢ ""
unfolding split
not_blank [] proper e = cc
not_blank (c ∷ s) proper e = cc

pub proper-nonempty : (s : String) → all is_proper (split s) ≡ true → (s == "") ≡ false
proper-nonempty s proper = elim (Bool-cases (s == "")) [
  | inl e ↦ absurd (not_blank s proper ((eq_iff s "").0 e))
  | inr e ↦ e
]

cleaned_so : (out s : String) → out ≡ s → (s == "") ≡ false → (if out == "" then "." else out) ≡ s
cleaned_so out s e some_text =
    subst (λ t. (if t == "" then "." else t) ≡ s) (sym e) (ground (arith, some_text))

-- A path of proper parts is clean.
pub clean-proper :
    (s : String) → has_prefix s "/" ≡ false → all is_proper (split s) ≡ true → clean s ≡ s
unfolding clean
clean-proper s relative proper = rw relative (
    cleaned_so (join (clean_parts false [] (split s)) "/") s
      (ap (λ ps. join ps "/") (clean_parts-proper false [] (split s) proper) ∙ join-split s)
      (proper-nonempty s proper))

-- A path of proper parts does not start at the root.
pub has_prefix-proper : (s : String) → all is_proper (split s) ≡ true → has_prefix s "/" ≡ false
unfolding split has_prefix
has_prefix-proper [] proper = refl
has_prefix-proper (c ∷ s) proper = ground arith

module _ (n : ℕ) where
  -- No part has the character.
  abbrev lack : List String → Bool
  lack parts = all (λ part. not (has_code part n)) parts

  lack-put_first :
      (c : Char) (parts : List String)
      → (code c == n) ≡ false
      → lack parts ≡ true
      → lack (put_first c parts) ≡ true
  unfolding has_code
  lack-put_first c [] e h = ground arith
  lack-put_first c (part ∷ parts) e h = ground arith

  lack-split : (s : String) → has_code s n ≡ false → lack (split s) ≡ true
  unfolding split has_code
  lack-split [] e = refl
  lack-split (c ∷ s) e = ground (arith, lack-split s, lack-put_first c (split s))

  lack-append : (xs ys : List String) → lack xs ≡ true → lack ys ≡ true → lack (xs ++ ys) ≡ true
  lack-append [] ys h k = k
  lack-append (x ∷ xs) ys h k = ground (arith, lack-append xs ys)

  lack-clean_parts :
      (done parts : List String)
      → contains parts ".." ≡ false
      → lack done ≡ true
      → lack parts ≡ true
      → lack (clean_parts false done parts) ≡ true
  unfolding clean_parts
  lack-clean_parts done [] e h k = h
  lack-clean_parts done (part ∷ parts) e h k = ground (
    arith,
    eq_iff part "..",
    lack-clean_parts done parts,
    lack-clean_parts (done ++ part ∷ []) parts,
    lack-append done (part ∷ []),
  )

  has_code-append : (s t : String) → has_code (s ⧺ t) n ≡ (has_code s n || has_code t n)
  unfolding has_code
  has_code-append [] t = ap (λ u. has_code u n) (append.nil t)
  has_code-append (c ∷ s) t =
      ap (λ u. has_code u n) (append.cons c s t) ∙ ground (arith, has_code-append s t)

  lack-join :
      (parts : List String)
      → has_code "/" n ≡ false
      → lack parts ≡ true
      → has_code (join parts "/") n ≡ false
  unfolding join has_code
  lack-join [] e h = refl
  lack-join (part ∷ []) e h = ground arith
  lack-join (part ∷ next ∷ parts) e h = ground (
    arith,
    has_code-append part ("/" ⧺ join (next ∷ parts) "/"),
    has_code-append "/" (join (next ∷ parts) "/"),
    lack-join (next ∷ parts),
  )

  -- `Clean` brings no character into a relative path without `..` but slashes and the dot of the empty
  -- path.
  pub has_code-clean :
      (s : String)
      → has_prefix s "/" ≡ false
      → contains (split s) ".." ≡ false
      → has_code "/" n ≡ false
      → has_code "." n ≡ false
      → has_code s n ≡ false
      → has_code (clean s) n ≡ false
  unfolding clean
  has_code-clean s relative level slash dot lacks = rw relative (
      if_ind (λ t. has_code t n ≡ false) (join (clean_parts false [] (split s)) "/" == "") "."
        (join (clean_parts false [] (split s)) "/") (λ _. dot)
        (λ _.
          lack-join (clean_parts false [] (split s)) slash
            (lack-clean_parts [] (split s) level refl (lack-split s lacks))))
