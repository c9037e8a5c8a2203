-- ===== src/Text.antt =====
-- The functions of Go's packages `strings`, `unicode` and `path/filepath` that the validators of
-- internal/projectworkplan call, over the code points of a text. A lowered text is only searched for
-- ASCII markers, so `to_lower` changes just the letters whose lower case is ASCII.
pub mod Laws
pub mod Order
pub mod Decimal
pub mod Affix
pub mod Path
use Prim.Native.Char.{Char, code}
use Prim.Native.String.{[], ◌∷◌, count}
use Prim.Native.String
use mathlib.Core.List.{reverse}
use go_mivia.Base.{
  nat_eq, ℕ, zero, suc, ◌-◌, ◌+◌, String, Bool, true, false, not, ◌&&◌, ◌||◌, List, [], ◌∷◌, leb,
  ◌==◌, if◌then◌else◌,
}

infixr 65 ◌⧺◌
abbrev pub ◌⧺◌ : String → String → String
s ⧺ t = String.◌++◌ s t

-- `unicode.IsSpace`
unfoldable pub is_space : ℕ → Bool
is_space c =
    leb 9 c && leb c 13
    || c == 32
    || c == 0x85
    || c == 0xa0
    || c == 0x1680
    || leb 0x2000 c && leb c 0x200a
    || c == 0x2028
    || c == 0x2029
    || c == 0x202f
    || c == 0x205f
    || c == 0x3000

abbrev pub is_blank : String → Bool
is_blank [] = true
is_blank (c ∷ s) = false

unfoldable pub trim_left : (ℕ → Bool) → String → String
trim_left p [] = ""
trim_left p (c ∷ s) = let rest = trim_left p s in if p (code c) then rest else c ∷ s

unfoldable pub trim_right : (ℕ → Bool) → String → String
trim_right p [] = ""
trim_right p (c ∷ s) =
    let rest = trim_right p s in if is_blank rest && p (code c) then "" else c ∷ rest

-- `strings.TrimFunc`, `strings.TrimSpace` and `strings.Trim`
unfoldable pub trim_func : (ℕ → Bool) → String → String
trim_func p s = trim_left p (trim_right p s)

unfoldable pub trim_space : String → String
unfolding trim_func trim_left trim_right is_space
trim_space s = trim_func is_space s

unfoldable pub has_code : String → ℕ → Bool
has_code [] n = false
has_code (c ∷ s) n = code c == n || has_code s n

unfoldable pub trim : String → String → String
unfolding has_code trim_func trim_left trim_right
trim s cutset = trim_func (has_code cutset) s

unfoldable pub has_prefix : String → String → Bool
has_prefix s [] = true
has_prefix [] (d ∷ t) = false
has_prefix (c ∷ s) (d ∷ t) = code c == code d && has_prefix s t

-- `strings.Contains`
unfoldable pub contains_text : String → String → Bool
unfolding has_prefix
contains_text [] t = has_prefix "" t
contains_text (c ∷ s) t = has_prefix (c ∷ s) t || contains_text s t

-- `strings.ReplaceAll` for a text `old` that is not empty: `skip` counts the characters of a match
-- that are still to be passed over.
replace_from : String → String → ℕ → String → String
replace_from old new skip [] = ""
replace_from old new (suc skip) (c ∷ s) = replace_from old new skip s
replace_from old new zero (c ∷ s) =
    let hit = has_prefix (c ∷ s) old in
    let rest = replace_from old new (if hit then count old - 1 else 0) s in
    if hit then new ⧺ rest else c ∷ rest

unfoldable pub replace_all : String → String → String → String
unfolding replace_from has_prefix
replace_all s old new = replace_from old new 0 s

-- `strings.Replace(s, old, new, 1)` for a text `old` that is not empty
unfoldable pub replace_first : String → String → String → String
unfolding has_prefix
replace_first [] old new = ""
replace_first (c ∷ s) old new =
    let rest = replace_first s old new in
    if has_prefix (c ∷ s) old
    then new ⧺ String.slice (c ∷ s) (String.len old) (String.len (c ∷ s))
    else c ∷ rest

abbrev lower_of : ℕ → Char → Char
lower_of n c = if n == 0x130 then "i" else if n == 0x212a then "k" else c

unfoldable pub is_upper : ℕ → Bool
is_upper n = leb b'A' n && leb n b'Z'

-- The lower-case letters by their place in the alphabet.
abbrev nth_letter : ℕ → String → Char → Char
nth_letter n [] d = d
nth_letter zero (c ∷ s) d = c
nth_letter (suc n) (c ∷ s) d = nth_letter n s d

unfoldable pub lower_char : Char → Char
unfolding is_upper
lower_char c =
    if is_upper (code c)
    then nth_letter (code c - b'A') "abcdefghijklmnopqrstuvwxyz" c
    else lower_of (code c) c

unfoldable pub to_lower : String → String
unfolding lower_char
to_lower [] = ""
to_lower (c ∷ s) = lower_char c ∷ to_lower s

-- `strings.Fields`: the runs of characters that are no white space
close_field : String → List String → List String
close_field [] fields = fields
close_field (c ∷ s) fields = (c ∷ s) ∷ fields

fields_from : String → String → List String → List String
fields_from [] cur done = reverse (close_field cur done)
fields_from (c ∷ s) cur done =
    let space = is_space (code c) in
    fields_from s (if space then "" else cur ⧺ (c ∷ ""))
      (if space then close_field cur done else done)

unfoldable pub fields : String → List String
unfolding close_field fields_from is_space
fields s = fields_from s "" []

-- `strings.Join`
unfoldable pub join : List String → String → String
join [] sep = ""
join (s ∷ []) sep = s
join (s ∷ t ∷ rest) sep = s ⧺ sep ⧺ join (t ∷ rest) sep

-- On Linux `filepath.IsAbs` tests for a leading slash, and `filepath.ToSlash` changes nothing.
unfoldable pub is_abs : String → Bool
unfolding has_prefix
is_abs s = has_prefix s "/"
