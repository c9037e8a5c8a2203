-- ===== src/Text/Affix.antt =====
-- The functions of Go's package `strings` on the ends of a text, and `ToUpper`. An upper text is only
-- matched with ASCII patterns, so `to_upper` changes just the letters whose upper case is ASCII.
use Prim.Native.Char.{Char, code}
use Prim.Native.String.{[], ◌∷◌}
use Prim.Native.String
use go_mivia.Base.{
  ℕ, zero, suc, ◌-◌, String, Bool, ◌&&◌, ◌||◌, nat_eq, string_eq, ◌==◌, leb, if◌then◌else◌,
}
use go_mivia.Text.{has_prefix}

-- `strings.HasSuffix`
unfoldable pub has_suffix : String → String → Bool
has_suffix [] t = t == ""
has_suffix (c ∷ s) t = c ∷ s == t || has_suffix s t

-- `strings.TrimPrefix`
unfoldable pub trim_prefix : String → String → String
unfolding has_prefix
trim_prefix s t = if has_prefix s t then String.slice s (String.len t) (String.len s) else s

-- `strings.TrimSuffix`
unfoldable pub trim_suffix : String → String → String
unfolding has_suffix
trim_suffix s t = if has_suffix s t then String.slice s 0 (String.len s - String.len t) else s

abbrev nth_upper : ℕ → String → Char → Char
nth_upper n [] d = d
nth_upper zero (c ∷ s) d = c
nth_upper (suc n) (c ∷ s) d = nth_upper n s d

-- The dotless i and the long s have upper cases in ASCII.
abbrev upper_of : ℕ → Char → Char
upper_of n c = if n == 0x131 then "I" else if n == 0x17f then "S" else c

unfoldable pub upper_char : Char → Char
upper_char c =
    if leb b'a' (code c) && leb (code c) b'z'
    then nth_upper (code c - b'a') "ABCDEFGHIJKLMNOPQRSTUVWXYZ" c
    else upper_of (code c) c

unfoldable pub to_upper : String → String
unfolding upper_char
to_upper [] = ""
to_upper (c ∷ s) = upper_char c ∷ to_upper s
