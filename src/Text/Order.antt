-- ===== src/Text/Order.antt =====
-- The order of `sort.Strings`: by bytes, which for UTF-8 is by code points.
use Prim.Native.Char.{code}
use Prim.Native.String.{[], ◌∷◌}
use text.Mathlib.TextEquality.{Char-path}
use go_mivia.Base.{nat_eq, String, ◌≡◌, refl, Bool, true, false, ◌&&◌, ◌||◌, List, arith, ltb, ◌==◌}
use go_mivia.Base.Sort.{sort_by}

unfoldable pub str_ltb : String → String → Bool
str_ltb [] [] = false
str_ltb [] (d ∷ t) = true
str_ltb (c ∷ s) [] = false
str_ltb (c ∷ s) (d ∷ t) = ltb (code c) (code d) || code c == code d && str_ltb s t

unfoldable pub sort_strings : List String → List String
unfolding sort_by str_ltb
sort_strings xs = sort_by str_ltb xs

pub str_ltb_irrefl : (s : String) → str_ltb s s ≡ false
unfolding str_ltb
str_ltb_irrefl [] = refl
str_ltb_irrefl (c ∷ s) = ground (arith, str_ltb_irrefl s)

pub str_ltb_asym : (s t : String) → str_ltb s t ≡ true → str_ltb t s ≡ false
unfolding str_ltb
str_ltb_asym [] [] h = refl
str_ltb_asym [] (d ∷ t) h = refl
str_ltb_asym (c ∷ s) [] h = cc
str_ltb_asym (c ∷ s) (d ∷ t) h = ground (arith, str_ltb_asym s t)

pub str_ltb_not_trans :
    (s t u : String) → str_ltb t s ≡ false → str_ltb u t ≡ false → str_ltb u s ≡ false
unfolding str_ltb
str_ltb_not_trans [] [] [] h k = refl
str_ltb_not_trans [] [] (e ∷ u) h k = refl
str_ltb_not_trans [] (d ∷ t) [] h k = cc
str_ltb_not_trans [] (d ∷ t) (e ∷ u) h k = refl
str_ltb_not_trans (c ∷ s) [] u h k = cc
str_ltb_not_trans (c ∷ s) (d ∷ t) [] h k = cc
str_ltb_not_trans (c ∷ s) (d ∷ t) (e ∷ u) h k = ground (arith, str_ltb_not_trans s t u)

-- Two texts neither of which comes first are one.
pub str_ltb_total : (s t : String) → str_ltb s t ≡ false → str_ltb t s ≡ false → s ≡ t
unfolding str_ltb
str_ltb_total [] [] h k = refl
str_ltb_total [] (d ∷ t) h k = cc
str_ltb_total (c ∷ s) [] h k = cc
str_ltb_total (c ∷ s) (d ∷ t) h k = ground (arith, Char-path c d, str_ltb_total s t)
