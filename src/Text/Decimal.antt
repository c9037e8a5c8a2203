-- ===== src/Text/Decimal.antt =====
-- The verb `%d` of Go's package `fmt`.
use go_mivia.Base.{ℕ, zero, suc, ◌%◌, ◌/◌, String, List, [], ◌∷◌, ltb, if◌then◌else◌}
use go_mivia.Text.{◌⧺◌}

-- the text at a position
text_at : List String → ℕ → String
text_at [] n = ""
text_at (x ∷ xs) zero = x
text_at (x ∷ xs) (suc n) = text_at xs n

abbrev digits : List String
digits = "0" ∷ "1" ∷ "2" ∷ "3" ∷ "4" ∷ "5" ∷ "6" ∷ "7" ∷ "8" ∷ "9" ∷ []

-- The decimal digits of a number below 10 ^ `fuel`, in front of `rest`.
decimal_from : ℕ → ℕ → String → String
decimal_from zero n rest = rest
decimal_from (suc fuel) n rest =
    let here = text_at digits (n % 10) ⧺ rest in
    let more = decimal_from fuel (n / 10) here in if ltb n 10 then here else more

-- `%d`
unfoldable pub decimal : ℕ → String
unfolding decimal_from text_at
decimal n = decimal_from (suc n) n ""
