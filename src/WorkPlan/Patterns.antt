-- ===== src/WorkPlan/Patterns.antt =====
-- The regular expressions of internal/projectworkplan/service.go, as matchers over the code points:
-- `refPattern` matches a whole text, `emailPattern` and `phonePattern` any part of one.
use Prim.Native.Char.{code}
use Prim.Native.String.{[], ◌∷◌, count}
use go_mivia.Base.{ℕ, zero, suc, String, Bool, true, false, ◌&&◌, ◌||◌, nat_eq, ◌==◌, leb}

unfoldable pub is_digit : ℕ → Bool
is_digit c = leb b'0' c && leb c b'9'

unfoldable pub is_letter : ℕ → Bool
is_letter c = leb b'a' c && leb c b'z' || leb b'A' c && leb c b'Z'

-- `[a-z]` under `(?i)`, which the long s and the Kelvin sign match too
is_folded_letter : ℕ → Bool
unfolding is_letter
is_folded_letter c = is_letter c || c == 0x17f || c == 0x212a

-- `[A-Za-z0-9._:/@+-]`
unfoldable pub is_ref_char : ℕ → Bool
unfolding is_letter is_digit
is_ref_char c =
    is_letter c
    || is_digit c
    || c == b'.'
    || c == b'_'
    || c == b':'
    || c == b'/'
    || c == b'@'
    || c == b'+'
    || c == b'-'

unfoldable pub all_codes : (ℕ → Bool) → String → Bool
all_codes p [] = true
all_codes p (c ∷ s) = p (code c) && all_codes p s

-- `^[A-Za-z0-9][A-Za-z0-9._:/@+-]{0,199}$`
unfoldable pub ref_pattern : String → Bool
unfolding is_letter is_digit all_codes is_ref_char
ref_pattern [] = false
ref_pattern (c ∷ s) =
    (is_letter (code c) || is_digit (code c)) && all_codes is_ref_char s && leb (count s) 199

-- `(?i)[a-z0-9._%+\-]+@[a-z0-9.\-]+\.[a-z]{2,}`
two_letters : String → Bool
unfolding is_folded_letter
two_letters (c ∷ d ∷ s) = is_folded_letter (code c) && is_folded_letter (code d)
two_letters _ = false

is_domain_char : ℕ → Bool
unfolding is_folded_letter is_digit
is_domain_char c = is_folded_letter c || is_digit c || c == b'.' || c == b'-'

-- `seen` tells whether a character of the domain stands before.
domain_matches : Bool → String → Bool
unfolding two_letters is_domain_char
domain_matches seen [] = false
domain_matches seen (c ∷ s) =
    seen && code c == b'.' && two_letters s || is_domain_char (code c) && domain_matches true s

is_user_char : ℕ → Bool
unfolding is_folded_letter is_digit
is_user_char c =
    is_folded_letter c
    || is_digit c
    || c == b'.'
    || c == b'_'
    || c == b'%'
    || c == b'+'
    || c == b'-'

email_from : Bool → String → Bool
unfolding domain_matches is_user_char
email_from user [] = false
email_from user (c ∷ s) =
    user && code c == b'@' && domain_matches false s || email_from (is_user_char (code c)) s

unfoldable pub email_matches : String → Bool
unfolding email_from
email_matches s = email_from false s

-- `\+?[0-9][0-9 .()\-]{7,}[0-9]`
is_phone_char : ℕ → Bool
unfolding is_digit
is_phone_char c = is_digit c || c == b' ' || c == b'.' || c == b'(' || c == b')' || c == b'-'

-- `more` characters are still needed before the last digit.
phone_tail : ℕ → String → Bool
unfolding is_digit is_phone_char
phone_tail more [] = false
phone_tail zero (c ∷ s) = is_digit (code c) || is_phone_char (code c) && phone_tail zero s
phone_tail (suc more) (c ∷ s) = is_phone_char (code c) && phone_tail more s

unfoldable pub phone_matches : String → Bool
unfolding is_digit phone_tail
phone_matches [] = false
phone_matches (c ∷ s) = is_digit (code c) && phone_tail 7 s || phone_matches s
