-- ===== src/WorkPlan/Safe/Laws.antt =====
-- The values that the validators accept.
use Prim.Native.Char.{code}
use Prim.Native.String.{[], ◌∷◌, count, len}
use Prim.Native.String.count
use text.Mathlib.TextEquality.{eq_iff}
use go_mivia.Base.{
  ℕ, ◌≤◌, String, ◌≡◌, ◌≢◌, ◌↔◌, ◌⊎◌, Bool, true, false, ◌||◌, List, [], ◌∷◌, arith, nat_eq,
  string_eq, length,
}
use go_mivia.Base.Result.{ok}
use go_mivia.Text.{trim_space, contains_text, has_prefix}
use go_mivia.Text.Laws.{trim_space_idem}
use go_mivia.WorkPlan.Patterns.{ref_pattern, is_ref_char, all_codes, is_letter, is_digit}
use go_mivia.WorkPlan.Safe.{
  is_unsafe_ref, safe_ref, safe_optional_ref, safe_text_content, safe_optional_text,
  assess_decomposition,
}

-- An accepted reference is the given text without the white space round it, is not empty, passes the
-- checks, and passes them again unchanged, under any name.
pub record IsSafeRef (r : String) : Type 0 where
  pub present : r ≢ ""
  pub trimmed : trim_space r ≡ r
  pub passes : is_unsafe_ref r ≡ false

pub safe_ref-IsSafeRef : (v name : String) {r : String} → safe_ref v name ≡ ok r → IsSafeRef r
unfolding safe_ref
safe_ref-IsSafeRef v name h = ground (arith, eq_iff (trim_space v) "", trim_space_idem v)

pub safe_ref_of_IsSafeRef : (r name : String) → IsSafeRef r → safe_ref r name ≡ ok r
unfolding safe_ref
safe_ref_of_IsSafeRef r name h = ground (arith, eq_iff (trim_space r) "", h.trimmed)

-- A reference that was accepted is accepted again unchanged, under any name.
pub safe_ref_idem :
    (v name other : String) {r : String} → safe_ref v name ≡ ok r → safe_ref r other ≡ ok r
safe_ref_idem v name other h = safe_ref_of_IsSafeRef _ other (safe_ref-IsSafeRef v name h)

abbrev pub AllCodes : (ℕ → Type 0) → String → Type 0
AllCodes P [] = Unit
AllCodes P (c ∷ s) = P (code c) × AllCodes P s

all_codes-AllCodes :
    (p : ℕ → Bool) (s : String) → all_codes p s ≡ true → AllCodes (λ n. p n ≡ true) s
unfolding all_codes
all_codes-AllCodes p [] h = tt
all_codes-AllCodes p (c ∷ s) h = ground (arith, all_codes-AllCodes p s)

head_is_ref_char : (n : ℕ) → is_letter n || is_digit n ≡ true → is_ref_char n ≡ true
unfolding is_ref_char
head_is_ref_char n h = ground arith

pattern-bounds :
    (r : String) → ref_pattern r ≡ true → AllCodes (λ n. is_ref_char n ≡ true) r × (count r ≤ 200)
unfolding ref_pattern
pattern-bounds [] h = cc
pattern-bounds (c ∷ s) h =
    ground (arith, count.cons c s, head_is_ref_char (code c), all_codes-AllCodes is_ref_char s)

unsafe_parts :
    (r : String)
    → is_unsafe_ref r ≡ false
    → (ref_pattern r ≡ true) × (contains_text r ".." ≡ false) × (has_prefix r "/" ≡ false)
unfolding is_unsafe_ref
unsafe_parts r h = ground arith

-- A reference that is accepted is not empty, has only the characters of the pattern and at most 200
-- of them, does not climb by two dots and does not start at the root.
pub safe_ref_shape :
    (v name : String) {r : String}
    → safe_ref v name ≡ ok r
    → (r ≢ "")
      × AllCodes (λ n. is_ref_char n ≡ true) r
      × (count r ≤ 200)
      × (contains_text r ".." ≡ false)
      × (has_prefix r "/" ≡ false)
safe_ref_shape v name {r} h =
    let s = safe_ref-IsSafeRef v name h in
    let (p, dots, slash) = unsafe_parts r s.passes in
    let (codes, size) = pattern-bounds r p in (s.present, codes, size, dots, slash)

-- A text that is accepted within a bound has at most that many bytes, and is accepted again
-- unchanged within it, under any name.
pub safe_optional_text_idem :
    (v name other : String) (max : ℕ) {t : String}
    → safe_optional_text v name max ≡ ok t
    → (len t ≤ max) × (safe_optional_text t other max ≡ ok t)
unfolding safe_optional_text safe_text_content
safe_optional_text_idem v name other max h = ground (arith, trim_space_idem v)

-- A task is assessed as ready exactly when its description has evidence, context or files, a
-- verification, a way to resume, an expected output and a failure criterion, and names at most
-- eight files.
pub assess_decomposition_iff :
    (evidence context_refs files : List String) (verify expected failure resume : String)
    → (assess_decomposition evidence context_refs files verify expected failure resume ≡ "ready")
      ↔ (evidence ≢ [])
        × ((context_refs ≢ []) ⊎ (files ≢ []))
        × (trim_space verify ≢ "")
        × (trim_space resume ≢ "")
        × (trim_space expected ≢ "")
        × (trim_space failure ≢ "")
        × (length files ≤ 8)
unfolding assess_decomposition
assess_decomposition_iff evidence context_refs files verify expected failure resume = (
  λ h. ground (
    arith,
    eq_iff "missing_evidence" "ready",
    eq_iff "missing_context" "ready",
    eq_iff "missing_verification" "ready",
    eq_iff "missing_resume" "ready",
    eq_iff "draft" "ready",
    eq_iff "too_broad" "ready",
    eq_iff (trim_space verify) "",
    eq_iff (trim_space resume) "",
    eq_iff (trim_space expected) "",
    eq_iff (trim_space failure) "",
  ),
  λ h. ground (
    arith,
    eq_iff (trim_space verify) "",
    eq_iff (trim_space resume) "",
    eq_iff (trim_space expected) "",
    eq_iff (trim_space failure) "",
  ),
)

pub safe_optional_ref-trims :
    (v name : String) {r : String} → safe_optional_ref v name ≡ ok r → r ≡ trim_space v
unfolding safe_optional_ref safe_ref
safe_optional_ref-trims v name h = ground (arith, eq_iff (trim_space v) "", trim_space_idem v)
