-- ===== src/Chain/Run/Reason.antt =====
-- The reason that a blocked run keeps of an error: its characters and its length.
use Prim.Native.Char.{Char, code, len_utf8, len_utf8_def}
use Prim.Native.String.append
use Prim.Native.String.len
use Prim.Native.String.{[], ◌∷◌, len}
use text.Mathlib.TextPositions.{len-append}
use go_mivia.Base.{
  ℕ, suc, ◌≤◌, String, ◌≡◌, refl, ap, ◌∙◌, Bool, true, false, ◌&&◌, arith, if◌then◌else◌, if_ind,
  leb, string_eq, ◌==◌,
}
use go_mivia.Base.Result.{Error}
use go_mivia.Text.{
  has_code, to_lower, trim_space, ◌⧺◌, is_blank, trim_left, trim_right, trim_func, trim,
}
use go_mivia.WorkPlan.Patterns.{all_codes}
use go_mivia.Chain.Run.{is_kept, error_text, write_char, write_chars, git_ops_blocked_reason}

is_kept-len : (c : Char) → is_kept (code c) ≡ true → len_utf8 c ≡ 1
unfolding is_kept
is_kept-len c h = ground (arith, len_utf8_def c)

all_codes-append :
    (p : ℕ → Bool) (s t : String) → all_codes p (s ⧺ t) ≡ (all_codes p s && all_codes p t)
unfolding all_codes
all_codes-append p [] t = ap (all_codes p) (append.nil t)
all_codes-append p (c ∷ s) t =
    ap (all_codes p) (append.cons c s t) ∙ ground (arith, all_codes-append p s t)

trim_right_step :
    (c : Char) (b : Bool) (r s : String)
    → len r ≤ len s
    → len (if b then "" else c ∷ r) ≤ len (c ∷ s)
trim_right_step c true r s h = omega (arith, len.nil)
trim_right_step c false r s h = omega (arith, len.cons c s, len.cons c r, h)

module _ (p : ℕ → Bool) (q : ℕ → Bool) where
  trim_left-all : (s : String) → all_codes p s ≡ true → all_codes p (trim_left q s) ≡ true
  unfolding trim_left all_codes
  trim_left-all [] h = refl
  trim_left-all (c ∷ s) h = ground (arith, trim_left-all s)

  trim_right-all : (s : String) → all_codes p s ≡ true → all_codes p (trim_right q s) ≡ true
  unfolding trim_right all_codes
  trim_right-all [] h = refl
  trim_right-all (c ∷ s) h = ground (arith, trim_right-all s)

  trim_left-len : (s : String) → len (trim_left q s) ≤ len s
  unfolding trim_left
  trim_left-len [] = omega arith
  trim_left-len (c ∷ s) = ground (arith, trim_left-len s, len.cons c s)

  trim_right-len : (s : String) → len (trim_right q s) ≤ len s
  unfolding trim_right
  trim_right-len [] = omega arith
  trim_right-len (c ∷ s) =
      trim_right_step c (is_blank (trim_right q s) && q (code c)) (trim_right q s) s
        (trim_right-len s)

module _ (p : ℕ → Bool) where
  trim-all : (s cutset : String) → all_codes p s ≡ true → all_codes p (trim s cutset) ≡ true
  unfolding trim trim_func
  trim-all s cutset h =
      trim_left-all p (has_code cutset) (trim_right (has_code cutset) s)
        (trim_right-all p (has_code cutset) s h)

trim-len : (s cutset : String) → len (trim s cutset) ≤ len s
unfolding trim trim_func
trim-len s cutset = omega (
  arith,
  trim_left-len is_kept (has_code cutset) (trim_right (has_code cutset) s),
  trim_right-len is_kept (has_code cutset) s,
)

-- A text of kept characters of at most this many bytes.
abbrev IsShort : ℕ → String → Type 0
IsShort n s = (all_codes is_kept s ≡ true) × (len s ≤ n)

add_char :
    (n : ℕ) (c : Char) (s : String)
    → is_kept (code c) ≡ true
    → IsShort n s
    → IsShort (suc n) (s ⧺ c ∷ "")
unfolding all_codes
add_char n c s kept (all_kept, short) = (
  ground (arith, all_codes-append is_kept s (c ∷ "")),
  omega (arith, len-append s (c ∷ ""), len.cons c "", len.nil, is_kept-len c kept),
)

is_kept-mark : is_kept (code "_") ≡ true
unfolding is_kept
is_kept-mark = refl

write_char-IsShort :
    (n : ℕ) (c : Char) (s : String) → IsShort n s → IsShort (suc n) (write_char c s)
unfolding write_char
write_char-IsShort n c s short =
    if_ind (IsShort (suc n)) (is_kept (code c)) _ _ (λ kept. add_char n c s kept short)
      (λ _.
        if_ind (IsShort (suc n)) _ _ _ (λ _. add_char n "_" s is_kept-mark short)
          (λ _. (short.0, omega (arith, short.1))))

-- What is written before the loop ends is shorter than 80 bytes.
write_chars-IsShort : (s built : String) → IsShort 79 built → IsShort 80 (write_chars s built)
unfolding write_chars
write_chars-IsShort [] built short = (short.0, omega (arith, short.1))
write_chars-IsShort (c ∷ s) built short =
    let next = write_char-IsShort 79 c built short in
    if_ind (IsShort 80) (leb 80 (len (write_char c built))) _ _ (λ _. next)
      (λ e. write_chars-IsShort s (write_char c built) (next.0, ground arith))

all_codes-nil : (p : ℕ → Bool) → all_codes p "" ≡ true
unfolding all_codes
all_codes-nil p = refl

head_kept : all_codes is_kept "gitops_finalize_failed_" ≡ true
unfolding all_codes is_kept
head_kept = refl

abbrev no_reason : String
no_reason = "gitops_finalize_failed"

no_reason-IsShort : IsShort 103 no_reason
unfolding all_codes is_kept
no_reason-IsShort = (refl, omega arith)

-- The reason that a blocked run keeps of an error has at most 103 bytes and only small letters,
-- digits, `_` and `-`, whatever the error says.
pub git_ops_blocked_reason-IsShort :
    (problem : Error)
    → (all_codes is_kept (git_ops_blocked_reason problem) ≡ true)
      × (len (git_ops_blocked_reason problem) ≤ 103)
unfolding git_ops_blocked_reason
git_ops_blocked_reason-IsShort problem =
    let reason = to_lower (trim_space (error_text problem)) in
    let written = write_chars-IsShort reason "" (all_codes-nil is_kept, omega (arith, len.nil)) in
    let safe = trim (write_chars reason "") "_-" in
    if_ind (IsShort 103) (safe == "") _ _ (λ _. no_reason-IsShort)
      (λ _. (
        ground (
          arith,
          head_kept,
          all_codes-append is_kept "gitops_finalize_failed_" safe,
          trim-all is_kept (write_chars reason "") "_-" written.0,
        ),
        omega (
          arith,
          len-append "gitops_finalize_failed_" safe,
          trim-len (write_chars reason "") "_-",
          written.1,
        ),
      ))
