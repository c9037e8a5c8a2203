-- ===== src/WorkPlan/Memory/Keys.antt =====
-- The keys of the store in memory, which join references by a zero byte.
use Prim.Native.Char.{code, nul}
use Prim.Native.String.{[], ◌∷◌}
use text.Mathlib.TextEquality.{eq_iff}
use text.Mathlib.TextLemmas.{nil-append, cons-append}
use go_mivia.Base.{ℕ, String, ◌≡◌, ◌≢◌, refl, ap, true, false, arith, nat_eq, string_eq, ◌==◌}
use go_mivia.Base.Result.{ok}
use go_mivia.WorkPlan.Patterns.{is_ref_char}
use go_mivia.WorkPlan.Safe.{safe_ref}
use go_mivia.WorkPlan.Safe.Laws.{AllCodes, safe_ref_shape}
use go_mivia.WorkPlan.Store.{NoNul}
use go_mivia.WorkPlan.Memory.{pair_key}

ref_char-ne-nul : (n : ℕ) → is_ref_char n ≡ true → n ≢ 0
unfolding is_ref_char
ref_char-ne-nul n h = ground arith

NoNul-of_ref_chars : (s : String) → AllCodes (λ n. is_ref_char n ≡ true) s → NoNul s
NoNul-of_ref_chars [] h = tt
NoNul-of_ref_chars (c ∷ s) (p, h) = (ref_char-ne-nul (code c) p, NoNul-of_ref_chars s h)

-- A validated reference holds no zero byte.
pub safe_ref-NoNul : (v name : String) {r : String} → safe_ref v name ≡ ok r → NoNul r
safe_ref-NoNul v name {r} h = NoNul-of_ref_chars r (safe_ref_shape v name h).1

-- Two keys of the store in memory are equal only if their parts are, where the first parts hold no
-- zero byte.
pub pair_key_injective :
    (a b c d : String) → NoNul a → NoNul c → pair_key a b ≡ pair_key c d → (a ≡ c) × (b ≡ d)
unfolding pair_key
pair_key_injective [] b [] d h k e = (refl, cc (e, nil-append (nul ∷ b), nil-append (nul ∷ d)))
pair_key_injective [] b (y ∷ c) d h (k, ks) e =
    let q : y ≡ nul = cc (e, nil-append (nul ∷ b), cons-append y c (nul ∷ d)) in
    absurd (k (ap code q))
pair_key_injective (x ∷ a) b [] d (h, hs) k e =
    let q : x ≡ nul = cc (e, nil-append (nul ∷ d), cons-append x a (nul ∷ b)) in
    absurd (h (ap code q))
pair_key_injective (x ∷ a) b (y ∷ c) d (h, hs) (k, ks) e =
    ground (
      arith,
      cons-append x a (nul ∷ b),
      cons-append y c (nul ∷ d),
      pair_key_injective a b c d hs ks,
    )

pub key_differs :
    (p i q j : String)
    → NoNul p
    → NoNul q
    → ((p ≡ q) × (i ≡ j) → ⊥)
    → (pair_key p i == pair_key q j) ≡ false
key_differs p i q j hp hq differ =
    ground (arith, eq_iff (pair_key p i) (pair_key q j), pair_key_injective p i q j hp hq)
