-- ===== src/Text/Laws.antt =====
-- Trimming is idempotent.
use Prim.Native.Char.{Char}
use Prim.Native.String.{[], ◌∷◌}
use go_mivia.Base.{ℕ, String, ◌≡◌, refl, Bool, true, false, arith, if◌then◌else◌}
use go_mivia.Text.{is_space, trim_left, trim_right, trim_func, trim_space}

kept_tail : (b : Bool) (c : Char) (r s : String) → (if b then "" else c ∷ r) ≡ c ∷ s → r ≡ s
kept_tail true c r s h = cc
kept_tail false c r s h = cc

module _ (p : ℕ → Bool) where
  trim_left_idem : (s : String) → trim_left p (trim_left p s) ≡ trim_left p s
  unfolding trim_left
  trim_left_idem [] = refl
  trim_left_idem (c ∷ s) = ground (arith, trim_left_idem s)

  trim_right_idem : (s : String) → trim_right p (trim_right p s) ≡ trim_right p s
  unfolding trim_right
  trim_right_idem [] = refl
  trim_right_idem (c ∷ s) = ground (arith, trim_right_idem s)

  -- What `trim_right` leaves alone has a rest that it leaves alone.
  trim_right_tail : (c : Char) (s : String) → trim_right p (c ∷ s) ≡ c ∷ s → trim_right p s ≡ s
  unfolding trim_right
  trim_right_tail c s h = kept_tail _ c (trim_right p s) s h

  trim_right-trim_left :
      (s : String) → trim_right p s ≡ s → trim_right p (trim_left p s) ≡ trim_left p s
  unfolding trim_left
  trim_right-trim_left [] h = h
  trim_right-trim_left (c ∷ s) h = ground (arith, trim_right-trim_left s, trim_right_tail c s)

  pub trim_func_idem : (s : String) → trim_func p (trim_func p s) ≡ trim_func p s
  unfolding trim_func
  trim_func_idem s =
      rw (trim_right-trim_left (trim_right p s) (trim_right_idem s))
        (trim_left_idem (trim_right p s))

pub trim_space_idem : (s : String) → trim_space (trim_space s) ≡ trim_space s
unfolding trim_space
trim_space_idem s = trim_func_idem is_space s
