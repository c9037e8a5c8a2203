-- ===== src/Base/Exec.antt =====
-- Methods that change a state and may fail: what was written before an error stays written.
use mathlib.Core.Path.{◌≡◌, refl, subst}
use mathlib.Core.Bool.{Bool, true, false}
use go_mivia.Base.Tests.{if◌then◌else◌}
use go_mivia.Base.Result.{Result, ok, err}

abbrev pub Exec {ℓ} : Type ℓ → Type ℓ → Type ℓ
Exec S A = S → Result A × S

module _ {ℓ} {S A : Type ℓ} where
  unfoldable pub pure : A → Exec S A
  pure a s = (ok a, s)

  unfoldable pub lift : Result A → Exec S A
  lift r s = (r, s)

  -- The outcome of an action whose error the caller handles itself.
  unfoldable pub attempt : Exec S A → Exec S (Result A)
  attempt action s = let (r, after) = action s in (ok r, after)

module _ {ℓ} {S A B : Type ℓ} where
  abbrev pub continue : Result A → (A → Exec S B) → Exec S B
  continue (ok value) next here = next value here
  continue (err e) next here = (err e, here)

  infixl 5 ◌>>=◌ ◌>>◌
  -- Opening this opens `pure` and `lift` too.
  unfoldable pub ◌>>=◌ : Exec S A → (A → Exec S B) → Exec S B
  unfolding pure lift
  ◌>>=◌ first next before = let (given, after) = first before in continue given next after

  abbrev pub ◌>>◌ : Exec S A → Exec S B → Exec S B
  first >> second = first >>= λ _. second

-- The action keeps `Inv`, whether it returns or fails.
pub record Keeps {ℓ} {S A : Type ℓ} (Inv : S → Type ℓ) (action : Exec S A) : Type ℓ where
  pub at : (before : S) → Inv before → Inv (action before).1

module _ {ℓ} {S A : Type ℓ} {Inv : S → Type ℓ} where
  pub Keeps-lift : (given : Result A) → Keeps Inv (lift given)
  unfolding lift
  Keeps-lift given = record { at = λ _ held. held }

  pub Keeps-pure : (value : A) → Keeps Inv (pure value)
  unfolding pure
  Keeps-pure value = record { at = λ _ held. held }

  pub Keeps-attempt : (action : Exec S A) → Keeps Inv action → Keeps Inv (attempt action)
  unfolding attempt
  Keeps-attempt action keeps = record { at = keeps.at }

  pub Keeps-if :
      (test : Bool) (then_run else_run : Exec S A)
      → (test ≡ true → Keeps Inv then_run)
      → (test ≡ false → Keeps Inv else_run)
      → Keeps Inv (if test then then_run else else_run)
  Keeps-if true _ _ on off = on refl
  Keeps-if false _ _ on off = off refl

module _ {ℓ} {S A B : Type ℓ} {Inv : S → Type ℓ} where
  keeps_after :
      (given : Result A) (next : A → Exec S B) (here : S)
      → ((value : A) → given ≡ ok value → Keeps Inv (next value))
      → Inv here
      → Inv (continue given next here).1
  keeps_after (ok value) next here keeps held = (keeps value refl).at here held
  keeps_after (err e) next here keeps held = held

  -- The rest may use that what is lifted is no error.
  pub Keeps-bind_lift :
      (given : Result A) (next : A → Exec S B)
      → ((value : A) → given ≡ ok value → Keeps Inv (next value))
      → Keeps Inv (lift given >>= next)
  unfolding ◌>>=◌
  Keeps-bind_lift given next keeps = record {
    at = λ before held. keeps_after given next before keeps held;
  }

  pub Keeps-bind :
      (first : Exec S A) (next : A → Exec S B)
      → Keeps Inv first
      → ((value : A) → Keeps Inv (next value))
      → Keeps Inv (first >>= next)
  unfolding ◌>>=◌
  Keeps-bind first next keeps_first keeps = record {
    at = λ before held.
        keeps_after (first before).0 next (first before).1 (λ value _. keeps value)
          (keeps_first.at before held);
  }

  after_with :
      (P : A → Type ℓ) (given : Result A) (next : A → Exec S B) (here : S)
      → ((value : A) → given ≡ ok value → P value)
      → ((value : A) → P value → Keeps Inv (next value))
      → Inv here
      → Inv (continue given next here).1
  after_with P (ok value) next here gives keeps held = (keeps value (gives value refl)).at here held
  after_with P (err e) next here gives keeps held = held

  -- The rest may use what the first action gives where `Inv` holds.
  pub Keeps-bind_with :
      (P : A → Type ℓ) (first : Exec S A) (next : A → Exec S B)
      → ((before : S) → Inv before → (value : A) → (first before).0 ≡ ok value → P value)
      → Keeps Inv first
      → ((value : A) → P value → Keeps Inv (next value))
      → Keeps Inv (first >>= next)
  unfolding ◌>>=◌
  Keeps-bind_with P first next gives keeps_first keeps = record {
    at = λ before held.
        after_with P (first before).0 next (first before).1 (gives before held) keeps
          (keeps_first.at before held);
  }

-- Where `m` returns a value from `s`, the value and the state it leaves have `P`.
pub record Yields {ℓ} {S A : Type ℓ} (P : A → S → Type ℓ) (m : Exec S A) (s : S) : Type ℓ where
  pub at : (a : A) → (m s).0 ≡ ok a → P a (m s).1

module _ {ℓ} {A : Type ℓ} where
  pub ok-inj : (a b : A) → ok a ≡ ok b → a ≡ b
  ok-inj a b e = cc

module _ {ℓ} {S A : Type ℓ} {P : A → S → Type ℓ} where
  pub Yields-pure : (a : A) (s : S) → P a s → Yields P (pure a) s
  unfolding pure
  Yields-pure a s h = record { at = λ b e. subst (λ c. P c s) (ok-inj a b e) h }

  pub Yields-if :
      (b : Bool) (m n : Exec S A) (s : S)
      → (b ≡ true → Yields P m s)
      → (b ≡ false → Yields P n s)
      → Yields P (if b then m else n) s
  Yields-if true m n s ym yn = ym refl
  Yields-if false m n s ym yn = yn refl

module _ {ℓ} {S A B : Type ℓ} {P : B → S → Type ℓ} where
  yields_after :
      (r : Result A) (f : A → Exec S B) (s : S)
      → ((a : A) → r ≡ ok a → Yields P (f a) s)
      → (b : B) → (continue r f s).0 ≡ ok b
      → P b (continue r f s).1
  yields_after (ok a) f s yf b e = (yf a refl).at b e
  yields_after (err x) f s yf b e = cc

  pub Yields-bind_lift :
      (r : Result A) (f : A → Exec S B) (s : S)
      → ((a : A) → r ≡ ok a → Yields P (f a) s)
      → Yields P (lift r >>= f) s
  unfolding ◌>>=◌
  Yields-bind_lift r f s yf = record { at = yields_after r f s yf }

  pub Yields-bind :
      (m : Exec S A) (f : A → Exec S B) (s : S)
      → ((a : A) → (m s).0 ≡ ok a → Yields P (f a) (m s).1)
      → Yields P (m >>= f) s
  unfolding ◌>>=◌
  Yields-bind m f s yf = record { at = yields_after (m s).0 f (m s).1 yf }

module _ {ℓ} {A : Type ℓ} where
  -- `P` of the value, where there is one
  abbrev pub IfOk : (A → Type ℓ) → Result A → Type ℓ
  IfOk P (ok value) = P value
  IfOk P (err e) = Unit

module _ {ℓ} {S A : Type ℓ} where
  pub attempt-IfOk :
      (P : A → Type ℓ) (m : Exec S A) (s : S)
      → ((a : A) → (m s).0 ≡ ok a → P a)
      → (r : Result A) → (attempt m s).0 ≡ ok r
      → IfOk P r
  unfolding attempt
  attempt-IfOk P m s gives (ok a) e = gives a (ok-inj (m s).0 (ok a) e)
  attempt-IfOk P m s gives (err problem) e = tt
