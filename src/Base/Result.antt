-- ===== src/Base/Result.antt =====
-- Go's `(value, error)`: a value, or the error. What a Go function returns beside a non-nil error is
-- not kept.
use Prim.Native.String.{String}
use mathlib.Core.Path.{◌≡◌}
use mathlib.Core.Option.{Option, none, some}
use mathlib.Core.Bool.{Bool, true, false}

-- The sentinel errors, `ErrInvalidInput` with the text that is wrapped into it.
pub data Error : Type 0 where
  invalid_input : String → Error
  invalid_chain : String → Error
  not_found duplicate : Error
  foreign : String → Error

pub data Result {ℓ} (A : Type ℓ) : Type ℓ where
  ok : A → Result A
  err : Error → Result A

-- `v, err := m; if err != nil { return err }`
module _ {ℓ κ} {A : Type ℓ} {B : Type κ} where
  infixl 5 ◌>>=◌ ◌>>◌
  abbrev pub ◌>>=◌ : Result A → (A → Result B) → Result B
  ok value >>= next = next value
  err problem >>= next = err problem

  abbrev pub ◌>>◌ : Result A → Result B → Result B
  first >> then_this = first >>= λ _. then_this

-- `if bad { return err }`
abbrev pub reject_if : Bool → Error → Result (Unit {0})
reject_if true e = err e
reject_if false e = ok tt

-- The value, or the error with this text.
abbrev pub or_invalid {ℓ} : {A : Type ℓ} → Option A → String → Result A
or_invalid none text = err (invalid_input text)
or_invalid (some a) text = ok a

pub or_invalid_lem {ℓ} :
    {A : Type ℓ} (o : Option A) (text : String) {a : A} → or_invalid o text ≡ ok a → o ≡ some a
or_invalid_lem none text h = cc
or_invalid_lem (some a) text h = cc
