-- ===== src/WorkPlan/Service.antt =====
-- The state that a method of the service in internal/projectworkplan/service.go works on: the store,
-- the clock and the source of identifiers. `New` always sets a store, so no method here tests for one.
pub mod Plans
pub mod Tasks
pub mod Move
pub mod Attach
pub mod Next
pub mod Keeps
pub mod Invariant
pub mod Runs
use go_mivia.Base.{ℕ, suc, String}
use go_mivia.Base.Result.{ok}
use go_mivia.Base.Exec.{Exec}

-- `svc.now` and `svc.newID`: what the n-th reading returns.
pub record Env : Type 0 where
  pub time_at : ℕ → ℕ
  pub id_at : String → ℕ → String

pub record World (S : Type 0) : Type 0 where
  pub db : S
  pub readings : ℕ

module _ {S : Type 0} where
  -- an operation of the store
  unfoldable pub call : {A : Type 0} → Exec S A → Exec (World S) A
  call m w = let (r, s) = m w.db in (r, record w { db = s })

  unfoldable pub now : Env → Exec (World S) ℕ
  now env w = (ok (env.time_at w.readings), record w { readings = suc w.readings })

  unfoldable pub new_id : Env → String → Exec (World S) String
  new_id env prefix w = (ok (env.id_at prefix w.readings), record w { readings = suc w.readings })
