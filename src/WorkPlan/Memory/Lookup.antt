-- ===== src/WorkPlan/Memory/Lookup.antt =====
-- The maps of the store in memory: a read after a write.
use text.Mathlib.TextEquality.{eq_iff}
use go_mivia.Base.{String, ◌≡◌, refl, some, List, [], ◌∷◌, arith, string_eq, ◌==◌, if◌then◌else◌}
use go_mivia.WorkPlan.Memory.{lookup, insert}

module _ {ℓ} {V : Type ℓ} where
  pub lookup-insert :
      (key other : String) (value : V) (entries : List (String × V))
      → lookup other (insert key value entries)
        ≡ (if key == other then some value else lookup other entries)
  unfolding lookup insert
  lookup-insert key other value [] = refl
  lookup-insert key other value (entry ∷ entries) = ground (
    arith,
    eq_iff key other,
    eq_iff entry.0 key,
    eq_iff entry.0 other,
    lookup-insert key other value entries,
  )
