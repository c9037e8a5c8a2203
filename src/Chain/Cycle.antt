-- ===== src/Chain/Cycle.antt =====
-- `hasDependencyCycle` of internal/projectworkflowchain/validation.go: a search in depth over the
-- dependencies of the stages. `path` lists the references that are marked as visiting, which the call
-- itself unmarks when it returns, and `seen` those that are marked as visited. The fuel is the number of
-- calls that may be open at once.
pub mod Walks
pub mod Search
use go_mivia.Base.{
  ℕ, zero, suc, String, Bool, true, false, Option, none, some, List, [], ◌∷◌, map, string_eq, ◌==◌,
  contains, length, if◌then◌else◌,
}
use go_mivia.Chain.Model.{StageConfig}

-- `byRef[ref].DependsOn`: the last stage with a reference stands in the map, and a missing key reads as
-- no stage.
unfoldable pub deps_from : List String → List StageConfig → String → List String
deps_from deps [] ref = deps
deps_from deps (stage ∷ stages) ref =
    deps_from (if stage.stage_ref == ref then stage.depends_on else deps) stages ref

unfoldable pub deps_of : List StageConfig → String → List String
unfolding deps_from
deps_of stages ref = deps_from [] stages ref

-- The loop over references, which stops at a cycle (`none`).
unfoldable pub visit_all :
    (String → List String → Option (List String)) → List String → List String → Option (List String)
visit_all visit_one [] seen = some seen
visit_all visit_one (ref ∷ refs) seen = elim (visit_one ref seen) [
  | none ↦ none
  | some now_seen ↦ visit_all visit_one refs now_seen
]

-- The visited references when `visit` returns false, `none` when it returns true.
unfoldable pub visit :
    List StageConfig → ℕ → List String → String → List String → Option (List String)
unfolding deps_of visit_all
visit stages zero path ref seen = none
visit stages (suc fuel) path ref seen = elim (contains seen ref) [
  | true ↦ some seen
  | false ↦ elim (contains path ref) [
    | true ↦ none
    | false ↦ elim (visit_all (visit stages fuel (ref ∷ path)) (deps_of stages ref) seen) [
      | none ↦ none
      | some now_seen ↦ some (ref ∷ now_seen)
    ]
  ]
]

abbrev pub stage_refs : List StageConfig → List String
stage_refs = map λ stage. stage.stage_ref

unfoldable pub has_dependency_cycle : List StageConfig → Bool
unfolding visit visit_all
has_dependency_cycle stages =
    elim (visit_all (visit stages (suc (length stages)) []) (stage_refs stages) []) [
      | none ↦ true
      | some seen ↦ false
    ]
