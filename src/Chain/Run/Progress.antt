-- ===== src/Chain/Run/Progress.antt =====
-- When a chain has a stage to run.
use text.Mathlib.TextEquality.{eq_iff}
use go_mivia.Base.{
  String, ◌≡◌, ◌⊎◌, refl, subst, true, false, Option, none, some, List, [], ◌∷◌, contains, all, All,
  All-both, arith, map, sym, string_eq, ◌==◌, if◌then◌else◌, Bool-cases, inl, inr,
}
use go_mivia.Base.Members.{IsWithin, IsDistinct, All-contains, All-of_contains, All-within}
use go_mivia.Chain.Model.{
  StageConfig, StageRun, StageStatus, stage_planned, stage_completed, stage_status_eq,
  stage_status_beq_iff,
}
use go_mivia.Chain.Cycle.{deps_from, deps_of, stage_refs, has_dependency_cycle}
use go_mivia.Chain.Cycle.Walks.{IsOrdered}
use go_mivia.Chain.Cycle.Search.{has_dependency_cycle-IsOrdered}
use go_mivia.Chain.Run.{status_from, status_of, is_status, is_ready, first_ready}

abbrev pub run_refs : List StageRun → List String
run_refs = map λ run. run.stage_ref

status_from-other :
    (found : Option StageStatus) (runs : List StageRun) (ref : String)
    → contains (run_refs runs) ref ≡ false
    → status_from found runs ref ≡ found
unfolding status_from
status_from-other found [] ref e = refl
status_from-other found (run ∷ runs) ref e = ground (arith, status_from-other found runs ref)

status_from-own :
    (found : String → Option StageStatus) (runs : List StageRun)
    → IsDistinct (run_refs runs)
    → All (λ run. status_from (found run.stage_ref) runs run.stage_ref ≡ some run.status) runs
unfolding status_from
status_from-own found [] d = tt
status_from-own found (run ∷ runs) (new, d) = (
  ground (
    arith,
    eq_iff run.stage_ref run.stage_ref,
    status_from-other (some run.status) runs run.stage_ref new,
  ),
  status_from-own (λ ref. if run.stage_ref == ref then some run.status else found ref) runs d,
)

-- Where no reference comes twice, each stage reads its own status.
pub status_of-own :
    (runs : List StageRun)
    → IsDistinct (run_refs runs)
    → All (λ run. status_of runs run.stage_ref ≡ some run.status) runs
unfolding status_of
status_of-own runs d = status_from-own (λ _. none) runs d

first_ready-none :
    (runs : List StageRun) (stages : List StageConfig)
    → first_ready runs stages ≡ none
    → All (λ stage. is_ready runs stage ≡ false) stages
unfolding first_ready
first_ready-none runs [] e = tt
first_ready-none runs (stage ∷ stages) e = elim (Bool-cases (is_ready runs stage)) [
  | inl ready ↦ absurd (ground arith)
  | inr idle ↦ (idle, first_ready-none runs stages (ground arith))
]

module _ (Q : StageConfig → Type 0) where
  -- The stage that stands in the map under a reference.
  deps_from-stage :
      (deps : List String) (stages : List StageConfig) (ref : String)
      → All Q stages
      → ((deps_from deps stages ref ≡ deps) × (contains (stage_refs stages) ref ≡ false))
        ⊎ ((stage : StageConfig) × Q stage
            × (stage.stage_ref ≡ ref)
            × (deps_from deps stages ref ≡ stage.depends_on))
  unfolding deps_from
  deps_from-stage deps [] ref h = inl (refl, refl)
  deps_from-stage deps (stage ∷ stages) ref (q, h) = elim (Bool-cases (stage.stage_ref == ref)) [
    | inl same ↦ elim (deps_from-stage stage.depends_on stages ref h) [
      | inl (e, _) ↦ inr (stage, q, (eq_iff stage.stage_ref ref).0 same, ground (arith, e))
      | inr (other, r, named, e) ↦ inr (other, r, named, ground (arith, e))
    ]
    | inr different ↦ elim (deps_from-stage deps stages ref h) [
      | inl (e, away) ↦ inl (ground (arith, e), ground (arith, away))
      | inr (other, r, named, e) ↦ inr (other, r, named, ground (arith, e))
    ]
  ]

  deps_of-stage :
      (stages : List StageConfig) (ref : String)
      → All Q stages
      → contains (stage_refs stages) ref ≡ true
      → (stage : StageConfig) × Q stage
        × (stage.stage_ref ≡ ref)
        × (deps_of stages ref ≡ stage.depends_on)
  unfolding deps_of
  deps_of-stage stages ref h e = elim (deps_from-stage [] stages ref h) [
    | inl (_, away) ↦ absurd (ground (arith, away))
    | inr found ↦ found
  ]

module _ (runs : List StageRun) (stages : List StageConfig)
    (idle : (ref : String)
      → contains (stage_refs stages) ref ≡ true
      → (status_of runs ref ≡ some stage_planned) ⊎ (status_of runs ref ≡ some stage_completed))
    (closed : All (λ stage. IsWithin (stage_refs stages) stage.depends_on) stages)
    (stuck : first_ready runs stages ≡ none) where
  abbrev IsDone : String → Type 0
  IsDone ref = contains (stage_refs stages) ref ≡ true → status_of runs ref ≡ some stage_completed

  completed_all :
      (deps : List String)
      → IsWithin (stage_refs stages) deps
      → All IsDone deps
      → all (λ dep. is_status stage_completed (status_of runs dep)) deps ≡ true
  completed_all [] w d = refl
  completed_all (dep ∷ deps) (p, w) (q, d) = ground (arith, q p, completed_all deps w d)

  no_wait :
      (stage : StageConfig)
      → status_of runs stage.stage_ref ≡ some stage_planned
      → all (λ dep. is_status stage_completed (status_of runs dep)) stage.depends_on ≡ true
      → ¬ (is_ready runs stage ≡ false)
  unfolding is_ready
  no_wait stage planned deps waits =
      ground (arith, stage_status_beq_iff stage_planned stage_planned)

  -- A stage whose dependencies are completed is not left planned.
  IsDone-from : (ref : String) → All IsDone (deps_of stages ref) → IsDone ref
  IsDone-from ref deps known = elim (idle ref known) [
    | inr completed ↦ completed
    | inl planned ↦
        let (stage, (within, waits), named, own) =
          deps_of-stage (λ s. IsWithin (stage_refs stages) s.depends_on × (is_ready runs s ≡ false))
            stages ref
            (All-both (λ s. IsWithin (stage_refs stages) s.depends_on)
              (λ s. is_ready runs s ≡ false) stages closed (first_ready-none runs stages stuck))
            known in
        absurd (
          no_wait stage (subst (λ r. status_of runs r ≡ some stage_planned) (sym named) planned)
            (completed_all stage.depends_on within (subst (All IsDone) own deps)) waits)
  ]

  IsDone-along : (refs : List String) → IsOrdered stages refs → All IsDone refs
  IsDone-along [] ordered = tt
  IsDone-along (ref ∷ refs) (deps, ordered) =
      let rest = IsDone-along refs ordered in
      (IsDone-from ref (All-within IsDone (deps_of stages ref) refs deps rest), rest)

  pub All-done :
      has_dependency_cycle stages ≡ false
      → All (λ ref. status_of runs ref ≡ some stage_completed) (stage_refs stages)
  All-done acyclic =
      let (seen, ordered, has) = has_dependency_cycle-IsOrdered stages acyclic in
      All-of_contains (λ ref. status_of runs ref ≡ some stage_completed) (stage_refs stages)
        (λ ref known.
          All-contains IsDone (stage_refs stages) ref
            (All-within IsDone (stage_refs stages) seen has (IsDone-along seen ordered)) known
            known)
