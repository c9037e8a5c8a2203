-- ===== src/Chain/Run/Order.antt =====
-- The order of the stages of a run: those that have left the status planned, and their dependencies.
pub mod Change
pub mod Complete
use text.Mathlib.TextEquality.{eq_iff}
use go_mivia.Base.{
  String, ◌≡◌, ◌≢◌, ◌⊎◌, inl, inr, refl, sym, ap, subst, ◌∙◌, Bool, true, false, Option, none, some,
  List, [], ◌∷◌, contains, all, All, arith, map, string_eq, ◌==◌, Bool-cases, if◌then◌else◌, ◌&&◌,
}
use go_mivia.Base.Members.{IsDistinct, IsWithin}
use go_mivia.Chain.Model.{
  StageConfig, StageRun, StageStatus, stage_planned, stage_queued, stage_completed, stage_blocked,
  stage_status_eq, stage_status_beq_iff,
}
use go_mivia.Chain.Cycle.{deps_from, deps_of, stage_refs}
use go_mivia.Chain.Run.{status_from, status_of, is_status, is_ready, first_ready}
use go_mivia.Chain.Service.Stable.{IsCompletion}
use go_mivia.Chain.Service.Handle.{change_stage, set_last_reason}

-- A status, and not planned.
abbrev pub has_left : Option StageStatus → Bool
has_left none = false
has_left (some stage_planned) = false
has_left (some _) = true

-- All the listed stages are completed.
abbrev pub AreDone : List StageRun → List String → Type 0
AreDone runs = All λ ref. status_of runs ref ≡ some stage_completed

-- A stage is compiled only when all its dependencies are completed.
pub record InOrder (stages : List StageConfig) (runs : List StageRun) : Type 0 where
  pub at : (ref : String) → has_left (status_of runs ref) ≡ true → AreDone runs (deps_of stages ref)

-- A planned stage has no plan.
abbrev pub PlansLater : List StageRun → Type 0
PlansLater = All λ run. run.status ≡ stage_planned → run.work_plan_id ≡ ""

pub deps_from-other :
    (deps : List String) (stages : List StageConfig) (ref : String)
    → contains (stage_refs stages) ref ≡ false
    → deps_from deps stages ref ≡ deps
unfolding deps_from
deps_from-other deps [] ref e = refl
deps_from-other deps (stage ∷ stages) ref e = ground (arith, deps_from-other deps stages ref)

deps_from-own :
    (deps : String → List String) (stages : List StageConfig)
    → IsDistinct (stage_refs stages)
    → All
        (λ stage. deps_from (deps stage.stage_ref) stages stage.stage_ref ≡ stage.depends_on)
        stages
unfolding deps_from
deps_from-own deps [] d = tt
deps_from-own deps (stage ∷ stages) (new, d) = (
  ground (
    arith,
    eq_iff stage.stage_ref stage.stage_ref,
    deps_from-other stage.depends_on stages stage.stage_ref new,
  ),
  deps_from-own (λ ref. if stage.stage_ref == ref then stage.depends_on else deps ref) stages d,
)

module _ (Q : StageConfig → Type 0) where
  first_ready-some :
      (runs : List StageRun) (stages : List StageConfig) {next : StageConfig}
      → All Q stages
      → first_ready runs stages ≡ some next
      → Q next × (is_ready runs next ≡ true)
  unfolding first_ready
  first_ready-some runs [] h e = cc
  first_ready-some runs (stage ∷ stages) {next = next} (q, h) e =
      elim (Bool-cases (is_ready runs stage)) [
        | inl ready ↦
            let same = the_same stage next (is_ready runs stage) _ ready e in
            (subst Q same q, subst (λ s. is_ready runs s ≡ true) same ready)
        | inr idle ↦ first_ready-some runs stages h (the_rest stage (is_ready runs stage) _ idle e)
      ]
    where
      the_same :
          (a b : StageConfig) (t : Bool) (r : Option StageConfig)
          → t ≡ true
          → (if t then some a else r) ≡ some b
          → a ≡ b
      the_same a b true r h e = cc
      the_same a b false r h e = cc

      the_rest :
          (a : StageConfig) (t : Bool) (r : Option StageConfig) {b : Option StageConfig}
          → t ≡ false
          → (if t then some a else r) ≡ b
          → r ≡ b
      the_rest a true r h e = cc
      the_rest a false r h e = e

planned_of : (o : Option StageStatus) → is_status stage_planned o ≡ true → o ≡ some stage_planned
planned_of none e = cc
planned_of (some s) e = ground (arith, stage_status_beq_iff s stage_planned)

completed_of :
    (o : Option StageStatus) → is_status stage_completed o ≡ true → o ≡ some stage_completed
completed_of none e = cc
completed_of (some s) e = ground (arith, stage_status_beq_iff s stage_completed)

done_of :
    (runs : List StageRun) (deps : List String)
    → all (λ dep. is_status stage_completed (status_of runs dep)) deps ≡ true
    → AreDone runs deps
done_of runs [] e = tt
done_of runs (dep ∷ deps) e =
    (completed_of (status_of runs dep) (ground arith), done_of runs deps (ground arith))

-- The stage that is chosen is planned, and its dependencies are completed.
pub chosen :
    (stages : List StageConfig) (runs : List StageRun) (next : StageConfig)
    → IsDistinct (stage_refs stages)
    → first_ready runs stages ≡ some next
    → (status_of runs next.stage_ref ≡ some stage_planned)
      × AreDone runs (deps_of stages next.stage_ref)
unfolding is_ready deps_of
chosen stages runs next distinct e =
    let (own, ready) =
      first_ready-some (λ s. deps_of stages s.stage_ref ≡ s.depends_on) runs stages
        (deps_from-own (λ _. []) stages distinct) e in
    (
      planned_of (status_of runs next.stage_ref) (ground (arith, ready)),
      subst (AreDone runs) (sym own) (done_of runs next.depends_on (ground (arith, ready))),
    )
