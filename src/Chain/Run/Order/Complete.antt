-- ===== src/Chain/Run/Order/Complete.antt =====
-- The order of the stages is kept when stages are completed, and holds of a new run.
use go_mivia.Base.{
  String, ◌≡◌, ◌≢◌, ◌⊎◌, inl, inr, refl, sym, ap, subst, ◌∙◌, Bool, true, false, Option, none, some,
  List, [], ◌∷◌, contains, arith, map, string_eq, ◌==◌, Bool-cases, if◌then◌else◌,
}
use go_mivia.Chain.Model.{
  StageConfig, StageRun, StageStatus, stage_planned, stage_queued, stage_completed, stage_blocked,
  stage_status_eq,
}
use go_mivia.Chain.Cycle.{deps_from, deps_of, stage_refs}
use go_mivia.Chain.Run.{status_from, status_of}
use go_mivia.Chain.Service.Stable.{IsCompleted, IsCompletion}
use go_mivia.Chain.Run.Order.{has_left, AreDone, InOrder, PlansLater, deps_from-other}

-- A status that has not moved, or one that has left planned and is completed.
abbrev IsStep : Option StageStatus → Option StageStatus → Type 0
IsStep old new = (new ≡ old) ⊎ ((new ≡ some stage_completed) × (has_left old ≡ true))

left_of : (status : StageStatus) → status ≢ stage_planned → has_left (some status) ≡ true
left_of stage_planned h = absurd (h refl)
left_of stage_queued h = refl
left_of stage_completed h = refl
left_of stage_blocked h = refl

module _ (plan_id : String) (named : plan_id ≢ "") where
  IsStep-head :
      (old new : StageRun)
      → IsCompleted plan_id old new
      → (old.status ≡ stage_planned → old.work_plan_id ≡ "")
      → IsStep (some old.status) (some new.status)
  IsStep-head old new (_, _, inl e) later = inl (ap some e)
  IsStep-head old new (_, _, inr (e, plan)) later =
      inr (ap some e, left_of old.status (λ planned. named (sym plan ∙ later planned)))

  status_from-IsStep :
      (olds news : List StageRun) (ref : String) (f g : Option StageStatus)
      → IsStep f g
      → IsCompletion plan_id olds news
      → PlansLater olds
      → IsStep (status_from f olds ref) (status_from g news ref)
  unfolding status_from
  status_from-IsStep [] [] ref f g step c later = step
  status_from-IsStep [] (new ∷ news) ref f g step c later = absurd c
  status_from-IsStep (old ∷ olds) [] ref f g step c later = absurd c
  status_from-IsStep (old ∷ olds) (new ∷ news) ref f g step (head, c) (p, later) =
      status_from-IsStep olds news ref (if old.stage_ref == ref then some old.status else f)
        (if new.stage_ref == ref then some new.status else g)
        (step_if (old.stage_ref == ref) (new.stage_ref == ref) (ap (λ r. r == ref) (sym head.0)) f g
          step (IsStep-head old new head p))
        c later
    where
      step_if :
          {x y : Option StageStatus} (s t : Bool)
          → s ≡ t
          → (f2 g2 : Option StageStatus) → IsStep f2 g2
          → IsStep x y
          → IsStep (if s then x else f2) (if t then y else g2)
      step_if true true e f2 g2 k l = l
      step_if false false e f2 g2 k l = k
      step_if true false e f2 g2 k l = cc
      step_if false true e f2 g2 k l = cc

  status_of-IsStep :
      (olds news : List StageRun) (ref : String)
      → IsCompletion plan_id olds news
      → PlansLater olds
      → IsStep (status_of olds ref) (status_of news ref)
  unfolding status_of
  status_of-IsStep olds news ref c later =
      status_from-IsStep olds news ref none none (inl refl) c later

  AreDone-step :
      (olds news : List StageRun) (deps : List String)
      → IsCompletion plan_id olds news
      → PlansLater olds
      → AreDone olds deps
      → AreDone news deps
  AreDone-step olds news [] c later h = tt
  AreDone-step olds news (dep ∷ deps) c later (p, h) = (
    elim (status_of-IsStep olds news dep c later) [ inl e ↦ e ∙ p | inr (e, _) ↦ e ],
    AreDone-step olds news deps c later h,
  )

  pub InOrder-completion :
      (stages : List StageConfig) (olds news : List StageRun)
      → IsCompletion plan_id olds news
      → PlansLater olds
      → InOrder stages olds
      → InOrder stages news
  InOrder-completion stages olds news c later order = record {
    at = λ ref left. AreDone-step olds news (deps_of stages ref) c later (
        order.at ref (elim (status_of-IsStep olds news ref c later) [
          | inl e ↦ subst (λ o. has_left o ≡ true) e left
          | inr (_, gone) ↦ gone
        ]));
  }

  pub PlansLater-completion :
      (olds news : List StageRun)
      → IsCompletion plan_id olds news
      → PlansLater olds
      → PlansLater news
  PlansLater-completion [] [] c later = tt
  PlansLater-completion [] (new ∷ news) c later = absurd c
  PlansLater-completion (old ∷ olds) [] c later = absurd c
  PlansLater-completion (old ∷ olds) (new ∷ news) ((_, plan, moved), c) (p, later) = (
    λ planned. elim moved [
      | inl e ↦ plan ∙ p (sym e ∙ planned)
      | inr (e, _) ↦ absurd (ground (arith, e, planned))
    ],
    PlansLater-completion olds news c later,
  )

-- A new run: all stages planned, the first compiled.
module _ (planned_run : StageConfig → StageRun)
    (named_so : (stage : StageConfig) → (planned_run stage).stage_ref ≡ stage.stage_ref)
    (is_planned : (stage : StageConfig) → (planned_run stage).status ≡ stage_planned) where
  status_from-planned :
      (found : Option StageStatus) (stages : List StageConfig) (ref : String)
      → (status_from found (map planned_run stages) ref ≡ some stage_planned)
        ⊎ ((status_from found (map planned_run stages) ref ≡ found)
            × (contains (stage_refs stages) ref ≡ false))
  unfolding status_from
  status_from-planned found [] ref = inr (refl, refl)
  status_from-planned found (stage ∷ stages) ref = elim (Bool-cases (stage.stage_ref == ref)) [
    | inl same ↦ elim (status_from-planned (some stage_planned) stages ref) [
      | inl e ↦ inl (ground (arith, named_so stage, is_planned stage, e))
      | inr (e, _) ↦ inl (ground (arith, named_so stage, is_planned stage, e))
    ]
    | inr other ↦ elim (status_from-planned found stages ref) [
      | inl e ↦ inl (ground (arith, named_so stage, e))
      | inr (e, away) ↦ inr (ground (arith, named_so stage, e), ground (arith, away))
    ]
  ]

  pub InOrder-start :
      (first : StageConfig) (rest : List StageConfig) (run : StageRun)
      → run.stage_ref ≡ first.stage_ref
      → first.depends_on ≡ []
      → InOrder (first ∷ rest) (run ∷ map planned_run rest)
  unfolding status_of deps_of status_from deps_from
  InOrder-start first rest run named free = record {
    at = λ ref left.
        elim (status_from-planned (if run.stage_ref == ref then some run.status else none) rest
          ref) [
            | inl e ↦ absurd (ground (arith, e, left))
            | inr (e, away) ↦ no_deps (first.stage_ref == ref) ref away
          ];
  }
    where
      none_of : (b : Bool) → (if b then first.depends_on else []) ≡ []
      none_of true = free
      none_of false = refl

      no_deps :
          (b : Bool) (ref : String)
          → contains (stage_refs rest) ref ≡ false
          → AreDone
              (run ∷ map planned_run rest)
              (deps_from (if b then first.depends_on else []) rest ref)
      no_deps b ref away =
          subst (AreDone (run ∷ map planned_run rest))
            (sym (deps_from-other (if b then first.depends_on else []) rest ref away ∙ none_of b))
            tt

pub PlansLater-planned :
    (planned_run : StageConfig → StageRun)
    → ((stage : StageConfig) → (planned_run stage).work_plan_id ≡ "")
    → (stages : List StageConfig) → PlansLater (map planned_run stages)
PlansLater-planned planned_run no_plan [] = tt
PlansLater-planned planned_run no_plan (stage ∷ stages) =
    (λ _. no_plan stage, PlansLater-planned planned_run no_plan stages)
