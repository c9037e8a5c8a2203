-- ===== src/Chain/Run/Order/Change.antt =====
-- The order of the stages is kept when the chosen stage changes.
use text.Mathlib.TextEquality.{eq_iff}
use go_mivia.Base.{
  String, ◌≡◌, inl, inr, refl, subst, ◌∙◌, true, false, Option, none, some, List, [], ◌∷◌, arith,
  string_eq, ◌==◌, Bool-cases,
}
use go_mivia.Base.Members.{IsDistinct}
use go_mivia.Chain.Model.{
  StageConfig, StageRun, StageStatus, stage_planned, stage_completed, stage_status_eq,
}
use go_mivia.Chain.Cycle.{deps_of, stage_refs}
use go_mivia.Chain.Run.{status_from, status_of, first_ready}
use go_mivia.Chain.Service.Handle.{change_stage}
use go_mivia.Chain.Run.Order.{has_left, AreDone, InOrder, chosen}

module _ (change : StageRun → StageRun) (ref : String)
    (same_ref : (run : StageRun) → run.stage_ref ≡ ref → (change run).stage_ref ≡ ref) where
  status_from-kept :
      (found : Option StageStatus) (runs : List StageRun) (other : String)
      → (ref == other) ≡ false
      → status_from found (change_stage change ref runs) other ≡ status_from found runs other
  unfolding status_from
  status_from-kept found [] other e = refl
  status_from-kept found (run ∷ runs) other e = elim (Bool-cases (run.stage_ref == ref)) [
    | inl same ↦ ground (
      arith,
      same_ref run ((eq_iff run.stage_ref ref).0 same),
      eq_iff run.stage_ref ref,
      eq_iff run.stage_ref other,
      eq_iff ref other,
      eq_iff (change run).stage_ref other,
      status_from-kept found runs other,
    )
    | inr different ↦
        ground
          (arith, status_from-kept found runs other, status_from-kept (some run.status) runs other)
  ]

  status_of-kept :
      (runs : List StageRun) (other : String)
      → (ref == other) ≡ false
      → status_of (change_stage change ref runs) other ≡ status_of runs other
  unfolding status_of
  status_of-kept runs other e = status_from-kept none runs other e

  AreDone-change :
      (runs : List StageRun) (deps : List String)
      → status_of runs ref ≡ some stage_planned
      → AreDone runs deps
      → AreDone (change_stage change ref runs) deps
  AreDone-change runs [] planned h = tt
  AreDone-change runs (dep ∷ deps) planned (p, h) = (
    elim (Bool-cases (ref == dep)) [
      | inl same ↦ absurd (
          not_both runs dep
            (subst (λ r. status_of runs r ≡ some stage_planned) ((eq_iff ref dep).0 same) planned)
            p)
      | inr other ↦ status_of-kept runs dep other ∙ p
    ],
    AreDone-change runs deps planned h,
  )
    where
      not_both :
          (rs : List StageRun) (d : String)
          → status_of rs d ≡ some stage_planned
          → ¬ (status_of rs d ≡ some stage_completed)
      not_both rs d e f = ground (arith, e, f)

  -- The chosen stage changed, the order is kept.
  pub InOrder-change :
      (stages : List StageConfig) (runs : List StageRun) (next : StageConfig)
      → IsDistinct (stage_refs stages)
      → first_ready runs stages ≡ some next
      → next.stage_ref ≡ ref
      → InOrder stages runs
      → InOrder stages (change_stage change ref runs)
  InOrder-change stages runs next distinct e named order = record {
    at = λ r left.
        let (planned, done) = chosen stages runs next distinct e in
        let planned_here = subst (λ x. status_of runs x ≡ some stage_planned) named planned in
        AreDone-change runs (deps_of stages r) planned_here (elim (Bool-cases (ref == r)) [
          | inl same ↦
              subst (λ x. AreDone runs (deps_of stages x)) (named ∙ (eq_iff ref r).0 same) done
          | inr other ↦
              order.at r (subst (λ o. has_left o ≡ true) (status_of-kept runs r other) left)
        ]);
  }
