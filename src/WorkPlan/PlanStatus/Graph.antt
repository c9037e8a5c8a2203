-- ===== src/WorkPlan/PlanStatus/Graph.antt =====
-- What the transition rules of a work plan allow.
use go_mivia.Base.{
  String, ◌≡◌, refl, subst, ◌↔◌, ◌⊎◌, inl, inr, Bool, true, false, arith, named_lem,
}
use go_mivia.Base.Result.{ok, or_invalid_lem}
use go_mivia.Text.{trim_space}
use go_mivia.WorkPlan.PlanStatus.{
  PlanStatus, planned, active, blocked, needs_review, done, failed, cancelled, superseded,
  is_terminal_plan_status, plan_statuses, plan_status_text, safe_plan_status,
  validate_plan_transition,
}

-- A plan that is under way or has ended can be superseded; one that waits to start or to be reviewed
-- cannot.
abbrev can_supersede : PlanStatus → Bool
can_supersede planned = false
can_supersede needs_review = false
can_supersede superseded = false
can_supersede _ = true

infix 40 ◌⟶◌
pub data ◌⟶◌ : PlanStatus → PlanStatus → Type 0 where
  start : planned ⟶ active
  block : active ⟶ blocked
  unblock : blocked ⟶ active
  ask_review : active ⟶ needs_review
  rework : needs_review ⟶ active
  finish : active ⟶ done
  approve : needs_review ⟶ done
  fail_work : active ⟶ failed
  fail_review : needs_review ⟶ failed
  cancel : {s : PlanStatus} → is_terminal_plan_status s ≡ false → s ⟶ cancelled
  supersede : {s : PlanStatus} → can_supersede s ≡ true → s ⟶ superseded

ruleset edges = (
  start, block, unblock, ask_review, rework, finish, approve, fail_work, fail_review, cancel,
  supersede,
)

abbrev Accepts : PlanStatus → PlanStatus → Type 0
Accepts from to = validate_plan_transition from to ≡ ok tt

Accepts-⟶ : (from to : PlanStatus) → Accepts from to → (from ≡ to) ⊎ (from ⟶ to)
unfolding validate_plan_transition is_terminal_plan_status
Accepts-⟶ planned planned h = inl refl
Accepts-⟶ active active h = inl refl
Accepts-⟶ blocked blocked h = inl refl
Accepts-⟶ needs_review needs_review h = inl refl
Accepts-⟶ done done h = inl refl
Accepts-⟶ failed failed h = inl refl
Accepts-⟶ cancelled cancelled h = inl refl
Accepts-⟶ superseded superseded h = inl refl
Accepts-⟶ _ _ h = first_of (search (inl, inr, edges), ground arith)

self_ok : (s : PlanStatus) → Accepts s s
unfolding validate_plan_transition
self_ok planned = refl
self_ok _ = refl

cancel_ok : (s : PlanStatus) → is_terminal_plan_status s ≡ false → Accepts s cancelled
unfolding validate_plan_transition is_terminal_plan_status
cancel_ok planned h = refl
cancel_ok _ h = first_of (cc, ground arith)

supersede_ok : (s : PlanStatus) → can_supersede s ≡ true → Accepts s superseded
unfolding validate_plan_transition
supersede_ok planned h = cc
supersede_ok _ h = first_of (cc, ground arith)

edge_ok : {from to : PlanStatus} → from ⟶ to → Accepts from to
unfolding validate_plan_transition
edge_ok (cancel {s = s} h) = cancel_ok s h
edge_ok (supersede {s = s} h) = supersede_ok s h
edge_ok start = refl
edge_ok _ = refl

-- A change of the status of a plan is accepted exactly when the status stays or moves along an edge
-- of the diagram.
pub validate_plan_transition_iff :
    (from to : PlanStatus) → (validate_plan_transition from to ≡ ok tt) ↔ (from ≡ to) ⊎ (from ⟶ to)
validate_plan_transition_iff from to =
    (Accepts-⟶ from to, elim [ inl e ↦ subst (Accepts from) e (self_ok from) | inr e ↦ edge_ok e ])

text-safe_plan_status :
    (x : String) (s : PlanStatus) → safe_plan_status x ≡ ok s → trim_space x ≡ plan_status_text s
unfolding safe_plan_status
text-safe_plan_status x s h =
    named_lem plan_status_text plan_statuses (trim_space x) (or_invalid_lem _ _ h)

safe_plan_status-text :
    (x : String) (s : PlanStatus) → trim_space x ≡ plan_status_text s → safe_plan_status x ≡ ok s
unfolding safe_plan_status plan_status_text
safe_plan_status-text x planned h = rw h
safe_plan_status-text x _ h = rw h

-- A text is accepted as a plan status exactly when it is the text of that status without the white
-- space round it.
pub safe_plan_status_iff :
    (x : String) (s : PlanStatus)
    → (safe_plan_status x ≡ ok s) ↔ (trim_space x ≡ plan_status_text s)
safe_plan_status_iff x s = (text-safe_plan_status x s, safe_plan_status-text x s)
