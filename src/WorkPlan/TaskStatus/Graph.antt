-- ===== src/WorkPlan/TaskStatus/Graph.antt =====
-- What the transition rules of a work task allow.
use go_mivia.Base.{
  String, ◌≡◌, refl, sym, subst, ◌∙◌, ◌↔◌, ◌⊎◌, inl, inr, Bool, true, false, arith, named_lem,
}
use go_mivia.Base.Result.{ok, or_invalid_lem}
use go_mivia.Text.{trim_space}
use go_mivia.WorkPlan.TaskStatus.{
  TaskStatus, planned, ready, claimed, in_progress, blocked, needs_review, verifying, done, failed,
  cancelled, superseded, is_terminal_task_status, task_statuses, status_text, safe_task_status,
  validate_task_transition,
}

abbrev pub is_superseded : TaskStatus → Bool
is_superseded superseded = true
is_superseded _ = false

-- One edge of the diagram, a status to another.
infix 40 ◌⟶◌
pub data ◌⟶◌ : TaskStatus → TaskStatus → Type 0 where
  prepare : planned ⟶ ready
  claim : ready ⟶ claimed
  start : claimed ⟶ in_progress
  release_claim : claimed ⟶ ready
  release_work : in_progress ⟶ ready
  release_block : blocked ⟶ ready
  release_review : needs_review ⟶ ready
  ask_review : in_progress ⟶ needs_review
  verify : in_progress ⟶ verifying
  verify_reviewed : needs_review ⟶ verifying
  approve : needs_review ⟶ done
  finish : verifying ⟶ done
  fail_work : in_progress ⟶ failed
  fail_review : needs_review ⟶ failed
  fail_verify : verifying ⟶ failed
  block_ready : ready ⟶ blocked
  block_claimed : claimed ⟶ blocked
  block_work : in_progress ⟶ blocked
  block_verify : verifying ⟶ blocked
  cancel : {s : TaskStatus} → is_terminal_task_status s ≡ false → s ⟶ cancelled
  supersede : {s : TaskStatus} → is_superseded s ≡ false → s ⟶ superseded

ruleset edges = (
  prepare, claim, start, release_claim, release_work, release_block, release_review, ask_review,
  verify, verify_reviewed, approve, finish, fail_work, fail_review, fail_verify, block_ready,
  block_claimed, block_work, block_verify, cancel, supersede,
)

abbrev Accepts : TaskStatus → TaskStatus → Type 0
Accepts from to = validate_task_transition from to ≡ ok tt

Accepts-⟶ : (from to : TaskStatus) → Accepts from to → (from ≡ to) ⊎ (from ⟶ to)
unfolding validate_task_transition is_terminal_task_status
Accepts-⟶ planned planned h = inl refl
Accepts-⟶ ready ready h = inl refl
Accepts-⟶ claimed claimed h = inl refl
Accepts-⟶ in_progress in_progress h = inl refl
Accepts-⟶ blocked blocked h = inl refl
Accepts-⟶ needs_review needs_review h = inl refl
Accepts-⟶ verifying verifying h = inl refl
Accepts-⟶ done done h = inl refl
Accepts-⟶ failed failed h = inl refl
Accepts-⟶ cancelled cancelled h = inl refl
Accepts-⟶ superseded superseded h = inl refl
Accepts-⟶ _ _ h = first_of (search (inl, inr, edges), ground arith)

self_ok : (s : TaskStatus) → Accepts s s
unfolding validate_task_transition
self_ok planned = refl
self_ok _ = refl

cancel_ok : (s : TaskStatus) → is_terminal_task_status s ≡ false → Accepts s cancelled
unfolding validate_task_transition is_terminal_task_status
cancel_ok planned h = refl
cancel_ok _ h = first_of (cc, ground arith)

supersede_ok : (s : TaskStatus) → Accepts s superseded
unfolding validate_task_transition
supersede_ok planned = refl
supersede_ok _ = refl

edge_ok : {from to : TaskStatus} → from ⟶ to → Accepts from to
unfolding validate_task_transition
edge_ok (cancel {s = s} h) = cancel_ok s h
edge_ok (supersede {s = s} h) = supersede_ok s
edge_ok prepare = refl
edge_ok _ = refl

-- A change of the status of a task is accepted exactly when the status stays or moves along an edge
-- of the diagram.
pub validate_task_transition_iff :
    (from to : TaskStatus) → (validate_task_transition from to ≡ ok tt) ↔ (from ≡ to) ⊎ (from ⟶ to)
validate_task_transition_iff from to =
    (Accepts-⟶ from to, elim [ inl e ↦ subst (Accepts from) e (self_ok from) | inr e ↦ edge_ok e ])

-- Statuses that follow each other, each change accepted by the code.
infix 40 ◌⟶*◌
pub data ◌⟶*◌ : TaskStatus → TaskStatus → Type 0 where
  here : {s : TaskStatus} → s ⟶* s
  then : {s t u : TaskStatus} → validate_task_transition s t ≡ ok tt → t ⟶* u → s ⟶* u

pub leaves_terminal : {s t : TaskStatus} → s ⟶ t → is_terminal_task_status s ≡ true → t ≡ superseded
unfolding is_terminal_task_status
leaves_terminal (cancel h) k = cc
leaves_terminal (supersede h) k = refl
leaves_terminal prepare k = cc
leaves_terminal _ k = cc

abbrev Ended : TaskStatus → Type 0
Ended s = is_terminal_task_status s ≡ true

superseded-Ended : Ended superseded
unfolding is_terminal_task_status
superseded-Ended = refl

-- One accepted change of a status that ends a task.
step_stays : (s t : TaskStatus) → Accepts s t → Ended s → (t ≡ s) ⊎ (t ≡ superseded)
step_stays s t accepted h = elim (Accepts-⟶ s t accepted) [
  | inl same ↦ inl (sym same)
  | inr edge ↦ inr (leaves_terminal edge h)
]

-- Along any statuses of which each follows the one before by a change that `validateTaskTransition`
-- accepts, from a status that ends a task, the last is that one or superseded.
pub terminal_stays :
    {s t : TaskStatus} → s ⟶* t → is_terminal_task_status s ≡ true → (t ≡ s) ⊎ (t ≡ superseded)
terminal_stays here h = inl refl
terminal_stays (then {s = s} {t = t} {u = u} accepted path) h =
    from_next (step_stays s t accepted h) (λ ended. terminal_stays path ended)
  where
    from_next :
        (t ≡ s) ⊎ (t ≡ superseded)
        → (Ended t → (u ≡ t) ⊎ (u ≡ superseded))
        → (u ≡ s) ⊎ (u ≡ superseded)
    from_next (inl same) rest = elim (rest (subst Ended (sym same) h)) [
      | inl e ↦ inl (e ∙ same)
      | inr e ↦ inr e
    ]
    from_next (inr gone) rest = elim (rest (subst Ended (sym gone) superseded-Ended)) [
      | inl e ↦ inr (e ∙ gone)
      | inr e ↦ inr e
    ]

text-safe_task_status :
    (x : String) (s : TaskStatus) → safe_task_status x ≡ ok s → trim_space x ≡ status_text s
unfolding safe_task_status
text-safe_task_status x s h =
    named_lem status_text task_statuses (trim_space x) (or_invalid_lem _ _ h)

safe_task_status-text :
    (x : String) (s : TaskStatus) → trim_space x ≡ status_text s → safe_task_status x ≡ ok s
unfolding safe_task_status status_text
safe_task_status-text x planned h = rw h
safe_task_status-text x _ h = rw h

-- A text is accepted as a task status exactly when it is the text of that status without the white
-- space round it.
pub safe_task_status_iff :
    (x : String) (s : TaskStatus) → (safe_task_status x ≡ ok s) ↔ (trim_space x ≡ status_text s)
safe_task_status_iff x s = (text-safe_task_status x s, safe_task_status-text x s)
