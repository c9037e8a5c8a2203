-- ===== src/WorkPlan/TaskStatus.antt =====
-- The life of a work task: the statuses of internal/projectworkplan/model.go and the transition rules
-- of internal/projectworkplan/service.go.
pub mod Graph
use go_mivia.Base.{
  ℕ, String, ◌≡◌, ◌↔◌, Bool, true, false, ◌&&◌, ◌||◌, List, [], ◌∷◌, map, arith, Eq, nat_eq,
  string_eq, ◌==◌, if◌then◌else◌, contains, is_empty, named,
}
use go_mivia.Base.Result.{Result, ok, err, invalid_input, or_invalid}
use go_mivia.Text.{◌⧺◌, trim_space, join}

pub data TaskStatus : Type 0 where
  planned ready claimed in_progress blocked needs_review verifying : TaskStatus
  done failed cancelled superseded : TaskStatus

-- The text that stands for a status in a request, in JSON and in the store.
unfoldable pub status_text : TaskStatus → String
status_text planned = "planned"
status_text ready = "ready"
status_text claimed = "claimed"
status_text in_progress = "in_progress"
status_text blocked = "blocked"
status_text needs_review = "needs_review"
status_text verifying = "verifying"
status_text done = "done"
status_text failed = "failed"
status_text cancelled = "cancelled"
status_text superseded = "superseded"

abbrev place : TaskStatus → ℕ
place planned = 0
place ready = 1
place claimed = 2
place in_progress = 3
place blocked = 4
place needs_review = 5
place verifying = 6
place done = 7
place failed = 8
place cancelled = 9
place superseded = 10

place_injective : (a b : TaskStatus) → place a ≡ place b → a ≡ b
place_injective a b h = ground arith

pub status_beq_iff : (a b : TaskStatus) → ((place a == place b) ≡ true) ↔ (a ≡ b)
status_beq_iff a b = ground (arith, place_injective a b)

instance abbrev pub task_status_eq : Eq TaskStatus
task_status_eq = record { beq = λ a b. place a == place b; beq_iff = status_beq_iff }

unfoldable pub is_terminal_task_status : TaskStatus → Bool
is_terminal_task_status status =
    status == done || status == failed || status == cancelled || status == superseded

unfoldable pub release_is_stale : TaskStatus → Bool
release_is_stale verifying = true
release_is_stale done = true
release_is_stale failed = true
release_is_stale cancelled = true
release_is_stale superseded = true
release_is_stale _ = false

-- `superseded` has no entry in the table, which reads as the empty list.
unfoldable pub allowed_task : TaskStatus → List TaskStatus
allowed_task planned = ready ∷ cancelled ∷ superseded ∷ []
allowed_task ready = claimed ∷ blocked ∷ cancelled ∷ superseded ∷ []
allowed_task claimed = in_progress ∷ ready ∷ blocked ∷ cancelled ∷ superseded ∷ []
allowed_task in_progress =
    ready ∷ blocked ∷ needs_review ∷ verifying ∷ failed ∷ cancelled ∷ superseded ∷ []
allowed_task blocked = ready ∷ cancelled ∷ superseded ∷ []
allowed_task needs_review = ready ∷ verifying ∷ done ∷ failed ∷ cancelled ∷ superseded ∷ []
allowed_task verifying = done ∷ failed ∷ blocked ∷ cancelled ∷ superseded ∷ []
allowed_task done = superseded ∷ []
allowed_task failed = superseded ∷ []
allowed_task cancelled = superseded ∷ []
allowed_task superseded = []

-- `validateTransition`, over the texts of the statuses.
unfoldable pub validate_transition : String → String → List String → String → Result (Unit {0})
validate_transition from to allowed_next label =
    if contains allowed_next to
    then ok tt
    else if is_empty allowed_next
    then err (
        invalid_input (
          "invalid " ⧺ label ⧺ " transition " ⧺ from ⧺ " -> " ⧺ to
          ⧺ "; no transitions are allowed from " ⧺ from))
    else err (
        invalid_input (
          "invalid "
          ⧺ label
          ⧺ " transition "
          ⧺ from
          ⧺ " -> "
          ⧺ to
          ⧺ "; allowed from "
          ⧺ from
          ⧺ ": "
          ⧺ join allowed_next ", "))

unfoldable pub validate_task_transition : TaskStatus → TaskStatus → Result (Unit {0})
unfolding validate_transition allowed_task status_text
validate_task_transition from to =
    if from == to
    then ok tt
    else validate_transition (status_text from) (status_text to)
        (map status_text (allowed_task from)) "work task"

abbrev task_statuses : List TaskStatus
task_statuses =
    planned ∷ ready ∷ claimed ∷ in_progress ∷ blocked ∷ needs_review ∷ verifying ∷ done ∷ failed
    ∷ cancelled ∷ superseded ∷ []

-- The `switch` over the texts of the statuses.
unfoldable pub safe_task_status : String → Result TaskStatus
unfolding named status_text
safe_task_status status =
    or_invalid (named status_text task_statuses (trim_space status)) "invalid work task status"
