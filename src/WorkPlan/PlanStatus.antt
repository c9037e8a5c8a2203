-- ===== src/WorkPlan/PlanStatus.antt =====
-- The life of a work plan: the statuses of internal/projectworkplan/model.go and the transition rules
-- of internal/projectworkplan/service.go.
pub mod Graph
use go_mivia.Base.{
  ℕ, String, ◌≡◌, ◌↔◌, Bool, true, ◌||◌, List, [], ◌∷◌, map, arith, Eq, nat_eq, ◌==◌, if◌then◌else◌,
  named,
}
use go_mivia.Base.Result.{Result, ok, or_invalid}
use go_mivia.Text.{trim_space}
use go_mivia.WorkPlan.TaskStatus.{validate_transition}

pub data PlanStatus : Type 0 where
  planned active blocked needs_review done failed cancelled superseded : PlanStatus

unfoldable pub plan_status_text : PlanStatus → String
plan_status_text planned = "planned"
plan_status_text active = "active"
plan_status_text blocked = "blocked"
plan_status_text needs_review = "needs_review"
plan_status_text done = "done"
plan_status_text failed = "failed"
plan_status_text cancelled = "cancelled"
plan_status_text superseded = "superseded"

abbrev place : PlanStatus → ℕ
place planned = 0
place active = 1
place blocked = 2
place needs_review = 3
place done = 4
place failed = 5
place cancelled = 6
place superseded = 7

place_injective : (a b : PlanStatus) → place a ≡ place b → a ≡ b
place_injective a b h = ground arith

pub plan_status_beq_iff : (a b : PlanStatus) → ((place a == place b) ≡ true) ↔ (a ≡ b)
plan_status_beq_iff a b = ground (arith, place_injective a b)

instance abbrev pub plan_status_eq : Eq PlanStatus
plan_status_eq = record { beq = λ a b. place a == place b; beq_iff = plan_status_beq_iff }

unfoldable pub is_terminal_plan_status : PlanStatus → Bool
is_terminal_plan_status status =
    status == done || status == failed || status == cancelled || status == superseded

-- `superseded` has no entry in the table, which reads as the empty list.
unfoldable pub allowed_plan : PlanStatus → List PlanStatus
allowed_plan planned = active ∷ cancelled ∷ []
allowed_plan active = blocked ∷ needs_review ∷ done ∷ failed ∷ cancelled ∷ superseded ∷ []
allowed_plan blocked = active ∷ cancelled ∷ superseded ∷ []
allowed_plan needs_review = active ∷ done ∷ failed ∷ cancelled ∷ []
allowed_plan done = superseded ∷ []
allowed_plan failed = superseded ∷ []
allowed_plan cancelled = superseded ∷ []
allowed_plan superseded = []

unfoldable pub validate_plan_transition : PlanStatus → PlanStatus → Result (Unit {0})
unfolding validate_transition allowed_plan plan_status_text
validate_plan_transition from to =
    if from == to
    then ok tt
    else validate_transition (plan_status_text from) (plan_status_text to)
        (map plan_status_text (allowed_plan from)) "work plan"

abbrev plan_statuses : List PlanStatus
plan_statuses =
    planned ∷ active ∷ blocked ∷ needs_review ∷ done ∷ failed ∷ cancelled ∷ superseded ∷ []

unfoldable pub safe_plan_status : String → Result PlanStatus
unfolding named plan_status_text
safe_plan_status status =
    or_invalid (named plan_status_text plan_statuses (trim_space status)) "invalid work plan status"
