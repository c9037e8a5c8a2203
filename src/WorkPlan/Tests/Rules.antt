-- ===== src/WorkPlan/Tests/Rules.antt =====
-- The rules of work plans, tasks and references at concrete values.
use go_mivia.Base.{
  ◌≤◌, ◌≡◌, ◌≢◌, ◌↔◌, ◌⊎◌, refl, String, List, [], ◌∷◌, true, false, arith, string_eq, length,
}
use go_mivia.Base.Result.{ok}
use text.Mathlib.TextEquality.{eq_iff}
use Prim.Native.String.{count, len}
use go_mivia.Text.{trim_space, contains_text, has_prefix}
use go_mivia.WorkPlan.Patterns.{is_ref_char}
use go_mivia.WorkPlan.TaskStatus.{
  allowed_task, ready, claimed, done, superseded, is_terminal_task_status, validate_task_transition,
  safe_task_status, status_text,
}
use go_mivia.WorkPlan.TaskStatus.Graph.{
  ◌⟶◌, ◌⟶*◌, validate_task_transition_iff, terminal_stays, safe_task_status_iff,
}
use go_mivia.WorkPlan.PlanStatus.{PlanStatus, validate_plan_transition}
use go_mivia.WorkPlan.PlanStatus.Graph as PlanGraph
use go_mivia.WorkPlan.PlanStatus.Graph.{validate_plan_transition_iff, safe_plan_status_iff}
use go_mivia.WorkPlan.Unique.{unique}
use go_mivia.WorkPlan.Unique.Canonical.{unique-ext}
use go_mivia.WorkPlan.Safe.{safe_optional_text, assess_decomposition, validators}
use go_mivia.WorkPlan.Safe.Laws.{
  AllCodes, safe_ref_shape, safe_optional_text_idem, assess_decomposition_iff,
}

validate_task_transition_iff_example :
    (validate_task_transition ready claimed ≡ ok tt) ↔ (ready ≡ claimed) ⊎ (ready ⟶ claimed)
validate_task_transition_iff_example = validate_task_transition_iff ready claimed

terminal_stays_example : (superseded ≡ done) ⊎ (superseded ≡ superseded)
unfolding is_terminal_task_status validate_task_transition allowed_task
terminal_stays_example = terminal_stays (◌⟶*◌.then {s = done} {t = superseded} refl ◌⟶*◌.here) refl

safe_task_status_iff_example :
    (safe_task_status " done " ≡ ok done) ↔ (trim_space " done " ≡ status_text done)
safe_task_status_iff_example = safe_task_status_iff " done " done

validate_plan_transition_iff_example :
    (validate_plan_transition PlanStatus.active PlanStatus.done ≡ ok tt)
    ↔ (PlanStatus.active ≡ PlanStatus.done) ⊎ (PlanGraph.◌⟶◌ PlanStatus.active PlanStatus.done)
validate_plan_transition_iff_example =
    validate_plan_transition_iff PlanStatus.active PlanStatus.done

unique-ext_example : unique ("a" ∷ "" ∷ "a" ∷ []) ≡ unique ("a" ∷ [])
unique-ext_example =
    unique-ext ("a" ∷ "" ∷ "a" ∷ []) ("a" ∷ [])
      λ a. ground (arith, eq_iff "" a, eq_iff a "", eq_iff "a" a)

safe_optional_text_idem_example :
    (len "some text" ≤ 300) × (safe_optional_text "some text" "outcome" 300 ≡ ok "some text")
unfolding validators
safe_optional_text_idem_example =
    safe_optional_text_idem " some text " "note" "outcome" 300 {t = "some text"} refl

abbrev run_1 : String
run_1 = "run-1"

safe_ref_shape_example :
    (run_1 ≢ "")
    × AllCodes (λ n. is_ref_char n ≡ true) run_1
    × (count run_1 ≤ 200)
    × (contains_text run_1 ".." ≡ false)
    × (has_prefix run_1 "/" ≡ false)
unfolding validators
safe_ref_shape_example = safe_ref_shape " run-1 " "run_id" {r = run_1} refl

abbrev one : List String
one = "ref_1" ∷ []

abbrev no_refs : List String
no_refs = []

abbrev words : String
words = "text"

assess_decomposition_iff_example :
    (assess_decomposition one no_refs one words words words words ≡ "ready")
    ↔ (one ≢ [])
      × ((no_refs ≢ []) ⊎ (one ≢ []))
      × (trim_space words ≢ "")
      × (trim_space words ≢ "")
      × (trim_space words ≢ "")
      × (trim_space words ≢ "")
      × (length one ≤ 8)
assess_decomposition_iff_example = assess_decomposition_iff one no_refs one words words words words
