-- ===== src/Chain/Run.antt =====
-- The parts of internal/projectworkflowchain/service.go that call no other component: the choice of the
-- next stage, and the texts and lists of a run.
pub mod Progress
pub mod Reason
pub mod Order
use Prim.Native.Char.{Char, code, len_utf8}
use Prim.Native.String.{[], ◌∷◌, len}
use go_mivia.Base.{
  ℕ, ◌-◌, String, Bool, true, false, not, ◌&&◌, ◌||◌, Option, none, some, List, [], ◌∷◌, ◌++◌,
  nat_eq, string_eq, ◌==◌, ltb, leb, all, contains, is_empty, if◌then◌else◌,
}
use go_mivia.Base.Result.{Error, invalid_input, invalid_chain, not_found, duplicate, foreign}
use go_mivia.Text.{◌⧺◌, trim_space, trim, to_lower, replace_all}
use go_mivia.Text.Affix.{has_suffix, trim_prefix}
use go_mivia.Chain.Model.{
  Config, StageConfig, ChainRun, StageRun, StageStatus, stage_planned, stage_completed,
  stage_status_eq,
}

-- `statusByRef[ref]`: the last stage with a reference stands in the map.
unfoldable pub status_from : Option StageStatus → List StageRun → String → Option StageStatus
status_from found [] ref = found
status_from found (stage ∷ stages) ref =
    status_from (if stage.stage_ref == ref then some stage.status else found) stages ref

unfoldable pub status_of : List StageRun → String → Option StageStatus
unfolding status_from
status_of stages ref = status_from none stages ref

-- A missing key reads as the empty text, which is no status.
abbrev pub is_status : StageStatus → Option StageStatus → Bool
is_status wanted none = false
is_status wanted (some status) = status == wanted

unfoldable pub is_ready : List StageRun → StageConfig → Bool
is_ready runs stage =
    is_status stage_planned (status_of runs stage.stage_ref)
    && all (λ dep. is_status stage_completed (status_of runs dep)) stage.depends_on

unfoldable pub first_ready : List StageRun → List StageConfig → Option StageConfig
first_ready runs [] = none
first_ready runs (stage ∷ stages) =
    let rest = first_ready runs stages in if is_ready runs stage then some stage else rest

unfoldable pub next_ready_stage : Config → ChainRun → Option StageConfig
next_ready_stage cfg run = first_ready run.stage_runs cfg.stages

unfoldable pub all_stages_completed : ChainRun → Bool
all_stages_completed run =
    not (is_empty run.stage_runs) && all (λ stage. stage.status == stage_completed) run.stage_runs

unfoldable pub append_unique : List String → String → List String
append_unique values next =
    if trim_space next == ""
    then values
    else if contains values next
    then values
    else values ++ next ∷ []

unfoldable pub append_unique_many : List String → List String → List String
append_unique_many values [] = values
append_unique_many values (value ∷ more) = append_unique_many (append_unique values value) more

-- The last element that passes, or a text for none.
last_plan_id : (StageRun → Bool) → String → List StageRun → String
last_plan_id keep found [] = found
last_plan_id keep found (stage ∷ stages) =
    last_plan_id keep
      (if keep stage && not (trim_space stage.work_plan_id == "")
        then stage.work_plan_id
        else found)
      stages

abbrev last_text : List String → String
last_text [] = ""
last_text (x ∷ []) = x
last_text (x ∷ y ∷ xs) = last_text (y ∷ xs)

unfoldable pub git_ops_source_work_plan_id : ChainRun → String
unfolding last_plan_id
git_ops_source_work_plan_id run =
    last_plan_id (λ stage. stage.stage_ref == "implementation")
      (last_plan_id (λ stage. true) (last_text run.work_plan_ids) run.stage_runs) run.stage_runs

unfoldable pub context_refs_for_input : Config → String → List String
unfolding trim_prefix
context_refs_for_input cfg input_ref =
    if cfg.context_provider == "jira"
    then input_ref ∷ []
    else if cfg.context_provider == "confluence"
    then ("confluence:" ⧺ trim_prefix input_ref "input:") ∷ []
    else if cfg.context_provider == "indexed_repo"
    then ("repo:" ⧺ trim_prefix input_ref "input:") ∷ []
    else []

-- The characters that fit into the first `n` bytes: a text here has no part of a character.
first_bytes : ℕ → String → String
first_bytes n [] = ""
first_bytes n (c ∷ s) =
    let rest = first_bytes (n - len_utf8 c) s in if leb (len_utf8 c) n then c ∷ rest else ""

unfoldable pub render_template : String → String → String → String
unfolding replace_all first_bytes trim_space
render_template template chain_ref input_ref =
    let out =
      replace_all (replace_all template "{{chain_ref}}" chain_ref) "{{input_ref}}" input_ref in
    if ltb 200 (len out) then trim_space (first_bytes 200 out) else out

-- `err.Error()`, where the store is that of the work plans.
unfoldable pub error_text : Error → String
error_text (invalid_input text) = "invalid input: " ⧺ text
error_text (invalid_chain text) = "invalid project workflow chain input: " ⧺ text
error_text not_found = "project work plan resource not found"
error_text duplicate = "project work plan resource already exists"
error_text (foreign text) = text

unfoldable pub is_kept : ℕ → Bool
is_kept r = leb b'a' r && leb r b'z' || leb b'0' r && leb r b'9' || r == b'_' || r == b'-'

unfoldable pub is_break : ℕ → Bool
is_break r = r == b':' || r == b'/' || r == b'\\' || r == b' ' || r == 9 || r == 10

unfoldable pub write_char : Char → String → String
write_char c built =
    if is_kept (code c)
    then built ⧺ c ∷ ""
    else if is_break (code c) && not (built == "") && not (has_suffix built "_")
    then built ⧺ "_"
    else built

-- The loop over the characters, which ends when 80 bytes are written.
unfoldable pub write_chars : String → String → String
write_chars [] built = built
write_chars (c ∷ s) built =
    let next = write_char c built in
    let rest = write_chars s next in if leb 80 (len next) then next else rest

unfoldable pub git_ops_blocked_reason : Error → String
git_ops_blocked_reason problem =
    let safe = trim (write_chars (to_lower (trim_space (error_text problem))) "") "_-" in
    if safe == "" then "gitops_finalize_failed" else "gitops_finalize_failed_" ⧺ safe
