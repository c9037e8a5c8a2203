-- ===== src/WorkPlan/Safe.antt =====
-- The validators of internal/projectworkplan/service.go, over the texts of requests: each returns the
-- text without the white space round it, or an error.
pub mod Laws
use Prim.Native.Char.{code}
use Prim.Native.String.{len}
use go_mivia.Base.{
  ℕ, String, Bool, true, false, not, ◌&&◌, ◌||◌, List, [], ◌∷◌, map, nat_eq, string_eq, ◌==◌, ◌!=◌,
  ltb, any, length, is_empty, contains, if◌then◌else◌,
}
use go_mivia.Base.Result.{Result, ok, err, invalid_input, ◌>>=◌}
use go_mivia.Text.{
  ◌⧺◌, trim_space, trim, has_prefix, contains_text, has_code, replace_first, fields, join, is_abs,
}
use go_mivia.WorkPlan.Patterns.{ref_pattern, email_matches, phone_matches}
use go_mivia.WorkPlan.Markers.{contains_unsafe_marker, contains_root_marker}
use go_mivia.WorkPlan.Unique.{unique}

pub is_unsafe_ref : String → Bool
is_unsafe_ref value =
    contains_text value "\\"
    || contains_text value ".."
    || has_prefix value "/"
    || is_abs value
    || contains_unsafe_marker value
    || contains_root_marker value
    || email_matches value
    || not (ref_pattern value)

unfoldable pub safe_ref : String → String → Result String
safe_ref given name =
    let value = trim_space given in
    if value == ""
    then err (invalid_input (name ⧺ " is required"))
    else if is_unsafe_ref value
    then err (invalid_input (name ⧺ " is unsafe"))
    else ok value

unfoldable pub safe_optional_ref : String → String → Result String
safe_optional_ref given name =
    let value = trim_space given in if value == "" then ok "" else safe_ref value name

unfoldable pub safe_project_object : String → String → String → Result (String × String)
safe_project_object project_id object_id name = do
  project ← safe_ref project_id "project_id"
  object ← safe_ref object_id name
  ok (project, object)

safe_path_token : String → Bool
safe_path_token value =
    if value == ""
      || has_prefix value "/"
      || has_prefix value "\\"
      || has_prefix value "~"
      || contains_text value ".."
      || contains_text value ":"
      || is_abs value
      || contains_root_marker value
    then false
    else not (has_code value 0 || has_code value 13 || has_code value 10 || has_code value 9)

redact_field : String → String
redact_field field =
    let trimmed = trim field ".,;:()[]{}<>\"'" in
    if contains_text trimmed "/" && safe_path_token trimmed
    then replace_first field trimmed "path-ref"
    else field

redact_safe_path_tokens : String → String
redact_safe_path_tokens value = join (map redact_field (fields value)) " "

pub is_unsafe_content : String → Bool
is_unsafe_content value =
    let pii_check_value = redact_safe_path_tokens value in
    contains_unsafe_marker value || email_matches pii_check_value || phone_matches pii_check_value

unfoldable pub safe_text_content : String → String → Result String
safe_text_content value name =
    if is_unsafe_content value
    then err (invalid_input (name ⧺ " contains unsafe content"))
    else ok value

unfoldable pub safe_optional_text : String → String → ℕ → Result String
safe_optional_text given name max =
    let value = trim_space given in
    if ltb max (len value)
    then err (invalid_input (name ⧺ " is too long"))
    else safe_text_content value name

unfoldable pub safe_required_text : String → String → ℕ → Result String
safe_required_text given name max = do
  value ← safe_optional_text given name max
  if value == "" then err (invalid_input (name ⧺ " is required")) else ok value

unfoldable pub safe_resume_instructions : String → String → Result String
safe_resume_instructions given name = safe_text_content (trim_space given) name

-- The loops of `safeTextList` and `safeRefList`, each value through a validator.
pub validate_all : (String → Result String) → List String → Result (List String)
validate_all f [] = ok []
validate_all f (value ∷ values) = do safe ← f value; rest ← validate_all f values; ok (safe ∷ rest)

unfoldable pub safe_text_list : List String → String → ℕ → Result (List String)
safe_text_list values name max = do
  out ← validate_all (λ value. safe_required_text value name max) values
  ok (unique out)

unfoldable pub safe_ref_list : List String → String → Result (List String)
safe_ref_list values name = do
  out ← validate_all (λ value. safe_ref value name) values
  ok (unique out)

pub is_unsafe_path : String → Bool
is_unsafe_path value =
    has_prefix value "/"
    || has_prefix value "\\"
    || contains_text value ".."
    || contains_text value ":"
    || has_prefix value "~"
    || is_abs value

pub safe_paths : List String → String → Result (List String)
safe_paths [] name = ok []
safe_paths (given ∷ values) name =
    let value = trim_space given in
    let rest = safe_paths values name in
    if value == ""
    then rest
    else if is_unsafe_path value
    then err (invalid_input (name ⧺ " contains unsafe path"))
    else do out ← rest; ok (value ∷ out)

unfoldable pub safe_path_list : List String → String → Result (List String)
safe_path_list values name = do out ← safe_paths values name; ok (unique out)

abbrev isolation_modes : List String
isolation_modes = "" ∷ "shared" ∷ "dedicated_worktree" ∷ "unavailable" ∷ []

unfoldable pub safe_work_plan_isolation_mode : String → Result String
safe_work_plan_isolation_mode mode =
    if contains isolation_modes (trim_space mode)
    then ok (trim_space mode)
    else err (invalid_input "invalid isolation_mode")

abbrev qualities : List String
qualities =
    "draft" ∷ "ready" ∷ "too_broad" ∷ "missing_evidence" ∷ "missing_context"
    ∷ "missing_verification" ∷ "missing_resume" ∷ []

unfoldable pub safe_decomposition_quality : String → Result String
safe_decomposition_quality quality =
    if contains qualities (trim_space quality)
    then ok (trim_space quality)
    else err (invalid_input "invalid decomposition_quality")

unfoldable pub assess_decomposition :
    List String → List String → List String → String → String → String → String → String
assess_decomposition evidence context_refs files verify expected failure resume =
    if is_empty evidence
    then "missing_evidence"
    else if is_empty context_refs && is_empty files
    then "missing_context"
    else if trim_space verify == ""
    then "missing_verification"
    else if trim_space resume == ""
    then "missing_resume"
    else if trim_space expected == "" || trim_space failure == ""
    then "draft"
    else if ltb 8 (length files)
    then "too_broad"
    else "ready"

-- All that a test of a validator computes with.
unfoldable pub validators : Unit {0}
unfolding safe_ref safe_optional_ref safe_project_object safe_text_content safe_optional_text
    safe_required_text safe_resume_instructions safe_text_list safe_ref_list safe_path_list
    safe_work_plan_isolation_mode safe_decomposition_quality assess_decomposition is_unsafe_ref
    is_unsafe_content redact_safe_path_tokens redact_field safe_path_token validate_all safe_paths
    is_unsafe_path unique trim_space trim contains_text has_prefix has_code replace_first fields
    join is_abs ref_pattern email_matches phone_matches contains_unsafe_marker contains_root_marker
validators = tt
