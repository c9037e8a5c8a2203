-- ===== src/Chain/Rules.antt =====
-- The small validators of internal/projectworkflowchain/validation.go. The package's `refPattern`,
-- `emailPattern` and `phonePattern` are written as those of internal/projectworkplan are. A pattern
-- that a chain is configured with is read by a regular expression engine, which is a parameter.
use Prim.Native.Char.{code}
use Prim.Native.String.{[], ◌∷◌, len}
use go_mivia.Base.{
  ℕ, String, Bool, true, false, not, ◌&&◌, ◌||◌, List, [], ◌∷◌, nat_eq, string_eq, ◌==◌, ltb, leb,
  any, if◌then◌else◌,
}
use go_mivia.Base.Result.{Result, ok, err, invalid_chain, reject_if, ◌>>=◌, ◌>>◌}
use go_mivia.Text.{◌⧺◌, trim_space, has_prefix, contains_text, to_lower}
use go_mivia.Text.Affix.{has_suffix, to_upper}
use go_mivia.WorkPlan.Patterns.{ref_pattern, email_matches, phone_matches, is_digit}
use go_mivia.Chain.Model.{Config}

unfoldable pub safe_ref : String → String → Result String
unfolding trim_space ref_pattern
safe_ref given name =
    let value = trim_space given in
    if ref_pattern value then ok value else err (invalid_chain (name ⧺ " must be a safe ref"))

unfoldable pub safe_optional_ref : String → String → Result String
unfolding safe_ref
safe_optional_ref given name =
    let value = trim_space given in if value == "" then ok "" else safe_ref value name

unfoldable pub safe_project_object : String → String → String → Result (String × String)
unfolding safe_ref
safe_project_object project_id object_id name = do
  project ← safe_ref project_id "project_id"
  object ← safe_ref object_id name
  ok (project, object)

unfoldable pub contains_sensitive : String → Bool
unfolding contains_text to_lower email_matches phone_matches
contains_sensitive value =
    let lower = to_lower value in
    contains_text lower "token="
    || contains_text lower "password"
    || contains_text lower "secret"
    || contains_text lower "raw prompt"
    || email_matches value
    || phone_matches value

unfoldable pub safe_text : String → String → ℕ → Result String
unfolding contains_sensitive trim_space
safe_text given name max =
    let value = trim_space given in
    if value == ""
    then ok ""
    else if ltb max (len value)
    then err (invalid_chain (name ⧺ " is too long"))
    else if contains_sensitive value
    then err (invalid_chain (name ⧺ " contains unsafe content"))
    else ok value

unfoldable pub first_non_empty : List String → String
unfolding trim_space
first_non_empty [] = ""
first_non_empty (value ∷ values) =
    let rest = first_non_empty values in if trim_space value == "" then rest else trim_space value

-- `regexp.Compile(pattern)` and `compiled.MatchString(value)`
pub record Engine : Type 0 where
  pub compiles : String → Bool
  pub matches : String → String → Bool

unbounded : List String
unbounded = ".*" ∷ ".+" ∷ "(?s" ∷ "[\\s\\S]" ∷ "(?=" ∷ []

unfoldable pub validate_input_pattern : Engine → String → Result (Unit {0})
unfolding unbounded has_prefix has_suffix contains_text trim_space
validate_input_pattern engine given =
    let pattern = trim_space given in
    if pattern == "" then ok tt else do
      reject_if (ltb 128 (len pattern)) (invalid_chain "input_pattern is too long")
      reject_if (not (has_prefix pattern "^") || not (has_suffix pattern "$"))
          (invalid_chain "input_pattern must be anchored")
      reject_if (any (contains_text pattern) unbounded)
          (invalid_chain "input_pattern must be bounded")
      reject_if (not (engine.compiles pattern)) (invalid_chain "input_pattern must compile")

is_capital : ℕ → Bool
is_capital c = leb b'A' c && leb c b'Z'

-- `[0-9]+$`
digits_end : Bool → String → Bool
unfolding is_digit
digits_end seen [] = seen
digits_end seen (c ∷ s) = is_digit (code c) && digits_end true s

-- `[A-Z0-9]+-[0-9]+$`, of which `seen` tells whether a character stands before.
key_rest : Bool → String → Bool
unfolding is_digit digits_end is_capital
key_rest seen [] = false
key_rest seen (c ∷ s) =
    seen && code c == b'-' && digits_end false s
    || (is_capital (code c) || is_digit (code c)) && key_rest true s

-- `^[A-Z][A-Z0-9]+-[0-9]+$`
unfoldable pub jira_key_pattern : String → Bool
unfolding key_rest is_capital
jira_key_pattern [] = false
jira_key_pattern (c ∷ s) = is_capital (code c) && key_rest false s

-- the reference for a text, by the kind of input
unfoldable pub ref_of_kind : String → String → Result String
unfolding safe_ref jira_key_pattern to_upper
ref_of_kind kind value =
    if kind == "jira_issue_key"
    then (if jira_key_pattern (to_upper value)
        then ok ("jira:" ⧺ to_upper value)
        else err (invalid_chain "input_text must be a Jira issue key"))
    else if kind == "safe_ref"
    then safe_ref value "input_text" >>= (λ ref. ok ("input:" ⧺ ref))
    else err (invalid_chain "unsupported input_kind")

unfoldable pub normalize_input_ref : Engine → Config → String → Result String
unfolding ref_of_kind first_non_empty contains_sensitive trim_space
normalize_input_ref engine cfg input_text = do
  let value = trim_space input_text
  let pattern = trim_space cfg.input_pattern
  reject_if (value == "") (invalid_chain "input_text is required")
  reject_if (contains_sensitive value) (invalid_chain "input_text contains unsafe content")
  reject_if (not (pattern == "") && not (engine.compiles pattern))
      (invalid_chain "input_pattern must compile")
  reject_if (not (pattern == "") && not (engine.matches pattern value))
      (invalid_chain "input_text does not match configured input_pattern")
  ref_of_kind (first_non_empty (cfg.input_kind ∷ "safe_ref" ∷ [])) value
