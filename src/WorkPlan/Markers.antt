-- ===== src/WorkPlan/Markers.antt =====
-- The markers of secrets and of raw content that internal/projectworkplan/service.go looks for.
use Prim.Native.Char.{code}
use Prim.Native.String.{[], ◌∷◌}
use go_mivia.Base.{
  String, Bool, false, ◌&&◌, ◌||◌, List, [], ◌∷◌, nat_eq, ◌==◌, leb, any, if◌then◌else◌,
}
use go_mivia.Text.{◌⧺◌, has_prefix, contains_text, replace_all, to_lower}

abbrev prohibitions : List String
prohibitions =
    "no raw prompt" ∷ "never store" ∷ "must not store" ∷ "do not store" ∷ "must not expose"
    ∷ "do not expose" ∷ "would expose" ∷ "must not include" ∷ "do not include" ∷ "would include"
    ∷ "would store" ∷ "prohibited" ∷ []

abbrev redacted_markers : List String
redacted_markers =
    "raw prompts" ∷ "raw prompt" ∷ "raw completions" ∷ "raw completion" ∷ "raw_prompt"
    ∷ "raw_completion" ∷ "raw source" ∷ "source dumps" ∷ "source dump" ∷ "raw stderr" ∷ "raw_stderr"
    ∷ "provider payloads" ∷ "provider payload" ∷ "provider_payload" ∷ "credentials" ∷ "credential"
    ∷ "secrets" ∷ "secret" ∷ "roots" ∷ "root" ∷ "paths" ∷ "path" ∷ []

abbrev prefixes : List String
prefixes =
    "no" ∷ "never store" ∷ "must not store" ∷ "do not store" ∷ "would store" ∷ "must not expose"
    ∷ "do not expose" ∷ "would expose" ∷ "must not include" ∷ "do not include" ∷ "would include"
    ∷ []

abbrev prefixed_markers : List String
prefixed_markers =
    "raw prompts" ∷ "raw prompt" ∷ "raw completions" ∷ "raw completion" ∷ "raw source"
    ∷ "source dumps" ∷ "source dump" ∷ "raw stderr" ∷ "provider payloads" ∷ "provider payload"
    ∷ "credentials" ∷ "credential" ∷ "secrets" ∷ "secret" ∷ "roots" ∷ "root" ∷ "paths" ∷ "path" ∷ []

-- `for _, marker := range markers { value = strings.ReplaceAll(value, before+marker, "") }`
remove_all : String → List String → String → String
remove_all before [] value = value
remove_all before (marker ∷ rest) value =
    remove_all before rest (replace_all value (before ⧺ marker) "")

remove_prefixed : List String → String → String
unfolding remove_all
remove_prefixed [] value = value
remove_prefixed (prefix ∷ rest) value =
    remove_prefixed rest (remove_all (prefix ⧺ " ") prefixed_markers value)

redact_safe_prohibition_phrases : String → String
unfolding remove_all remove_prefixed replace_all contains_text
redact_safe_prohibition_phrases value =
    let prohibits = any (contains_text value) prohibitions in
    remove_prefixed prefixes (if prohibits then remove_all "" redacted_markers value else value)

abbrev markers : List String
markers =
    "begin private key" ∷ "openai_api_key" ∷ "anthropic_api_key" ∷ "ghp_" ∷ "api_key" ∷ "password="
    ∷ "secret=" ∷ "token=" ∷ "credential=" ∷ "raw_prompt" ∷ "raw prompt" ∷ "raw_completion"
    ∷ "raw completion" ∷ "raw_stderr" ∷ "raw stderr" ∷ "provider_payload" ∷ "provider payload"
    ∷ "raw source" ∷ "source dump" ∷ []

unfoldable pub contains_unsafe_marker : String → Bool
unfolding redact_safe_prohibition_phrases to_lower contains_text has_prefix
contains_unsafe_marker value =
    let lower = redact_safe_prohibition_phrases (to_lower value) in
    any (contains_text lower) markers
    || has_prefix lower "sk-"
    || contains_text lower " sk-"
    || contains_text lower "=sk-"

-- `^[a-z]:`
starts_with_drive : String → Bool
starts_with_drive (c ∷ d ∷ s) = leb b'a' (code c) && leb (code c) b'z' && code d == b':'
starts_with_drive _ = false

unfoldable pub contains_root_marker : String → Bool
unfolding replace_all to_lower contains_text starts_with_drive
contains_root_marker value =
    let normalized = to_lower (replace_all value "\\" "/") in
    contains_text normalized "/home/"
    || contains_text normalized "/users/"
    || contains_text normalized "wsl.localhost/"
    || contains_text normalized "c:/"
    || starts_with_drive normalized
