-- ===== src/Ingestion/Paths.antt =====
-- The rules for the paths of files: `normalizeRelativePath` and `matchesDeniedPath` of
-- internal/projectingestion/safety.go.
pub mod Laws
use Prim.Native.Char.{code}
use Prim.Native.String.{[], ◌∷◌}
use go_mivia.Base.{
  String, Bool, true, false, not, ◌&&◌, ◌||◌, Option, none, some, List, [], ◌∷◌, nat_eq, string_eq,
  ◌==◌, any, contains, if◌then◌else◌,
}
use go_mivia.Text.{◌⧺◌, trim_space, has_prefix, has_code, contains_text}
use go_mivia.Text.Affix.{has_suffix, trim_suffix}
use go_mivia.Text.Path.{split, clean, base, match_path}
use go_mivia.WorkPlan.Patterns.{is_letter}

-- `^[A-Za-z]:($|[\\/])`
unfoldable pub windows_root_pattern : String → Bool
unfolding is_letter
windows_root_pattern (c ∷ d ∷ []) = is_letter (code c) && code d == b':'
windows_root_pattern (c ∷ d ∷ e ∷ s) =
    is_letter (code c) && code d == b':' && (code e == b'\\' || code e == b'/')
windows_root_pattern _ = false

abbrev pub is_bad_part : String → Bool
is_bad_part part = part == "" || part == "." || part == ".."

-- the path cleaned, unless it leaves its root
unfoldable pub checked : String → Option String
checked cleaned =
    if cleaned == "." || cleaned == ".." || has_prefix cleaned "../"
    then none
    else if any is_bad_part (split cleaned)
    then none
    else some cleaned

unfoldable pub normalize_relative_path : String → Option String
normalize_relative_path given =
    if given == "" || trim_space given == ""
    then none
    else if has_code given 0 || contains_text given "\\"
    then none
    else if has_prefix given "/" || has_prefix given "//" || windows_root_pattern given
    then none
    else if contains (split given) ".."
    then none
    else checked (clean given)

abbrev denied_path_patterns : List String
denied_path_patterns =
    ".git/**" ∷ "data/**" ∷ "secrets/**" ∷ ".env*" ∷ "lib-ladybug/**" ∷ "node_modules/**"
    ∷ "vendor/**" ∷ ".venv/**" ∷ "dist/**" ∷ "build/**" ∷ "coverage/**" ∷ "*.pem" ∷ "*.key"
    ∷ "*.p12" ∷ []

abbrev pub denied_path_segments : List String
denied_path_segments =
    ".git" ∷ "data" ∷ "secrets" ∷ "lib-ladybug" ∷ "node_modules" ∷ "vendor" ∷ ".venv" ∷ "dist"
    ∷ "build" ∷ "coverage" ∷ []

unfoldable pub matches_path_pattern : String → String → Bool
matches_path_pattern pattern relative_path =
    if has_suffix pattern "/**"
    then relative_path == trim_suffix pattern "/**"
      || has_prefix relative_path (trim_suffix pattern "/**" ⧺ "/")
    else match_path pattern relative_path || match_path pattern (base relative_path)

unfoldable pub is_denied_part : String → Bool
is_denied_part part = contains denied_path_segments part || has_prefix part ".env"

unfoldable pub matches_denied_path : String → Bool
unfolding is_denied_part
matches_denied_path relative_path =
    has_prefix (base relative_path) ".env"
    || any is_denied_part (split relative_path)
    || any (λ pattern. matches_path_pattern pattern relative_path) denied_path_patterns
