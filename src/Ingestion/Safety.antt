-- ===== src/Ingestion/Safety.antt =====
-- Which files are taken into the index: `evaluateSafety` of internal/projectingestion/safety.go and
-- `BuildChunks` of its chunker.go. A content is the list of what the UTF-8 decoder reads from it: a byte
-- below 128 always is a rune of its own. The tests for sensitive text and the hash are parameters.
pub mod Laws
pub mod Build
use Prim.Native.Char.{code, len_utf8}
use go_mivia.Base.{
  ℕ, zero, suc, ◌+◌, ◌*◌, ◌/◌, String, Bool, true, false, not, ◌&&◌, ◌||◌, Option, none, some, List,
  [], ◌∷◌, nat_eq, string_eq, ◌==◌, ◌!=◌, ltb, if◌then◌else◌,
}
use go_mivia.Base.Result
use go_mivia.Base.Result.{Result, ok, err, foreign}
use go_mivia.Text.{◌⧺◌}
use go_mivia.Ingestion.Chunks.{Chunk, Decoded, rune, bad_byte, chunk_eligible_text}
use go_mivia.Ingestion.Paths.{normalize_relative_path, matches_denied_path}

-- The constants `SkipReason…`.
pub data SkipReason : Type 0 where
  reason_none unsafe_path denied_path file_too_large binary_content nul_byte : SkipReason
  semantic_too_large invalid_utf8 sensitive_content unsupported_policy : SkipReason
  stat_error read_error chunk_error parse_error : SkipReason

unfoldable pub reason_text : SkipReason → String
reason_text reason_none = ""
reason_text unsafe_path = "unsafe_path"
reason_text denied_path = "denied_path"
reason_text file_too_large = "file_too_large"
reason_text binary_content = "binary_content"
reason_text nul_byte = "nul_byte"
reason_text invalid_utf8 = "invalid_utf8"
reason_text sensitive_content = "sensitive_content"
reason_text unsupported_policy = "unsupported_policy"
reason_text semantic_too_large = "semantic_too_large"
reason_text stat_error = "stat_error"
reason_text read_error = "read_error"
reason_text chunk_error = "chunk_error"
reason_text parse_error = "parse_error"

-- A bound of 0 is none for the size of a file, and the default for that of a chunk; a negative bound does
-- the same in the code.
pub record SafetyOptions : Type 0 where
  pub max_file_bytes : ℕ
  pub max_chunk_bytes : ℕ
  pub sensitive_marker_policy : String

pub record SafetyResult : Type 0 where
  pub eligible : Bool
  pub relative_path : String
  pub relative_path_safe : Bool
  pub reason : SkipReason
  pub size_bytes : ℕ

abbrev pub skip_file : String
skip_file = "skip_file"

-- `16 << 10`
unfoldable pub normalize_safety_options : SafetyOptions → SafetyOptions
normalize_safety_options options = record options {
  max_chunk_bytes = if options.max_chunk_bytes == 0 then 16384 else options.max_chunk_bytes;
  sensitive_marker_policy =
      if options.sensitive_marker_policy == "" then skip_file else options.sensitive_marker_policy;
}

unfoldable pub skipped : SkipReason → String → Bool → ℕ → SafetyResult
skipped reason relative_path relative_path_safe size = record {
  eligible = false;
  relative_path = relative_path;
  relative_path_safe = relative_path_safe;
  reason = reason;
  size_bytes = size;
}

-- `len(content)`
unfoldable pub size_of : List Decoded → ℕ
size_of [] = 0
size_of (rune c ∷ content) = len_utf8 c + size_of content
size_of (bad_byte ∷ content) = suc (size_of content)

abbrev pub is_code : (ℕ → Bool) → Decoded → Bool
is_code p (rune c) = p (code c)
is_code p bad_byte = false

-- `bytes.IndexByte(content, 0) >= 0`
unfoldable pub has_nul : List Decoded → Bool
has_nul [] = false
has_nul (d ∷ content) = is_code (λ n. n == 0) d || has_nul content

-- `utf8.Valid(content)`
unfoldable pub is_valid_utf8 : List Decoded → Bool
is_valid_utf8 [] = true
is_valid_utf8 (rune c ∷ content) = is_valid_utf8 content
is_valid_utf8 (bad_byte ∷ content) = false

is_control : ℕ → Bool
is_control n = not (n == 10 || n == 13 || n == 9) && (ltb n 0x20 || n == 0x7f)

-- the bytes that are control characters
unfoldable pub controls : List Decoded → ℕ
unfolding is_control
controls [] = 0
controls (d ∷ content) =
    let rest = controls content in if is_code is_control d then suc rest else rest

unfoldable pub looks_binary : List Decoded → Bool
looks_binary [] = false
looks_binary (d ∷ content) =
    let control = controls (d ∷ content) in
    ltb 0 control && ltb 30 (control * 100 / size_of (d ∷ content))

-- `redaction.ContainsSensitive` on a path, and the test of a content that `evaluateSafety` is given
pub record Sensors : Type 0 where
  pub path_is_sensitive : String → Bool
  pub contains_sensitive : String → List Decoded → Bool

module _ (sensors : Sensors) where
  -- the checks of a content whose path is accepted
  unfoldable pub evaluate_content : String → List Decoded → ℕ → String → SafetyResult
  evaluate_content path content max_file_bytes policy =
      let size = size_of content in
      if policy != skip_file
      then skipped unsupported_policy path true size
      else if ltb 0 max_file_bytes && ltb max_file_bytes size
      then skipped file_too_large path true size
      else if has_nul content
      then skipped nul_byte path true size
      else if looks_binary content
      then skipped binary_content path true size
      else if not (is_valid_utf8 content)
      then skipped invalid_utf8 path true size
      else if sensors.contains_sensitive path content
      then skipped sensitive_content path true size
      else record {
        eligible = true;
        relative_path = path;
        relative_path_safe = true;
        reason = reason_none;
        size_bytes = size;
      }

  unfoldable pub evaluate_path : Option String → List Decoded → ℕ → String → SafetyResult
  evaluate_path none content max_file_bytes policy = skipped unsafe_path "" false (size_of content)
  evaluate_path (some path) content max_file_bytes policy =
      if matches_denied_path path || sensors.path_is_sensitive path
      then skipped denied_path "" false (size_of content)
      else evaluate_content path content max_file_bytes policy

  -- `evaluateSafety`
  unfoldable pub evaluate_safety : String → List Decoded → ℕ → String → SafetyResult
  evaluate_safety relative_path content max_file_bytes policy =
      evaluate_path (normalize_relative_path relative_path) content max_file_bytes policy

-- `EvaluateSafety`
unfoldable pub evaluate_file : Sensors → String → List Decoded → SafetyOptions → SafetyResult
evaluate_file sensors relative_path content given =
    let options = normalize_safety_options given in
    evaluate_safety sensors relative_path content options.max_file_bytes
      options.sensitive_marker_policy

-- `EvaluateWorkspaceSafety`, whose sensors differ in the test of a content
unfoldable pub evaluate_workspace_safety :
    Sensors → String → List Decoded → ℕ → String → SafetyResult
evaluate_workspace_safety sensors relative_path content max_file_bytes policy =
    evaluate_safety sensors relative_path content max_file_bytes
      (if policy == "" then skip_file else policy)

-- `sha256.Sum256` in hexadecimal
unfoldable pub eligible_content_sha256 :
    (List Decoded → String) → SafetyResult → List Decoded → Result String
eligible_content_sha256 sha result content =
    if result.eligible
    then ok ("sha256:" ⧺ sha content)
    else err (
        foreign
          ("content hash is available only for eligible content: " ⧺ reason_text result.reason))

pub record ChunkSet : Type 0 where
  pub relative_path : String
  pub content_sha256 : String
  pub chunks : List Chunk

-- `BuildChunks`: the zero set of a file that is skipped is `none`.
unfoldable pub build_chunks :
    Sensors
    → (List Decoded → String)
    → String
    → List Decoded
    → SafetyOptions
    → Result (Option ChunkSet × SafetyResult)
build_chunks sensors sha relative_path content given =
    let options = normalize_safety_options given in
    let safety = evaluate_file sensors relative_path content options in
    if not safety.eligible
    then ok (none, safety)
    else Result.◌>>=◌ (eligible_content_sha256 sha safety content) (λ hash.
      Result.◌>>=◌ (chunk_eligible_text safety.relative_path hash options.max_chunk_bytes content)
        (λ chunks. ok (
          some (record {
            relative_path = safety.relative_path;
            content_sha256 = hash;
            chunks = chunks;
          }),
          safety,
        )))
