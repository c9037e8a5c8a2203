-- ===== src/Ingestion/Reader.antt =====
-- `BuildChunksFromReader` of internal/projectingestion/chunker.go, which takes a large file into the index
-- without holding it. What a reader gives are the runes of its content, bytes that are part of none, and
-- at the end an error, if it fails. The size that is given is that of a file, and not below 0.
pub mod Laws
pub mod Returns
pub mod Taken
pub mod Same
use Prim.Native.Char.{Char, code, len_utf8}
use go_mivia.Base.{
  ℕ, zero, suc, ◌+◌, ◌-◌, String, Bool, true, false, not, ◌&&◌, ◌||◌, Option, none, some, List, [],
  ◌∷◌, ◌++◌, nat_eq, string_eq, ◌==◌, ◌!=◌, ltb, leb, contains, if◌then◌else◌,
}
use go_mivia.Base.Result
use go_mivia.Base.Result.{Result, Error, ok, err}
use go_mivia.Text.{◌⧺◌}
use go_mivia.Ingestion.Chunks.{Decoded, rune, bad_byte}
use go_mivia.Ingestion.Chunks.Stream.{Builder, new_builder, append_rune, finish}
use go_mivia.Ingestion.Scanner.{structured_config_kind, Scanner, push}
use go_mivia.Ingestion.Paths.{normalize_relative_path, matches_denied_path}
use go_mivia.Ingestion.Safety.{
  SkipReason, unsafe_path, denied_path, unsupported_policy, semantic_too_large, invalid_utf8,
  nul_byte, binary_content, sensitive_content, reason_none, skip_file, SafetyOptions, SafetyResult,
  normalize_safety_options, skipped, size_of, looks_binary, Sensors, ChunkSet,
}

-- `16 << 20`
abbrev pub structured_streaming_safety_max_bytes : ℕ
structured_streaming_safety_max_bytes = 16777216

-- The state of the loop; `hashed` is what the hasher was given.
pub record Reading : Type 0 where
  pub builder : Builder
  pub total : ℕ
  pub sample : List Decoded
  pub sample_checked : Bool
  pub sensitive : Scanner
  pub structured_content : List Decoded
  pub hashed : List Decoded

-- The answer: the zero set of a file that is skipped is `none`.
abbrev pub Answer : Type 0
Answer = Result (Option ChunkSet × SafetyResult)

-- What one turn of the loop ends in: the next turn, or a `return`.
pub data Step : Type 0 where
  go_on : Reading → Step
  leave : Answer → Step

unfoldable pub then_step : Step → (Reading → Step) → Step
then_step (go_on s) next = next s
then_step (leave answer) next = leave answer

unfoldable pub leave_skipped : Bool → Answer → Step → Step
leave_skipped true answer step = leave answer
leave_skipped false answer step = step

unfoldable pub put_builder : Result Builder → Reading → Step
put_builder (ok builder) s = go_on (record s { builder = builder })
put_builder (err problem) s = leave (err problem)

pub record Reader : Type 0 where
  pub content : List Decoded
  pub failure : Option Error

abbrev pub end_of_reader : Option Error → Reading → Step
end_of_reader none s = go_on s
end_of_reader (some problem) s = leave (err problem)

unfoldable pub answer_of : (Reading → Answer) → Step → Answer
answer_of close (go_on s) = close s
answer_of close (leave answer) = answer

abbrev pub start_reading : String → ℕ → Reading
start_reading path max_chunk_bytes = record {
  builder = new_builder path max_chunk_bytes;
  total = 0;
  sample = [];
  sample_checked = false;
  sensitive = record { relative_path = path; window = [] };
  structured_content = [];
  hashed = [];
}

unfoldable pub add_sample : Char → Reading → Reading
add_sample c s =
    if ltb (size_of s.sample) 4096
    then (let sample = s.sample ++ rune c ∷ [] in
        record s {
          sample = sample;
          sample_checked = s.sample_checked || leb 4096 (size_of sample);
        })
    else s

-- the sample becomes complete with this rune
unfoldable pub completes_sample : Char → Reading → Bool
completes_sample c s = ltb (size_of s.sample) 4096 && leb 4096 (size_of (s.sample ++ rune c ∷ []))

-- `containsPIIMarker(value) || containsContentMarkerPattern(value, contentMarkerPatterns)` on a text
module _ (sensors : Sensors) (has_hard_marker : List Decoded → Bool) where
  -- `scanner.Write`, after `append`
  abbrev pub write : Scanner → Bool
  write scanner = sensors.contains_sensitive scanner.relative_path scanner.window

  -- `scanner.WriteHardMarkers`, after `append`
  abbrev pub write_hard_markers : Scanner → Bool
  write_hard_markers scanner = has_hard_marker scanner.window

  module _ (path : String) (structured : Bool) where
    abbrev skip : SkipReason → ℕ → Answer
    skip reason size = ok (none, skipped reason path true size)

    -- a rune of a structured configuration, which is scanned whole at the end
    unfoldable pub take_structured : Char → Reading → Step
    take_structured c s =
        let content = s.structured_content ++ rune c ∷ [] in
        let scanner = push s.sensitive c in
        leave_skipped (ltb structured_streaming_safety_max_bytes (size_of content))
          (skip semantic_too_large s.total)
          (leave_skipped (write_hard_markers scanner) (skip sensitive_content s.total) (
            put_builder (append_rune s.builder c)
              (record s { structured_content = content; sensitive = scanner })))

    unfoldable pub take_plain : Char → Reading → Step
    take_plain c s =
        let scanner = push s.sensitive c in
        leave_skipped (write scanner) (skip sensitive_content s.total)
          (put_builder (append_rune s.builder c) (record s { sensitive = scanner }))

    -- the sample, the hash, and the scanner
    unfoldable pub take_text : Char → Reading → Step
    take_text c s =
        let sampled = add_sample c s in
        let hashing = record sampled { hashed = s.hashed ++ rune c ∷ [] } in
        leave_skipped (completes_sample c s && looks_binary sampled.sample)
          (skip binary_content s.total)
          (if structured then take_structured c hashing else take_plain c hashing)

    unfoldable pub take_rune : Char → Reading → Step
    take_rune c s =
        let counted = record s { total = s.total + len_utf8 c } in
        leave_skipped (code c == 0) (skip nul_byte counted.total) (take_text c counted)

    unfoldable pub read_runes : Option Error → List Decoded → Reading → Step
    read_runes failure [] s = end_of_reader failure s
    read_runes failure (bad_byte ∷ content) s = leave (skip invalid_utf8 s.total)
    read_runes failure (rune c ∷ content) s = then_step (take_rune c s) (read_runes failure content)

    -- what follows the loop
    unfoldable pub close_reading : (List Decoded → String) → ℕ → Reading → Answer
    close_reading sha size_bytes s =
        if not s.sample_checked && looks_binary s.sample
        then skip binary_content s.total
        else if structured && sensors.contains_sensitive path s.structured_content
        then skip sensitive_content s.total
        else (let hash = "sha256:" ⧺ sha s.hashed in
            ok (
              some (record {
                relative_path = path;
                content_sha256 = hash;
                chunks = finish (record s.builder { content_sha256 = hash });
              }),
              record {
                eligible = true;
                relative_path = path;
                relative_path_safe = true;
                reason = reason_none;
                size_bytes = if s.total != size_bytes then s.total else size_bytes;
              },
            ))

  -- the reading of a file whose path is normal
  unfoldable pub read_file : (List Decoded → String) → String → Reader → ℕ → SafetyOptions → Answer
  read_file sha path reader size_bytes options =
      let structured = structured_config_kind path != "" in
      if matches_denied_path path
      then ok (none, skipped denied_path "" false size_bytes)
      else if options.sensitive_marker_policy != skip_file
      then ok (none, skipped unsupported_policy path true size_bytes)
      else if structured && ltb structured_streaming_safety_max_bytes size_bytes
      then ok (none, skipped semantic_too_large path true size_bytes)
      else answer_of (close_reading path structured sha size_bytes) (
          read_runes path structured reader.failure reader.content
            (start_reading path options.max_chunk_bytes))

  abbrev pub read_normal :
      (List Decoded → String) → Option String → Reader → ℕ → SafetyOptions → Answer
  read_normal sha none reader size_bytes options =
      ok (none, skipped unsafe_path "" false size_bytes)
  read_normal sha (some path) reader size_bytes options =
      read_file sha path reader size_bytes options

  unfoldable pub build_chunks_from_reader :
      (List Decoded → String) → String → Reader → ℕ → SafetyOptions → Answer
  build_chunks_from_reader sha relative_path reader size_bytes given =
      read_normal sha (normalize_relative_path relative_path) reader size_bytes
        (normalize_safety_options given)
