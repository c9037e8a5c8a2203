-- ===== src/Ingestion/Tests/Files.antt =====
-- Paths that are normalized, and small files that are taken into the index.
use Prim.Native.Char.{char}
use go_mivia.Base.{◌≡◌, refl, nat_eq, string_eq, ◌==◌, true, false, some, none, List, [], ◌∷◌, inl}
use go_mivia.Base.Result.{ok}
use go_mivia.Text.{
  trim_space, trim_func, trim_left, trim_right, is_space, has_prefix, has_code, contains_text, join,
}
use go_mivia.Text.Affix.{has_suffix, trim_suffix}
use go_mivia.Text.Path.{split, clean, clean_parts, climb, base, match_path}
use go_mivia.Ingestion.Chunks.{Decoded}
use go_mivia.Ingestion.Chunks.Cover.{decoded}
use go_mivia.Ingestion.Paths.{
  windows_root_pattern, checked, normalize_relative_path, matches_path_pattern, matches_denied_path,
  is_denied_part,
}
use go_mivia.Ingestion.Paths.Laws.{normalize_relative_path_idem}
use go_mivia.Ingestion.Safety.{
  skip_file, SafetyOptions, Sensors, ChunkSet, evaluate_safety, evaluate_path, evaluate_content,
  evaluate_file, normalize_safety_options, size_of, has_nul, is_valid_utf8, controls, looks_binary,
  build_chunks,
}
use go_mivia.Ingestion.Safety.Laws.{Accepted, evaluate_safety-Accepted}
use go_mivia.Ingestion.Safety.Build.{Complete, build_chunks-Complete}

unfoldable pub normalizing : Unit {0}
unfolding normalize_relative_path checked windows_root_pattern clean clean_parts split climb join
    trim_space trim_func trim_left trim_right is_space has_prefix has_code contains_text
normalizing = tt

normalized : normalize_relative_path "./a//b.go" ≡ some "a/b.go"
unfolding normalizing
normalized = refl

-- The drive is tested before the path is cleaned.
drive_left : normalize_relative_path "./C:/x" ≡ some "C:/x"
unfolding normalizing
drive_left = refl

drive_refused : normalize_relative_path "C:/x" ≡ none
unfolding normalizing
drive_refused = refl

some_text : (trim_space "a/b.go" == "") ≡ false
unfolding normalizing
some_text = refl

no_drive : windows_root_pattern "a/b.go" ≡ false
unfolding normalizing
no_drive = refl

normalize_relative_path_idem_example : normalize_relative_path "a/b.go" ≡ some "a/b.go"
normalize_relative_path_idem_example =
    normalize_relative_path_idem "./a//b.go" normalized some_text no_drive

abbrev pub no_marks : Sensors
no_marks = record {
  path_is_sensitive = λ path. path == "password=1";
  contains_sensitive = λ path content. false;
}

abbrev pub small_file : List Decoded
small_file = decoded (char 104 tt ∷ char 105 tt ∷ char 10 tt ∷ [])

abbrev pub plain_options : SafetyOptions
plain_options = record { max_file_bytes = 100; max_chunk_bytes = 0; sensitive_marker_policy = "" }

unfoldable pub evaluating : Unit {0}
unfolding normalizing evaluate_safety evaluate_path evaluate_content evaluate_file
    normalize_safety_options matches_denied_path is_denied_part matches_path_pattern match_path base
    has_suffix trim_suffix size_of has_nul is_valid_utf8 controls looks_binary
evaluating = tt

small_file_taken : (evaluate_safety no_marks "./a//b.go" small_file 100 skip_file).eligible ≡ true
unfolding evaluating
small_file_taken = refl

pub small_file_eligible :
    (evaluate_file no_marks "./a//b.go" small_file plain_options).eligible ≡ true
unfolding evaluating
small_file_eligible = refl

key_denied : matches_denied_path "keys/server.pem" ≡ true
unfolding evaluating
key_denied = refl

evaluate_safety-Accepted_example :
    Accepted no_marks
      (evaluate_safety no_marks "./a//b.go" small_file 100 skip_file).relative_path
      small_file
      100
      skip_file
evaluate_safety-Accepted_example =
    evaluate_safety-Accepted no_marks "./a//b.go" small_file 100 skip_file small_file_taken

build_chunks-Complete_example :
    (set : ChunkSet) × (build_chunks no_marks (λ content. "00") "./a//b.go" small_file plain_options
      ≡ ok (some set, evaluate_file no_marks "./a//b.go" small_file plain_options))
    × Complete no_marks
        (λ content. "00")
        (evaluate_file no_marks "./a//b.go" small_file plain_options)
        small_file
        (normalize_safety_options plain_options).max_chunk_bytes
        set
build_chunks-Complete_example =
    build_chunks-Complete no_marks (λ content. "00") "./a//b.go" small_file plain_options (inl refl)
      small_file_eligible
