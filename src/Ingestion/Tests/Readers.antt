-- ===== src/Ingestion/Tests/Readers.antt =====
-- A small file that is read into the index.
use Prim.Native.Char.{char}
use go_mivia.Base.{◌≡◌, refl, String, Bool, false, none, some, List, [], ◌∷◌, true}
use go_mivia.Base.Result.{ok}
use go_mivia.Text.{to_lower}
use go_mivia.Text.Decimal.{decimal}
use go_mivia.Text.Path.{ext, base}
use go_mivia.Ingestion.Chunks.{Decoded, rune, bad_byte}
use go_mivia.Ingestion.Chunks.Stream.{
  new_builder, append_rune, append_current, start_current, flush, finish,
}
use go_mivia.Ingestion.Scanner.{structured_config_kind, push, drop_bytes}
use go_mivia.Ingestion.Safety.{
  reason_none, invalid_utf8, denied_path, SafetyResult, ChunkSet, evaluate_file, build_chunks,
  skipped,
}
use go_mivia.Ingestion.Reader.{
  Reader, then_step, leave_skipped, put_builder, answer_of, add_sample, completes_sample,
  take_structured, take_plain, take_text, take_rune, read_runes, close_reading, read_file,
  build_chunks_from_reader,
}
use go_mivia.Ingestion.Reader.Taken.{Taken, build_chunks_from_reader-Taken}
use go_mivia.Ingestion.Reader.Same.{build_chunks_from_reader-build_chunks}
use go_mivia.Ingestion.Tests.Files.{
  evaluating, normalizing, no_marks, small_file, plain_options, small_file_eligible,
}

reading : Unit {0}
unfolding evaluating normalizing structured_config_kind to_lower ext base push drop_bytes
    new_builder append_rune append_current start_current flush finish decimal skipped then_step
    leave_skipped put_builder answer_of add_sample completes_sample take_structured take_plain
    take_text take_rune read_runes close_reading read_file build_chunks_from_reader
reading = tt

abbrev no_marker : List Decoded → Bool
no_marker content = false

abbrev no_hash : List Decoded → String
no_hash content = "00"

abbrev small_set : ChunkSet
small_set = record {
  relative_path = "a/b.go";
  content_sha256 = "sha256:00";
  chunks =
      record {
        id = "chunk-0";
        index = 0;
        relative_path = "a/b.go";
        start_line = 1;
        end_line = 1;
        byte_start = 0;
        byte_end = 3;
        text = char 104 tt ∷ char 105 tt ∷ char 10 tt ∷ [];
        content_sha256 = "sha256:00";
      }
      ∷ [];
}

abbrev small_result : SafetyResult
small_result = record {
  eligible = true;
  relative_path = "a/b.go";
  relative_path_safe = true;
  reason = reason_none;
  size_bytes = 3;
}

abbrev small_reader : Reader
small_reader = record { content = small_file; failure = none }

small_read :
    build_chunks_from_reader no_marks no_marker no_hash "./a//b.go" small_reader 5 plain_options
    ≡ ok (some small_set, small_result)
unfolding reading
small_read = refl

abbrev broken_reader : Reader
broken_reader = record { content = rune (char 104 tt) ∷ bad_byte ∷ []; failure = none }

broken_read :
    build_chunks_from_reader no_marks no_marker no_hash "a.json" broken_reader 2 plain_options
    ≡ ok (none, skipped invalid_utf8 "a.json" true 1)
unfolding reading
broken_read = refl

kind_of_json : structured_config_kind "Docs.d/OpenAPI.JSON" ≡ "json"
unfolding reading
kind_of_json = refl

no_kind : structured_config_kind "a.json/b" ≡ ""
unfolding reading
no_kind = refl

-- The path of a file is tested as one that is sensitive by `BuildChunks` only.
sensitive_path_refused :
    build_chunks no_marks no_hash "password=1" [] plain_options
    ≡ ok (none, skipped denied_path "" false 0)
unfolding reading build_chunks
sensitive_path_refused = refl

sensitive_path_read :
    build_chunks_from_reader no_marks no_marker no_hash "password=1"
      (record { content = []; failure = none })
      0
      plain_options
    ≡ ok (
      some (record { relative_path = "password=1"; content_sha256 = "sha256:00"; chunks = [] }),
      record small_result { relative_path = "password=1"; size_bytes = 0 },
    )
unfolding reading
sensitive_path_read = refl

-- A rune of two bytes that is cut leaves one byte.
window_cut :
    drop_bytes 1 (rune (char 0xe9 tt) ∷ rune (char 104 tt) ∷ [])
    ≡ bad_byte ∷ rune (char 104 tt) ∷ []
unfolding reading
window_cut = refl

build_chunks_from_reader-Taken_example :
    Taken no_marks no_marker no_hash "./a//b.go" small_reader 16384 small_set
unfolding reading
build_chunks_from_reader-Taken_example =
    build_chunks_from_reader-Taken no_marks no_marker no_hash "./a//b.go" small_reader 5
      plain_options small_set small_result small_read

build_chunks_from_reader-build_chunks_example :
    build_chunks no_marks no_hash "./a//b.go" small_file plain_options
    ≡ ok (some small_set, evaluate_file no_marks "./a//b.go" small_file plain_options)
build_chunks_from_reader-build_chunks_example =
    build_chunks_from_reader-build_chunks no_marks no_marker no_hash "./a//b.go" small_reader 5
      plain_options small_set small_result small_read small_file_eligible
