-- ===== src/Ingestion/Chunks/Stream.antt =====
-- `streamingChunkBuilder` of internal/projectingestion/chunker.go, which takes the runes of a file one
-- by one as a reader delivers them, before the hash of the content is known.
use Prim.Native.Char.{Char, len_utf8}
use go_mivia.Base.{ℕ, ◌+◌, String, List, [], ◌∷◌, ◌++◌, map, length, is_empty, ltb, if◌then◌else◌}
use go_mivia.Base.Result.{Result, ok, err, foreign, ◌>>=◌}
use go_mivia.Text.{◌⧺◌}
use go_mivia.Text.Decimal.{decimal}
use go_mivia.Ingestion.Chunks.{Chunk, byte_len, next_line}

pub record Builder : Type 0 where
  pub relative_path : String
  pub content_sha256 : String
  pub max_chunk_bytes : ℕ
  pub chunks : List Chunk
  pub current : List Char
  pub start_line : ℕ
  pub end_line : ℕ
  pub byte_start : ℕ
  pub byte_offset : ℕ
  pub line_number : ℕ

-- The builder that `BuildChunksFromReader` starts with.
unfoldable pub new_builder : String → ℕ → Builder
new_builder relative_path max_chunk_bytes = record {
  relative_path = relative_path;
  content_sha256 = "";
  max_chunk_bytes = max_chunk_bytes;
  chunks = [];
  current = [];
  start_line = 1;
  end_line = 1;
  byte_start = 0;
  byte_offset = 0;
  line_number = 1;
}

unfoldable pub flush : Builder → ℕ → Builder
flush b byte_end = if is_empty b.current then b else record b {
  chunks =
      b.chunks
      ++ record {
        id = "chunk-" ⧺ decimal (length b.chunks);
        index = length b.chunks;
        relative_path = b.relative_path;
        start_line = b.start_line;
        end_line = b.end_line;
        byte_start = b.byte_start;
        byte_end = byte_end;
        text = b.current;
        content_sha256 = b.content_sha256;
      }
        ∷ [];
  current = [];
  start_line = b.line_number;
  end_line = b.line_number;
  byte_start = byte_end;
}

unfoldable pub start_current : Builder → Builder
start_current b =
    if is_empty b.current
    then record b { start_line = b.line_number; byte_start = b.byte_offset }
    else b

unfoldable pub append_current : Builder → Char → Builder
append_current b r = record b {
  current = b.current ++ r ∷ [];
  end_line = b.line_number;
  byte_offset = b.byte_offset + len_utf8 r;
  line_number = next_line r b.line_number;
}

unfoldable pub append_rune : Builder → Char → Result Builder
append_rune b r =
    if ltb b.max_chunk_bytes (len_utf8 r)
    then err (foreign ("rune at byte offset " ⧺ decimal b.byte_offset ⧺ " exceeds max chunk bytes"))
    else ok (
        append_current
          (start_current (
            if ltb b.max_chunk_bytes (byte_len b.current + len_utf8 r)
            then flush b b.byte_offset
            else b))
          r)

abbrev pub with_sha : String → Chunk → Chunk
with_sha sha chunk = record chunk { content_sha256 = sha }

unfoldable pub finish : Builder → List Chunk
finish b = map (with_sha b.content_sha256) (flush b b.byte_offset).chunks

-- The calls of `BuildChunksFromReader`: every rune of the reader, the hash, then the end.
unfoldable pub append_runes : Builder → List Char → Result Builder
append_runes b [] = ok b
append_runes b (r ∷ runes) = do next ← append_rune b r; append_runes next runes

unfoldable pub stream : String → String → ℕ → List Char → Result (List Chunk)
stream relative_path content_sha256 max_chunk_bytes runes = do
  b ← append_runes (new_builder relative_path max_chunk_bytes) runes
  ok (finish (record b { content_sha256 = content_sha256 }))
