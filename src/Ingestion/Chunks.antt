-- ===== src/Ingestion/Chunks.antt =====
-- The chunks of a file's text: `Chunk` of internal/projectingestion/model.go and `chunkEligibleText` of
-- internal/projectingestion/chunker.go. A text is the list of what the decoder reads from it: runes,
-- each as long as its UTF-8 form, and bytes that are no part of one.
pub mod Stream
pub mod Cover
pub mod Refine
use Prim.Native.Char.{Char, code, len_utf8}
use go_mivia.Base.{
  ℕ, zero, suc, ◌+◌, ◌%◌, ◌/◌, String, Bool, nat_eq, ◌==◌, List, [], ◌∷◌, ◌++◌, length, is_empty,
  ltb, if◌then◌else◌,
}
use go_mivia.Base.Result.{Result, ok, err, foreign}
use go_mivia.Text.{◌⧺◌}
use go_mivia.Text.Decimal.{decimal}

pub record Chunk : Type 0 where
  pub id : String
  pub index : ℕ
  pub relative_path : String
  pub start_line : ℕ
  pub end_line : ℕ
  pub byte_start : ℕ
  pub byte_end : ℕ
  pub text : List Char
  pub content_sha256 : String

abbrev pub byte_len : List Char → ℕ
byte_len [] = 0
byte_len (c ∷ s) = len_utf8 c + byte_len s

-- What the decoder reads next.
pub data Decoded : Type 0 where
  rune : Char → Decoded
  bad_byte : Decoded

-- The variables of `chunkEligibleText`.
pub record Chunking : Type 0 where
  pub chunks : List Chunk
  pub current : List Char
  pub start_line : ℕ
  pub end_line : ℕ
  pub byte_start : ℕ
  pub byte_offset : ℕ
  pub line_number : ℕ

abbrev pub start_chunking : Chunking
start_chunking = record {
  chunks = [];
  current = [];
  start_line = 1;
  end_line = 1;
  byte_start = 0;
  byte_offset = 0;
  line_number = 1;
}

abbrev pub next_line : Char → ℕ → ℕ
next_line c n = if code c == 10 then suc n else n

module _ (relative_path content_sha256 : String) where
  unfoldable pub chunk_of : Chunking → ℕ → Chunk
  chunk_of s byte_end = record {
    id = "chunk-" ⧺ decimal (length s.chunks);
    index = length s.chunks;
    relative_path = relative_path;
    start_line = s.start_line;
    end_line = s.end_line;
    byte_start = s.byte_start;
    byte_end = byte_end;
    text = s.current;
    content_sha256 = content_sha256;
  }

  unfoldable pub flush_text : ℕ → Chunking → Chunking
  flush_text byte_end s = if is_empty s.current then s else record s {
    chunks = s.chunks ++ chunk_of s byte_end ∷ [];
    current = [];
    start_line = s.line_number;
    end_line = s.line_number;
    byte_start = byte_end;
  }

-- The part of the loop before the rune is appended: where a chunk starts.
unfoldable pub open_chunk : Chunking → Chunking
open_chunk s =
    if is_empty s.current
    then record s { start_line = s.line_number; byte_start = s.byte_offset }
    else s

unfoldable pub put_rune : Char → Chunking → Chunking
put_rune c s = record s {
  current = s.current ++ c ∷ [];
  end_line = s.line_number;
  byte_offset = s.byte_offset + len_utf8 c;
  line_number = next_line c s.line_number;
}

module _ (relative_path content_sha256 : String) (max_chunk_bytes : ℕ) where
  -- One turn of the loop, for a rune that fits in a chunk.
  unfoldable pub add_rune : Char → Chunking → Chunking
  add_rune c s = put_rune c (
      open_chunk (
        if ltb max_chunk_bytes (byte_len s.current + len_utf8 c)
        then flush_text relative_path content_sha256 s.byte_offset s
        else s))

  unfoldable pub chunk_loop : List Decoded → Chunking → Result (List Chunk)
  chunk_loop [] s = ok (flush_text relative_path content_sha256 s.byte_offset s).chunks
  chunk_loop (bad_byte ∷ text) s = err (foreign "invalid utf-8 content")
  chunk_loop (rune c ∷ text) s =
      let rest = chunk_loop text (add_rune c s) in
      if ltb max_chunk_bytes (len_utf8 c)
      then err
          (foreign ("rune at byte offset " ⧺ decimal s.byte_offset ⧺ " exceeds max chunk bytes"))
      else rest

  unfoldable pub chunk_eligible_text : List Decoded → Result (List Chunk)
  chunk_eligible_text text =
      if ltb 0 max_chunk_bytes
      then if is_empty text then ok [] else chunk_loop text start_chunking
      else err (foreign "max chunk bytes must be positive")
