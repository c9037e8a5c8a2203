-- ===== src/Ingestion/Chunks/Cover.antt =====
-- What the chunks of a text are: its consecutive pieces, with the lines and bytes they stand at.
pub mod State
pub mod Holds
use Prim.Native.Char.{Char, len_utf8}
use mathlib.Core.List.{append_assoc, append-nil}
use go_mivia.Base.{
  ℕ, ◌+◌, ◌≤◌, String, ◌≡◌, ◌⊎◌, refl, sym, ap, ◌∙◌, subst, nat_eq, Bool, true, false, List, [],
  ◌∷◌, ◌++◌, map, length, is_empty, ltb, arith, All, ◌<◌, if◌then◌else◌, Bool-cases, inl, inr,
}
use go_mivia.Base.Result.{Result, Error, ok, err}
use go_mivia.Base.Exec.{ok-inj}
use go_mivia.Text.{◌⧺◌}
use go_mivia.Text.Decimal.{decimal}
use go_mivia.Ingestion.Chunks.{
  Chunk, Chunking, Decoded, rune, bad_byte, byte_len, next_line, start_chunking, chunk_of,
  flush_text, open_chunk, put_rune, add_rune, chunk_loop, chunk_eligible_text,
}

-- A text in which every byte is part of a rune.
abbrev pub decoded : List Char → List Decoded
decoded runes = map rune runes

-- The line that the text after `s` starts on, when `s` starts on line `n`.
abbrev pub line_after : List Char → ℕ → ℕ
line_after [] n = n
line_after (c ∷ s) n = line_after s (next_line c n)

pub line_after-append :
    (s t : List Char) (n : ℕ) → line_after (s ++ t) n ≡ line_after t (line_after s n)
line_after-append [] t n = refl
line_after-append (c ∷ s) t n = line_after-append s t (next_line c n)

pub byte_len-append : (s t : List Char) → byte_len (s ++ t) ≡ byte_len s + byte_len t
byte_len-append [] t = omega arith
byte_len-append (c ∷ s) t = omega (arith, byte_len-append s t)

module _ (relative_path content_sha256 : String) (max_chunk_bytes : ℕ) where
  -- A piece of text that stands behind `before`, up to its last rune.
  pub record Piece (before : List Char) (start_line end_line byte_start : ℕ) (text : List Char)
      : Type 0 where
    pub leading : List Char
    pub last : Char
    pub parts : text ≡ leading ++ last ∷ []
    pub starts_on : start_line ≡ line_after before 1
    pub ends_on : end_line ≡ line_after leading start_line
    pub starts_at : byte_start ≡ byte_len before
    pub fits : byte_len text ≤ max_chunk_bytes

  -- The n-th chunk of a file, behind the text `before`.
  pub record IsChunk (n : ℕ) (before : List Char) (c : Chunk) : Type 0 where
    pub piece : Piece before c.start_line c.end_line c.byte_start c.text
    pub ends_at : c.byte_end ≡ byte_len (before ++ c.text)
    pub is_index : c.index ≡ n
    pub is_id : c.id ≡ "chunk-" ⧺ decimal n
    pub same_path : c.relative_path ≡ relative_path
    pub same_sha : c.content_sha256 ≡ content_sha256

  -- The chunks cover the text, without gap or overlap, in order.
  pub data Cover : List Chunk → List Char → Type 0 where
    nothing : Cover [] []
    then_chunk :
        {chunks : List Chunk} {before : List Char}
        → Cover chunks before
        → (c : Chunk) → IsChunk (length chunks) before c
        → Cover (chunks ++ c ∷ []) (before ++ c.text)
