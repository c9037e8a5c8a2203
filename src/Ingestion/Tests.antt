-- ===== src/Ingestion/Tests.antt =====
-- A short text in chunks of two bytes.
mod Files
mod Readers
use Prim.Native.Char.{Char, char, len_utf8}
use go_mivia.Base.{◌≤◌, ◌≡◌, refl, nat_eq, List, [], ◌∷◌, arith, All}
use go_mivia.Base.Result.{ok}
use go_mivia.Text.Decimal.{decimal}
use go_mivia.Ingestion.Chunks.{
  Chunk, chunk_of, flush_text, open_chunk, put_rune, add_rune, chunk_loop, chunk_eligible_text,
}
use go_mivia.Ingestion.Chunks.Stream.{stream}
use go_mivia.Ingestion.Chunks.Cover.{decoded, Cover}
use go_mivia.Ingestion.Chunks.Cover.Holds.{chunk_eligible_text-Cover, chunk_eligible_text-ok}
use go_mivia.Ingestion.Chunks.Refine.{stream-chunk_eligible_text}

abbrev letter_a : Char
letter_a = char 97 tt

abbrev letter_b : Char
letter_b = char 98 tt

abbrev newline : Char
newline = char 10 tt

abbrev three_runes : List Char
three_runes = letter_a ∷ newline ∷ letter_b ∷ []

abbrev two_chunks : List Chunk
two_chunks =
    record {
      id = "chunk-0";
      index = 0;
      relative_path = "a.go";
      start_line = 1;
      end_line = 1;
      byte_start = 0;
      byte_end = 2;
      text = letter_a ∷ newline ∷ [];
      content_sha256 = "sha256:0";
    }
    ∷ record {
      id = "chunk-1";
      index = 1;
      relative_path = "a.go";
      start_line = 2;
      end_line = 2;
      byte_start = 2;
      byte_end = 3;
      text = letter_b ∷ [];
      content_sha256 = "sha256:0";
    }
    ∷ []

chunking : Unit {0}
unfolding chunk_eligible_text chunk_loop add_rune put_rune open_chunk flush_text chunk_of decimal
chunking = tt

chunk_eligible_text-Cover_example :
    (runes : List Char) × (decoded three_runes ≡ decoded runes)
    × Cover "a.go" "sha256:0" 2 two_chunks runes
unfolding chunking
chunk_eligible_text-Cover_example =
    chunk_eligible_text-Cover "a.go" "sha256:0" 2 (decoded three_runes) two_chunks refl

stream-chunk_eligible_text_example :
    stream "a.go" "sha256:0" 2 three_runes
    ≡ chunk_eligible_text "a.go" "sha256:0" 2 (decoded three_runes)
stream-chunk_eligible_text_example =
    stream-chunk_eligible_text "a.go" "sha256:0" 2 three_runes (omega arith)
