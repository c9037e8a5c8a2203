-- ===== src/Ingestion/Reader/Taken.antt =====
-- A file that `BuildChunksFromReader` takes into the index, and the set that it makes of it.
use Prim.Native.Char.{Char}
use go_mivia.Base.{
  ℕ, ◌<◌, String, ◌≡◌, refl, sym, ap, subst, ◌∙◌, Bool, false, nat_eq, string_eq, ◌!=◌, Option,
  none, some, List, arith,
}
use go_mivia.Base.Result.{ok}
use go_mivia.Text.{◌⧺◌}
use go_mivia.Ingestion.Chunks.{Decoded, chunk_eligible_text}
use go_mivia.Ingestion.Chunks.Stream.{Builder, new_builder, append_runes, finish, stream}
use go_mivia.Ingestion.Chunks.Cover.{decoded}
use go_mivia.Ingestion.Chunks.Refine.{stream-chunk_eligible_text}
use go_mivia.Ingestion.Paths.{normalize_relative_path, matches_denied_path}
use go_mivia.Ingestion.Scanner.{structured_config_kind}
use go_mivia.Ingestion.Safety.{
  SafetyOptions, SafetyResult, normalize_safety_options, has_nul, Sensors, ChunkSet,
}
use go_mivia.Ingestion.Reader.{
  Reading, Reader, read_runes, close_reading, answer_of, start_reading, read_file, read_normal,
  build_chunks_from_reader,
}
use go_mivia.Ingestion.Reader.Laws.{HasRead, read_runes-go_on}
use go_mivia.Ingestion.Reader.Returns.{answer-closes}

normalize_safety_options-positive :
    (given : SafetyOptions) → 0 < (normalize_safety_options given).max_chunk_bytes
unfolding normalize_safety_options
normalize_safety_options-positive given = ground arith

stream-built :
    (path sha : String) (max : ℕ) (runes : List Char) (b : Builder)
    → append_runes (new_builder path max) runes ≡ ok b
    → stream path sha max runes ≡ ok (finish (record b { content_sha256 = sha }))
unfolding stream
stream-built path sha max runes b e = rw e refl

module _ (sensors : Sensors) (has_hard_marker : List Decoded → Bool)
    (sha : List Decoded → String) where
  -- What is known of the content, and of the set.
  pub record Taken (relative_path : String) (reader : Reader) (max_chunk_bytes : ℕ) (set : ChunkSet)
      : Type 0 where
    pub accepted : normalize_relative_path relative_path ≡ some set.relative_path
    pub allowed : matches_denied_path set.relative_path ≡ false
    pub no_failure : reader.failure ≡ none
    pub no_nul : has_nul reader.content ≡ false
    pub runes : List Char
    pub decodes : reader.content ≡ decoded runes
    pub same_hash : set.content_sha256 ≡ "sha256:" ⧺ sha reader.content
    pub cut :
        chunk_eligible_text set.relative_path set.content_sha256 max_chunk_bytes reader.content
        ≡ ok set.chunks

  close_reading-set :
      (path : String) (structured : Bool) (size_bytes : ℕ) (t : Reading) {set : ChunkSet}
      {safety : SafetyResult}
      → close_reading sensors has_hard_marker path structured sha size_bytes t
        ≡ ok (some set, safety)
      → set ≡ record {
        relative_path = path;
        content_sha256 = "sha256:" ⧺ sha t.hashed;
        chunks = finish (record t.builder { content_sha256 = "sha256:" ⧺ sha t.hashed });
      }
  unfolding close_reading
  close_reading-set path structured size_bytes t e = ground arith

  made-Taken :
      (relative_path : String) (path : String) (reader : Reader) (max : ℕ) (t : Reading)
      → normalize_relative_path relative_path ≡ some path
      → matches_denied_path path ≡ false
      → 0 < max
      → HasRead reader.failure reader.content (start_reading path max) t
      → Taken relative_path reader max (record {
        relative_path = path;
        content_sha256 = "sha256:" ⧺ sha t.hashed;
        chunks = finish (record t.builder { content_sha256 = "sha256:" ⧺ sha t.hashed });
      })
  made-Taken relative_path path reader max t accepted allowed positive read = record {
    accepted = accepted;
    allowed = allowed;
    no_failure = read.no_failure;
    no_nul = read.no_nul;
    runes = read.runes;
    decodes = read.decodes;
    same_hash = ap (λ content. "sha256:" ⧺ sha content) read.hashes;
    cut =
        ap (chunk_eligible_text path ("sha256:" ⧺ sha t.hashed) max) read.decodes
        ∙ sym (stream-chunk_eligible_text path ("sha256:" ⧺ sha t.hashed) max read.runes positive)
        ∙ stream-built path ("sha256:" ⧺ sha t.hashed) max read.runes t.builder read.built;
  }

  read_file-passed :
      (path : String) (reader : Reader) (size_bytes : ℕ) (options : SafetyOptions) {set : ChunkSet}
      {safety : SafetyResult}
      → read_file sensors has_hard_marker sha path reader size_bytes options ≡ ok (some set, safety)
      → (matches_denied_path path ≡ false)
        × (answer_of
              (close_reading sensors has_hard_marker path
                (structured_config_kind path != "")
                sha
                size_bytes)
              (read_runes sensors has_hard_marker path
                (structured_config_kind path != "")
                reader.failure
                reader.content
                (start_reading path options.max_chunk_bytes))
            ≡ ok (some set, safety))
  unfolding read_file
  read_file-passed path reader size_bytes options e = (ground arith, ground arith)

  read_file-Taken :
      (relative_path : String) (path : String) (reader : Reader) (size_bytes : ℕ)
      (options : SafetyOptions) {set : ChunkSet} {safety : SafetyResult}
      → 0 < options.max_chunk_bytes
      → normalize_relative_path relative_path ≡ some path
      → read_file sensors has_hard_marker sha path reader size_bytes options ≡ ok (some set, safety)
      → Taken relative_path reader options.max_chunk_bytes set
  read_file-Taken relative_path path reader size_bytes options positive accepted e =
      let (allowed, answer) = read_file-passed path reader size_bytes options e in
      let (t, read, closed) =
        answer-closes sensors has_hard_marker path (structured_config_kind path != "") _
          reader.failure reader.content _ answer in
      let all_read =
        read_runes-go_on sensors has_hard_marker path (structured_config_kind path != "")
          reader.failure reader.content _ read in
      subst (Taken relative_path reader options.max_chunk_bytes)
        (sym (close_reading-set path (structured_config_kind path != "") size_bytes t closed))
        (made-Taken relative_path path reader options.max_chunk_bytes t accepted allowed positive
          all_read)

  -- A file that `BuildChunksFromReader` makes a set of was read to its end without a failure; it
  -- stands at the path that was accepted and is not denied, its content is valid UTF-8 without zero
  -- bytes, and the set has the hash of the content and the chunks that `chunkEligibleText` cuts it
  -- into.
  pub build_chunks_from_reader-Taken :
      (relative_path : String) (reader : Reader) (size_bytes : ℕ) (given : SafetyOptions)
      (set : ChunkSet) (safety : SafetyResult)
      → build_chunks_from_reader sensors has_hard_marker sha relative_path reader size_bytes given
        ≡ ok (some set, safety)
      → Taken relative_path reader (normalize_safety_options given).max_chunk_bytes set
  unfolding build_chunks_from_reader
  build_chunks_from_reader-Taken relative_path reader size_bytes given set safety e =
      at_path (normalize_relative_path relative_path) refl e
    where
      at_path :
          (found : Option String)
          → normalize_relative_path relative_path ≡ found
          → read_normal sensors has_hard_marker sha found reader size_bytes
              (normalize_safety_options given)
            ≡ ok (some set, safety)
          → Taken relative_path reader (normalize_safety_options given).max_chunk_bytes set
      at_path none p h = cc
      at_path (some path) p h =
          read_file-Taken relative_path path reader size_bytes (normalize_safety_options given)
            (normalize_safety_options-positive given) p h
