-- ===== src/Ingestion/Reader/Same.antt =====
-- `BuildChunksFromReader` and `BuildChunks` of internal/projectingestion/chunker.go, compared.
use go_mivia.Base.{ℕ, String, ◌≡◌, sym, ap, ◌∙◌, Bool, true, some, List}
use go_mivia.Base.Result.{ok}
use go_mivia.Text.{◌⧺◌}
use go_mivia.Ingestion.Chunks.{Decoded, chunk_eligible_text}
use go_mivia.Ingestion.Paths.{normalize_relative_path}
use go_mivia.Ingestion.Safety.{
  SafetyOptions, SafetyResult, normalize_safety_options, Sensors, evaluate_file, ChunkSet,
  build_chunks,
}
use go_mivia.Ingestion.Safety.Laws.{evaluate_safety-path}
use go_mivia.Ingestion.Safety.Build.{build_chunks-taken}
use go_mivia.Ingestion.Reader.{Reader, build_chunks_from_reader}
use go_mivia.Ingestion.Reader.Taken.{build_chunks_from_reader-Taken}

module _ (sensors : Sensors) (has_hard_marker : List Decoded → Bool)
    (sha : List Decoded → String) where
  evaluate_file-path :
      (relative_path : String) (content : List Decoded) (given : SafetyOptions) {path : String}
      → normalize_relative_path relative_path ≡ some path
      → (evaluate_file sensors relative_path content given).eligible ≡ true
      → (evaluate_file sensors relative_path content given).relative_path ≡ path
  unfolding evaluate_file
  evaluate_file-path relative_path content given =
      evaluate_safety-path sensors relative_path content _ _

  -- A file that `BuildChunksFromReader` makes a set of, and that `EvaluateSafety` accepts, is made
  -- the same set of by `BuildChunks`.
  pub build_chunks_from_reader-build_chunks :
      (relative_path : String) (reader : Reader) (size_bytes : ℕ) (given : SafetyOptions)
      (set : ChunkSet) (safety : SafetyResult)
      → build_chunks_from_reader sensors has_hard_marker sha relative_path reader size_bytes given
        ≡ ok (some set, safety)
      → (evaluate_file sensors relative_path reader.content given).eligible ≡ true
      → build_chunks sensors sha relative_path reader.content given
        ≡ ok (some set, evaluate_file sensors relative_path reader.content given)
  build_chunks_from_reader-build_chunks relative_path reader size_bytes given set safety e
        eligible =
      let taken =
        build_chunks_from_reader-Taken sensors has_hard_marker sha relative_path reader size_bytes
          given set safety e in
      let same_path =
        evaluate_file-path relative_path reader.content given taken.accepted eligible in
      let max = (normalize_safety_options given).max_chunk_bytes in
      let cut =
        ap (λ path. chunk_eligible_text path ("sha256:" ⧺ sha reader.content) max reader.content)
          same_path
        ∙ ap (λ hash. chunk_eligible_text set.relative_path hash max reader.content)
            (sym taken.same_hash)
        ∙ taken.cut in
      build_chunks-taken sensors sha relative_path reader.content given set.chunks eligible cut
      ∙ ap
          (λ path. ok (
            some (record {
              relative_path = path;
              content_sha256 = "sha256:" ⧺ sha reader.content;
              chunks = set.chunks;
            }),
            evaluate_file sensors relative_path reader.content given,
          ))
          same_path
      ∙ ap
          (λ hash. ok (
            some (record {
              relative_path = set.relative_path;
              content_sha256 = hash;
              chunks = set.chunks;
            }),
            evaluate_file sensors relative_path reader.content given,
          ))
          (sym taken.same_hash)
