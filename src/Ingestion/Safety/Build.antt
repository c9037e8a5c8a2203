-- ===== src/Ingestion/Safety/Build.antt =====
-- The chunks that `BuildChunks` makes of a file that is taken into the index.
use Prim.Native.Nat.{Ordering, lt, eq, gt, compare}
use Prim.Native.Char.{Char, code, len_utf8, len_utf8_def, width}
use go_mivia.Base.{
  ℕ, ◌≤◌, String, ◌≡◌, ◌⊎◌, refl, sym, ap, subst, ◌∙◌, true, nat_eq, string_eq, ◌==◌, some, List,
  [], ◌∷◌, All, arith, if◌then◌else◌,
}
use go_mivia.Base.Result.{ok}
use go_mivia.Text.{◌⧺◌}
use go_mivia.Ingestion.Chunks.{Chunk, Decoded, rune, bad_byte, chunk_eligible_text}
use go_mivia.Ingestion.Chunks.Cover.{decoded, Cover}
use go_mivia.Ingestion.Chunks.Cover.Holds.{chunk_eligible_text-Cover, chunk_eligible_text-ok}
use go_mivia.Ingestion.Safety.{
  SafetyOptions, SafetyResult, skip_file, normalize_safety_options, is_valid_utf8, Sensors,
  evaluate_safety, evaluate_file, eligible_content_sha256, ChunkSet, build_chunks,
}
use go_mivia.Ingestion.Safety.Laws.{evaluate_safety-Accepted}

width-bound : (a b c : Ordering) → width a b c ≤ 4
width-bound lt b c = omega arith
width-bound eq lt c = omega arith
width-bound eq eq lt = omega arith
width-bound eq eq eq = omega arith
width-bound eq eq gt = omega arith
width-bound eq gt lt = omega arith
width-bound eq gt eq = omega arith
width-bound eq gt gt = omega arith
width-bound gt lt c = omega arith
width-bound gt eq lt = omega arith
width-bound gt eq eq = omega arith
width-bound gt eq gt = omega arith
width-bound gt gt lt = omega arith
width-bound gt gt eq = omega arith
width-bound gt gt gt = omega arith

len_utf8-bound : (c : Char) → len_utf8 c ≤ 4
len_utf8-bound c =
    subst (λ n. n ≤ 4) (sym (len_utf8_def c))
      (width-bound (compare (code c) 128) (compare (code c) 2048) (compare (code c) 65536))

runes_fit : (max : ℕ) → 4 ≤ max → (runes : List Char) → All (λ c. len_utf8 c ≤ max) runes
runes_fit max wide [] = tt
runes_fit max wide (c ∷ runes) = (omega (arith, len_utf8-bound c), runes_fit max wide runes)

-- A valid text is what its runes decode from.
runes_of :
    (content : List Decoded)
    → is_valid_utf8 content ≡ true
    → (runes : List Char) × (content ≡ decoded runes)
unfolding is_valid_utf8
runes_of [] e = ([], refl)
runes_of (rune c ∷ content) e =
    let (runes, same) = runes_of content e in (c ∷ runes, ap (λ t. rune c ∷ t) same)
runes_of (bad_byte ∷ content) e = cc

normalize_safety_options-wide :
    (given : SafetyOptions)
    → given.max_chunk_bytes ≡ 0 ⊎ 4 ≤ given.max_chunk_bytes
    → 4 ≤ (normalize_safety_options given).max_chunk_bytes
unfolding normalize_safety_options
normalize_safety_options-wide given bound = ground arith

policy_idem :
    (policy : String)
    → (if (if policy == "" then skip_file else policy) == ""
        then skip_file
        else (if policy == "" then skip_file else policy))
      ≡ (if policy == "" then skip_file else policy)
policy_idem policy = ground arith

module _ (sensors : Sensors) (sha : List Decoded → String) where
  evaluate_file-normalized :
      (relative_path : String) (content : List Decoded) (given : SafetyOptions)
      → evaluate_file sensors relative_path content (normalize_safety_options given)
        ≡ evaluate_file sensors relative_path content given
  unfolding evaluate_file normalize_safety_options
  evaluate_file-normalized relative_path content given =
      ap (evaluate_safety sensors relative_path content given.max_file_bytes)
        (policy_idem given.sensitive_marker_policy)

  eligible-valid :
      (relative_path : String) (content : List Decoded) (given : SafetyOptions)
      → (evaluate_file sensors relative_path content given).eligible ≡ true
      → is_valid_utf8 content ≡ true
  unfolding evaluate_file
  eligible-valid relative_path content given e =
      (evaluate_safety-Accepted sensors relative_path content _ _ e).valid

  -- What is made of a file: every rune of its content stands in a chunk.
  pub record Complete (safety : SafetyResult) (content : List Decoded) (max_chunk_bytes : ℕ)
      (set : ChunkSet) : Type 0 where
    pub same_path : set.relative_path ≡ safety.relative_path
    pub same_hash : set.content_sha256 ≡ "sha256:" ⧺ sha content
    pub runes : List Char
    pub decodes : content ≡ decoded runes
    pub covered : Cover set.relative_path set.content_sha256 max_chunk_bytes set.chunks runes

  pub build_chunks-taken :
      (relative_path : String) (content : List Decoded) (given : SafetyOptions)
      (chunks : List Chunk)
      → (evaluate_file sensors relative_path content given).eligible ≡ true
      → chunk_eligible_text
          (evaluate_file sensors relative_path content given).relative_path
          ("sha256:" ⧺ sha content)
          (normalize_safety_options given).max_chunk_bytes
          content
        ≡ ok chunks
      → build_chunks sensors sha relative_path content given
        ≡ ok (
          some (record {
            relative_path = (evaluate_file sensors relative_path content given).relative_path;
            content_sha256 = "sha256:" ⧺ sha content;
            chunks = chunks;
          }),
          evaluate_file sensors relative_path content given,
        )
  unfolding build_chunks eligible_content_sha256
  build_chunks-taken relative_path content given chunks taken e =
      ground (arith, evaluate_file-normalized relative_path content given)

  -- With a bound for the chunks of at least 4 bytes, or the default, `BuildChunks` cuts each file
  -- that is taken into the index without an error, into chunks that cover its content, under the
  -- path that was accepted.
  pub build_chunks-Complete :
      (relative_path : String) (content : List Decoded) (given : SafetyOptions)
      → given.max_chunk_bytes ≡ 0 ⊎ 4 ≤ given.max_chunk_bytes
      → (evaluate_file sensors relative_path content given).eligible ≡ true
      → (set : ChunkSet) × (build_chunks sensors sha relative_path content given
          ≡ ok (some set, evaluate_file sensors relative_path content given))
        × Complete
            (evaluate_file sensors relative_path content given)
            content
            (normalize_safety_options given).max_chunk_bytes
            set
  build_chunks-Complete relative_path content given bound taken =
      let safety = evaluate_file sensors relative_path content given in
      let max = (normalize_safety_options given).max_chunk_bytes in
      let wide = normalize_safety_options-wide given bound in
      let hash = "sha256:" ⧺ sha content in
      let (runes, same) = runes_of content (eligible-valid relative_path content given taken) in
      let (chunks, cut) =
        chunk_eligible_text-ok safety.relative_path hash max runes (omega arith)
          (runes_fit max wide runes) in
      let cut_here = ap (chunk_eligible_text safety.relative_path hash max) same ∙ cut in
      let (read, decodes, cover) =
        chunk_eligible_text-Cover safety.relative_path hash max content chunks cut_here in
      (
        _,
        build_chunks-taken relative_path content given chunks taken cut_here,
        record {
          same_path = refl;
          same_hash = refl;
          runes = read;
          decodes = decodes;
          covered = cover;
        },
      )
