-- ===== src/Ingestion/Chunks/Refine.antt =====
-- `streamingChunkBuilder` and `chunkEligibleText` of internal/projectingestion/chunker.go, compared.
use Prim.Native.Char.{Char, len_utf8}
use mathlib.Core.List.{map-append}
use go_mivia.Base.{
  ℕ, suc, ◌+◌, ◌≤◌, ◌<◌, String, ◌≡◌, refl, sym, ap, ◌∙◌, nat_eq, true, false, List, [], ◌∷◌, ◌++◌,
  map, length, is_empty, ltb, arith, Bool-cases, inl, inr,
}
use go_mivia.Base.Result.{Result, ok, err, foreign, ◌>>=◌}
use go_mivia.Text.{◌⧺◌}
use go_mivia.Text.Decimal.{decimal}
use go_mivia.Ingestion.Chunks.{
  Chunk, Chunking, byte_len, start_chunking, chunk_of, flush_text, open_chunk, put_rune, add_rune,
  chunk_loop, chunk_eligible_text,
}
use go_mivia.Ingestion.Chunks.Stream.{
  Builder, new_builder, flush, start_current, append_current, append_rune, append_runes, with_sha,
  finish, stream,
}
use go_mivia.Ingestion.Chunks.Cover.{Cover, nothing, then_chunk, decoded}
use go_mivia.Ingestion.Chunks.Cover.Holds.{chunk_eligible_text-Cover}

length-map : {A B : Type 0} → (f : A → B) (xs : List A) → length (map f xs) ≡ length xs
length-map f [] = refl
length-map f (x ∷ xs) = ap suc (length-map f xs)

module _ (path sha : String) (max : ℕ) where
  -- The builder that does what the loop does: no chunk has the hash yet.
  abbrev builder_of : Chunking → Builder
  builder_of s = record {
    relative_path = path;
    content_sha256 = "";
    max_chunk_bytes = max;
    chunks = map (with_sha "") s.chunks;
    current = s.current;
    start_line = s.start_line;
    end_line = s.end_line;
    byte_start = s.byte_start;
    byte_offset = s.byte_offset;
    line_number = s.line_number;
  }

  flush-of : (s : Chunking) (n : ℕ) → flush (builder_of s) n ≡ builder_of (flush_text path sha n s)
  unfolding flush flush_text chunk_of
  flush-of s n = elim (Bool-cases (is_empty s.current)) [
    | inl e ↦ rw e refl
    | inr e ↦
        rw
          (
            e,
            length-map (with_sha "") s.chunks,
            map-append (with_sha "") s.chunks (chunk_of path sha s n ∷ []),
          )
          refl
  ]

  put-of :
      (s : Chunking) (c : Char)
      → append_current (start_current (builder_of s)) c ≡ builder_of (put_rune c (open_chunk s))
  unfolding append_current start_current put_rune open_chunk
  put-of s c = elim (Bool-cases (is_empty s.current)) [ inl e ↦ rw e refl | inr e ↦ rw e refl ]

  fits_of : (c : Char) → len_utf8 c ≤ max → ltb max (len_utf8 c) ≡ false
  fits_of c small = ground arith

  add-of :
      (s : Chunking) (c : Char)
      → len_utf8 c ≤ max
      → append_rune (builder_of s) c ≡ ok (builder_of (add_rune path sha max c s))
  unfolding append_rune add_rune
  add-of s c small = elim (Bool-cases (ltb max (byte_len s.current + len_utf8 c))) [
    | inl e ↦
        rw (e, fits_of c small)
          (ap ok
            (ap (λ b. append_current (start_current b) c) (flush-of s s.byte_offset) ∙ put-of _ c))
    | inr e ↦ rw (e, fits_of c small) (ap ok (put-of s c))
  ]

  abbrev restamp : Result (List Chunk) → Result (List Chunk)
  restamp (ok chunks) = ok (map (with_sha sha) chunks)
  restamp (err e) = err e

  with_sha-twice :
      (cs : List Chunk) → map (with_sha sha) (map (with_sha "") cs) ≡ map (with_sha sha) cs
  with_sha-twice [] = refl
  with_sha-twice (c ∷ cs) = ap (λ r. with_sha sha c ∷ r) (with_sha-twice cs)

  abbrev end_of : Builder → Result (List Chunk)
  end_of b = ok (finish (record b { content_sha256 = sha }))

  abbrev last : Chunking → Chunk
  last s = chunk_of path sha s s.byte_offset

  finish-of :
      (s : Chunking)
      → finish (record (builder_of s) { content_sha256 = sha })
        ≡ map (with_sha sha) (flush_text path sha s.byte_offset s).chunks
  unfolding finish flush flush_text chunk_of
  finish-of s = elim (Bool-cases (is_empty s.current)) [
    | inl e ↦ rw e (with_sha-twice s.chunks)
    | inr e ↦ rw e (
        rw (length-map (with_sha "") s.chunks) (
          map-append (with_sha sha) (map (with_sha "") s.chunks) (last s ∷ [])
          ∙ ap (λ t. t ++ last s ∷ []) (with_sha-twice s.chunks)
          ∙ sym (map-append (with_sha sha) s.chunks (last s ∷ []))))
  ]

  long-of :
      (s : Chunking) (c : Char)
      → ltb max (len_utf8 c) ≡ true
      → append_rune (builder_of s) c
        ≡ err
            (foreign ("rune at byte offset " ⧺ decimal s.byte_offset ⧺ " exceeds max chunk bytes"))
  unfolding append_rune
  long-of s c e = rw e refl

  loop-of :
      (runes : List Char) (s : Chunking)
      → (append_runes (builder_of s) runes >>= end_of)
        ≡ restamp (chunk_loop path sha max (decoded runes) s)
  unfolding append_runes chunk_loop
  loop-of [] s = ap ok (finish-of s)
  loop-of (c ∷ runes) s = elim (Bool-cases (ltb max (len_utf8 c))) [
    | inl e ↦ rw (e, long-of s c e) refl
    | inr e ↦ rw (e, add-of s c (ground arith)) (loop-of runes (add_rune path sha max c s))
  ]

  restamped :
      {cs : List Chunk} {text : List Char} → Cover path sha max cs text → map (with_sha sha) cs ≡ cs
  restamped nothing = refl
  restamped (then_chunk {chunks = cs} cover c h) =
      map-append (with_sha sha) cs (c ∷ [])
      ∙ ap (λ t. t ++ with_sha sha c ∷ []) (restamped cover)
      ∙ ap (λ x. cs ++ record c { content_sha256 = x } ∷ []) (sym h.same_sha)

  restamp-same :
      (r : Result (List Chunk))
      → ((cs : List Chunk) → r ≡ ok cs → map (with_sha sha) cs ≡ cs)
      → restamp r ≡ r
  restamp-same (ok cs) h = ap ok (h cs refl)
  restamp-same (err e) h = refl

  bound_test : 0 < max → ltb 0 max ≡ true
  bound_test h = ground arith

  stream-restamp :
      (runes : List Char)
      → 0 < max
      → stream path sha max runes ≡ restamp (chunk_eligible_text path sha max (decoded runes))
  unfolding stream new_builder chunk_eligible_text append_runes finish flush
  stream-restamp [] bound = rw (bound_test bound) refl
  stream-restamp (c ∷ runes) bound = rw (bound_test bound) (loop-of (c ∷ runes) start_chunking)

  -- The streaming builder that is fed the runes of a text, and told the hash at the end, has the
  -- chunks and the errors of `chunkEligibleText` on that text, where the bound is positive.
  pub stream-chunk_eligible_text :
      (runes : List Char)
      → 0 < max
      → stream path sha max runes ≡ chunk_eligible_text path sha max (decoded runes)
  stream-chunk_eligible_text runes bound =
      stream-restamp runes bound
      ∙ restamp-same _ λ cs e. restamped (chunk_eligible_text-Cover path sha max _ cs e).2
