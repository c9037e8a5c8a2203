-- ===== src/Ingestion/Chunks/Cover/Holds.antt =====
-- The cover of the text through the loop of `chunkEligibleText`.
use Prim.Native.Char.{Char, len_utf8}
use mathlib.Core.List.{append_assoc, append-nil}
use go_mivia.Base.{
  ℕ, ◌≤◌, String, ◌≡◌, refl, sym, ap, subst, nat_eq, Bool, false, List, [], ◌∷◌, ◌++◌, ltb, arith,
  All, ◌<◌, if◌then◌else◌, inl,
}
use go_mivia.Base.Result.{Result, Error, ok, err}
use go_mivia.Base.Exec.{ok-inj}
use go_mivia.Ingestion.Chunks.Cover.{decoded, Cover, nothing}
use go_mivia.Ingestion.Chunks.{
  Chunk, Chunking, Decoded, rune, bad_byte, start_chunking, add_rune, chunk_loop,
  chunk_eligible_text,
}
use go_mivia.Ingestion.Chunks.Cover.State.{Open, flushed, flushed-Flushed, add_rune-Open}

module _ (path sha : String) (max : ℕ) where
  no_error :
      (b : Bool) (e : Error) (r : Result (List Chunk)) {chunks : List Chunk}
      → (if b then err e else r) ≡ ok chunks
      → (b ≡ false) × (r ≡ ok chunks)
  no_error b e r h = ground arith

  chunk_loop-Cover :
      (text : List Decoded) (before seen : List Char) (s : Chunking) {chunks : List Chunk}
      → Open path sha max before seen s
      → chunk_loop path sha max text s ≡ ok chunks
      → (runes : List Char) × (text ≡ decoded runes) × Cover path sha max chunks (seen ++ runes)
  unfolding chunk_loop
  chunk_loop-Cover [] before seen s {chunks} h e = (
    [],
    refl,
    subst (λ cs. Cover path sha max cs (seen ++ [])) (ok-inj _ _ e)
        (subst (Cover path sha max (flushed path sha max s).chunks) (sym (append-nil seen))
          (flushed-Flushed path sha max before seen s h).covered),
  )
  chunk_loop-Cover (bad_byte ∷ text) before seen s h e = cc
  chunk_loop-Cover (rune c ∷ text) before seen s {chunks} h e =
      let (small, go_on) = no_error (ltb max (len_utf8 c)) _ _ e in
      let (here, next) = add_rune-Open path sha max before seen s c (ground arith) h in
      let (runes, same, cover) = chunk_loop-Cover text here (seen ++ c ∷ []) _ next go_on in
      (
        c ∷ runes,
        ap (λ t. rune c ∷ t) same,
        subst (Cover path sha max chunks) (append_assoc seen (c ∷ []) runes) cover,
      )

  some_bound :
      (b : Bool) (r : Result (List Chunk)) (e : Error) {chunks : List Chunk}
      → (if b then r else err e) ≡ ok chunks
      → r ≡ ok chunks
  some_bound b r e h = ground arith

  start-Open : Open path sha max [] [] start_chunking
  start-Open = record {
    covered = nothing;
    rest = refl;
    offset = refl;
    line = refl;
    current_piece = inl refl;
  }

  -- Where a text is cut into chunks without an error, it is valid UTF-8 and the chunks cover it:
  -- they are its consecutive pieces in order, none empty or longer than the bound, each with its
  -- position, the lines of its first and last rune, and the bytes at which it starts and ends.
  pub chunk_eligible_text-Cover :
      (text : List Decoded) (chunks : List Chunk)
      → chunk_eligible_text path sha max text ≡ ok chunks
      → (runes : List Char) × (text ≡ decoded runes) × Cover path sha max chunks runes
  unfolding chunk_eligible_text
  chunk_eligible_text-Cover [] chunks e =
      ([], refl, subst (λ cs. Cover path sha max cs []) (ok-inj _ _ (some_bound _ _ _ e)) nothing)
  chunk_eligible_text-Cover (d ∷ text) chunks e =
      chunk_loop-Cover (d ∷ text) [] [] start_chunking start-Open (some_bound _ _ _ e)

  chunk_loop-ok :
      (runes : List Char) (s : Chunking)
      → All (λ c. len_utf8 c ≤ max) runes
      → (chunks : List Chunk) × (chunk_loop path sha max (decoded runes) s ≡ ok chunks)
  unfolding chunk_loop
  chunk_loop-ok [] s h = (_, refl)
  chunk_loop-ok (c ∷ runes) s (small, h) =
      let (chunks, e) = chunk_loop-ok runes (add_rune path sha max c s) h in (chunks, ground arith)

  -- A text of runes that are each no longer than a positive bound is cut into chunks without an
  -- error.
  pub chunk_eligible_text-ok :
      (runes : List Char)
      → 0 < max
      → All (λ c. len_utf8 c ≤ max) runes
      → (chunks : List Chunk) × (chunk_eligible_text path sha max (decoded runes) ≡ ok chunks)
  unfolding chunk_eligible_text
  chunk_eligible_text-ok [] bound h = ([], ground arith)
  chunk_eligible_text-ok (c ∷ runes) bound h =
      let (chunks, e) = chunk_loop-ok (c ∷ runes) start_chunking h in (chunks, ground arith)
