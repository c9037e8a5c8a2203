-- ===== src/Ingestion/Chunks/Cover/State.antt =====
-- The state of the loop of `chunkEligibleText`, turn by turn.
use Prim.Native.Char.{Char, len_utf8}
use mathlib.Core.List.{append_assoc, append-nil}
use go_mivia.Base.{
  ℕ, ◌+◌, ◌≤◌, String, ◌≡◌, ◌⊎◌, refl, sym, ap, ◌∙◌, subst, nat_eq, true, false, List, [], ◌∷◌,
  ◌++◌, is_empty, ltb, arith, Bool-cases, inl, inr,
}
use go_mivia.Ingestion.Chunks.Cover.{
  line_after, line_after-append, byte_len-append, Piece, Cover, then_chunk,
}
use go_mivia.Ingestion.Chunks.{
  Chunking, byte_len, next_line, chunk_of, flush_text, open_chunk, put_rune, add_rune,
}

module _ (path sha : String) (max : ℕ) where
  -- The state of the loop when the text `seen` has been read: the chunks cover a part of it, and the
  -- current piece is the rest.
  pub record Open (before seen : List Char) (s : Chunking) : Type 0 where
    pub covered : Cover path sha max s.chunks before
    pub rest : seen ≡ before ++ s.current
    pub offset : s.byte_offset ≡ byte_len seen
    pub line : s.line_number ≡ line_after seen 1
    pub current_piece :
        (s.current ≡ []) ⊎ Piece path sha max before s.start_line s.end_line s.byte_start s.current

  abbrev pub flushed : Chunking → Chunking
  flushed s = flush_text path sha s.byte_offset s

  pub record Flushed (seen : List Char) (s : Chunking) : Type 0 where
    pub covered : Cover path sha max s.chunks seen
    pub offset : s.byte_offset ≡ byte_len seen
    pub line : s.line_number ≡ line_after seen 1
    pub nothing_left : s.current ≡ []

  -- The state after the current piece has become a chunk.
  abbrev closed : Chunking → Chunking
  closed s = record s {
    chunks = s.chunks ++ chunk_of path sha s s.byte_offset ∷ [];
    current = [];
    start_line = s.line_number;
    end_line = s.line_number;
    byte_start = s.byte_offset;
  }

  flushed-empty : (s : Chunking) → is_empty s.current ≡ true → flushed s ≡ s
  unfolding flush_text
  flushed-empty s e = rw e refl

  flushed-full : (s : Chunking) → is_empty s.current ≡ false → flushed s ≡ closed s
  unfolding flush_text
  flushed-full s e = rw e refl

  empty_at_nil : {cs : List Char} → cs ≡ [] → is_empty cs ≡ true
  empty_at_nil e = ap is_empty e

  full_at_last : (cs ls : List Char) (c : Char) → cs ≡ ls ++ c ∷ [] → is_empty cs ≡ false
  full_at_last cs [] c e = ap is_empty e
  full_at_last cs (l ∷ ls) c e = ap is_empty e

  all-Flushed :
      (before seen : List Char) (s : Chunking)
      → Open before seen s
      → s.current ≡ []
      → Flushed seen s
  all-Flushed before seen s h none = record {
    covered =
        subst (Cover path sha max s.chunks)
          (sym (h.rest ∙ ap (λ t. before ++ t) none ∙ append-nil before)) h.covered;
    offset = h.offset;
    line = h.line;
    nothing_left = none;
  }

  closed-Flushed :
      (before seen : List Char) (s : Chunking)
      → Open before seen s
      → Piece path sha max before s.start_line s.end_line s.byte_start s.current
      → Flushed seen (closed s)
  unfolding chunk_of
  closed-Flushed before seen s h p = record {
    covered = subst (Cover path sha max _) (sym h.rest) (
        then_chunk h.covered _ (record {
          piece = p;
          ends_at = h.offset ∙ ap byte_len h.rest;
          is_index = refl;
          is_id = refl;
          same_path = refl;
          same_sha = refl;
        }));
    offset = h.offset;
    line = h.line;
    nothing_left = refl;
  }

  pub flushed-Flushed :
      (before seen : List Char) (s : Chunking) → Open before seen s → Flushed seen (flushed s)
  flushed-Flushed before seen s h = elim h.current_piece [
    | inl none ↦
        subst (Flushed seen) (sym (flushed-empty s (empty_at_nil none)))
          (all-Flushed before seen s h none)
    | inr p ↦
        subst (Flushed seen)
          (sym (flushed-full s (full_at_last s.current p.leading p.last p.parts)))
          (closed-Flushed before seen s h p)
  ]

  put_first :
      (seen : List Char) (s : Chunking) (c : Char)
      → len_utf8 c ≤ max
      → Flushed seen s
      → Open seen (seen ++ c ∷ []) (put_rune c (open_chunk s))
  unfolding put_rune open_chunk
  put_first seen s c room h = rw (empty_at_nil h.nothing_left) (record {
    covered = h.covered;
    rest = ap (λ t. seen ++ (t ++ c ∷ [])) (sym h.nothing_left);
    offset = omega (arith, h.offset, byte_len-append seen (c ∷ []));
    line = ap (next_line c) h.line ∙ sym (line_after-append seen (c ∷ []) 1);
    current_piece = inr (record {
      leading = [];
      last = c;
      parts = ap (λ t. t ++ c ∷ []) h.nothing_left;
      starts_on = h.line;
      ends_on = refl;
      starts_at = h.offset;
      fits = subst (λ t. byte_len (t ++ c ∷ []) ≤ max) (sym h.nothing_left) (omega arith);
    });
  })

  put_next :
      (before seen : List Char) (s : Chunking) (c : Char)
      → byte_len s.current + len_utf8 c ≤ max
      → Open before seen s
      → Piece path sha max before s.start_line s.end_line s.byte_start s.current
      → Open before (seen ++ c ∷ []) (put_rune c (open_chunk s))
  unfolding put_rune open_chunk
  put_next before seen s c room h p = rw (full_at_last s.current p.leading p.last p.parts) (record {
    covered = h.covered;
    rest = ap (λ t. t ++ c ∷ []) h.rest ∙ append_assoc before s.current (c ∷ []);
    offset = omega (arith, h.offset, byte_len-append seen (c ∷ []));
    line = ap (next_line c) h.line ∙ sym (line_after-append seen (c ∷ []) 1);
    current_piece = inr (record {
      leading = s.current;
      last = c;
      parts = refl;
      starts_on = p.starts_on;
      ends_on =
          h.line
          ∙ ap (λ t. line_after t 1) h.rest
          ∙ line_after-append before s.current 1
          ∙ ap (line_after s.current) (sym p.starts_on);
      starts_at = p.starts_at;
      fits = omega (arith, byte_len-append s.current (c ∷ []));
    });
  })

  pub add_rune-Open :
      (before seen : List Char) (s : Chunking) (c : Char)
      → len_utf8 c ≤ max
      → Open before seen s
      → (here : List Char) × Open here (seen ++ c ∷ []) (add_rune path sha max c s)
  unfolding add_rune
  add_rune-Open before seen s c room h =
      elim (Bool-cases (ltb max (byte_len s.current + len_utf8 c))) [
        | inl e ↦ (seen, rw e (put_first seen (flushed s) c room (flushed-Flushed before seen s h)))
        | inr e ↦ elim h.current_piece [
          | inl none ↦ (seen, rw e (put_first seen s c room (all-Flushed before seen s h none)))
          | inr p ↦ (before, rw e (put_next before seen s c (ground arith) h p))
        ]
      ]
