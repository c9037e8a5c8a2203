-- ===== src/Ingestion/Reader/Laws.antt =====
-- What is known of a file that `BuildChunksFromReader` takes into the index.
use Prim.Native.Char.{Char, code, len_utf8}
use mathlib.Core.List.{append_assoc, append-nil}
use go_mivia.Base.{
  ◌+◌, String, ◌≡◌, refl, sym, ap, ◌∙◌, Bool, true, false, nat_eq, string_eq, ◌==◌, Option, none,
  some, List, [], ◌∷◌, ◌++◌, arith, if◌then◌else◌,
}
use go_mivia.Base.Result.{Result, Error, ok, err}
use go_mivia.Ingestion.Chunks.{Decoded, rune, bad_byte}
use go_mivia.Ingestion.Chunks.Stream.{Builder, append_rune, append_runes}
use go_mivia.Ingestion.Chunks.Cover.{decoded}
use go_mivia.Ingestion.Safety.{has_nul, Sensors}
use go_mivia.Ingestion.Reader.{
  Reading, Answer, Step, go_on, leave, then_step, leave_skipped, put_builder, end_of_reader,
  add_sample, take_structured, take_plain, take_text, take_rune, read_runes,
}

leave_skipped-go_on :
    (b : Bool) (answer : Answer) (step : Step) {s : Reading}
    → leave_skipped b answer step ≡ go_on s
    → step ≡ go_on s
unfolding leave_skipped
leave_skipped-go_on true answer step e = cc
leave_skipped-go_on false answer step e = e

leave_skipped-passed :
    (b : Bool) (answer : Answer) (step : Step) {s : Reading}
    → leave_skipped b answer step ≡ go_on s
    → b ≡ false
unfolding leave_skipped
leave_skipped-passed true answer step e = cc
leave_skipped-passed false answer step e = refl

abbrev reading_of : Reading → Step → Reading
reading_of s (go_on t) = t
reading_of s (leave answer) = s

put_builder-go_on :
    (r : Result Builder) (s : Reading) {t : Reading}
    → put_builder r s ≡ go_on t
    → (r ≡ ok t.builder) × (t.hashed ≡ s.hashed)
unfolding put_builder
put_builder-go_on (ok builder) s e =
    (ap (λ x. ok (reading_of s x).builder) e, sym (ap (λ x. (reading_of s x).hashed) e))
put_builder-go_on (err problem) s e = cc

add_sample-builder : (c : Char) (s : Reading) → (add_sample c s).builder ≡ s.builder
unfolding add_sample
add_sample-builder c s = ground arith

module _ (sensors : Sensors) (has_hard_marker : List Decoded → Bool) (path : String)
    (structured : Bool) where
  take_structured-go_on :
      (c : Char) (s : Reading) {t : Reading}
      → take_structured sensors has_hard_marker path structured c s ≡ go_on t
      → (append_rune s.builder c ≡ ok t.builder) × (t.hashed ≡ s.hashed)
  unfolding take_structured
  take_structured-go_on c s e =
      put_builder-go_on _ _ (leave_skipped-go_on _ _ _ (leave_skipped-go_on _ _ _ e))

  take_plain-go_on :
      (c : Char) (s : Reading) {t : Reading}
      → take_plain sensors has_hard_marker path structured c s ≡ go_on t
      → (append_rune s.builder c ≡ ok t.builder) × (t.hashed ≡ s.hashed)
  unfolding take_plain
  take_plain-go_on c s e = put_builder-go_on _ _ (leave_skipped-go_on _ _ _ e)

  take_rune-go_on :
      (c : Char) (s : Reading) {t : Reading}
      → take_rune sensors has_hard_marker path structured c s ≡ go_on t
      → ((code c == 0) ≡ false)
        × (append_rune s.builder c ≡ ok t.builder)
        × (t.hashed ≡ s.hashed ++ rune c ∷ [])
  unfolding take_rune take_text
  take_rune-go_on c s {t} e =
      let after = leave_skipped-go_on _ _ _ (leave_skipped-go_on _ _ _ e) in
      let (built, hashed) = taken structured after in
      (
        leave_skipped-passed _ _ _ e,
        ap (λ b. append_rune b c) (sym (add_sample-builder c _)) ∙ built,
        hashed,
      )
    where
      counted : Reading
      counted = record s { total = s.total + len_utf8 c }

      hashing : Reading
      hashing = record (add_sample c counted) { hashed = s.hashed ++ rune c ∷ [] }

      taken :
          (b : Bool)
          → (if b
              then take_structured sensors has_hard_marker path structured c hashing
              else take_plain sensors has_hard_marker path structured c hashing)
            ≡ go_on t
          → (append_rune hashing.builder c ≡ ok t.builder) × (t.hashed ≡ hashing.hashed)
      taken true h = take_structured-go_on c hashing h
      taken false h = take_plain-go_on c hashing h

then_step-go_on :
    (step : Step) (next : Reading → Step) {t : Reading}
    → then_step step next ≡ go_on t
    → (m : Reading) × (step ≡ go_on m) × (next m ≡ go_on t)
unfolding then_step
then_step-go_on (go_on m) next e = (m, refl, e)
then_step-go_on (leave answer) next e = cc

has_nul-rune :
    (c : Char) (content : List Decoded)
    → (code c == 0) ≡ false
    → has_nul content ≡ false
    → has_nul (rune c ∷ content) ≡ false
unfolding has_nul
has_nul-rune c content e f = ground arith

append_runes-next :
    (b : Builder) (c : Char) (runes : List Char) {m n : Builder}
    → append_rune b c ≡ ok m
    → append_runes m runes ≡ ok n
    → append_runes b (c ∷ runes) ≡ ok n
unfolding append_runes
append_runes-next b c runes e f = rw e f

-- What the loop has read when it ends without a `return`.
pub record HasRead (failure : Option Error) (content : List Decoded) (s t : Reading) : Type 0 where
  pub no_failure : failure ≡ none
  pub runes : List Char
  pub decodes : content ≡ decoded runes
  pub no_nul : has_nul content ≡ false
  pub built : append_runes s.builder runes ≡ ok t.builder
  pub hashes : t.hashed ≡ s.hashed ++ content

end_of_reader-go_on :
    (failure : Option Error) (s : Reading) {t : Reading}
    → end_of_reader failure s ≡ go_on t
    → HasRead failure [] s t
unfolding has_nul append_runes
end_of_reader-go_on none s e = record {
  no_failure = refl;
  runes = [];
  decodes = refl;
  no_nul = refl;
  built = ap (λ x. ok (reading_of s x).builder) e;
  hashes = sym (ap (λ x. (reading_of s x).hashed) e) ∙ sym (append-nil s.hashed);
}
end_of_reader-go_on (some problem) s e = cc

then_rune :
    (failure : Option Error) (c : Char) (content : List Decoded) (s m t : Reading)
    → (code c == 0) ≡ false
    → append_rune s.builder c ≡ ok m.builder
    → m.hashed ≡ s.hashed ++ rune c ∷ []
    → HasRead failure content m t
    → HasRead failure (rune c ∷ content) s t
then_rune failure c content s m t nonzero built hashed rest = record {
  no_failure = rest.no_failure;
  runes = c ∷ rest.runes;
  decodes = ap (λ x. rune c ∷ x) rest.decodes;
  no_nul = has_nul-rune c content nonzero rest.no_nul;
  built = append_runes-next s.builder c rest.runes built rest.built;
  hashes =
      rest.hashes ∙ ap (λ x. x ++ content) hashed ∙ append_assoc s.hashed (rune c ∷ []) content;
}

module _ (sensors : Sensors) (has_hard_marker : List Decoded → Bool) (path : String)
    (structured : Bool) where
  pub read_runes-go_on :
      (failure : Option Error) (content : List Decoded) (s : Reading) {t : Reading}
      → read_runes sensors has_hard_marker path structured failure content s ≡ go_on t
      → HasRead failure content s t
  unfolding read_runes
  read_runes-go_on failure [] s e = end_of_reader-go_on failure s e
  read_runes-go_on failure (bad_byte ∷ content) s e = cc
  read_runes-go_on failure (rune c ∷ content) s {t} e =
      let (m, taken, rest) = then_step-go_on _ _ e in
      let (nonzero, built, hashed) =
        take_rune-go_on sensors has_hard_marker path structured c s taken in
      then_rune failure c content s m t nonzero built hashed
        (read_runes-go_on failure content m rest)
