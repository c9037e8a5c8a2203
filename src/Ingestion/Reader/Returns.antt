-- ===== src/Ingestion/Reader/Returns.antt =====
-- The loop of `BuildChunksFromReader` never returns a set of chunks: only its end does.
use Prim.Native.Char.{Char}
use go_mivia.Base.{◌≡◌, refl, String, Bool, true, false, Option, none, some, List, [], ◌∷◌, if_ind}
use go_mivia.Base.Result.{Result, Error, ok, err}
use go_mivia.Ingestion.Chunks.{Decoded, rune, bad_byte}
use go_mivia.Ingestion.Chunks.Stream.{Builder}
use go_mivia.Ingestion.Safety.{SafetyResult, Sensors, ChunkSet}
use go_mivia.Ingestion.Reader.{
  Reading, Answer, Step, go_on, leave, then_step, leave_skipped, put_builder, end_of_reader,
  take_structured, take_plain, take_text, take_rune, read_runes, answer_of,
}

abbrev has_set : Answer → Bool
has_set (ok (some set, safety)) = true
has_set (ok (none, safety)) = false
has_set (err problem) = false

abbrev returns_set : Step → Bool
returns_set (go_on s) = false
returns_set (leave answer) = has_set answer

leave_skipped-returns_set :
    (b : Bool) (safety : SafetyResult) (step : Step)
    → returns_set step ≡ false
    → returns_set (leave_skipped b (ok (none, safety)) step) ≡ false
unfolding leave_skipped
leave_skipped-returns_set true safety step e = refl
leave_skipped-returns_set false safety step e = e

put_builder-returns_set : (r : Result Builder) (s : Reading) → returns_set (put_builder r s) ≡ false
unfolding put_builder
put_builder-returns_set (ok builder) s = refl
put_builder-returns_set (err problem) s = refl

then_step-returns_set :
    (step : Step) (next : Reading → Step)
    → returns_set step ≡ false
    → ((s : Reading) → returns_set (next s) ≡ false)
    → returns_set (then_step step next) ≡ false
unfolding then_step
then_step-returns_set (go_on s) next e f = f s
then_step-returns_set (leave answer) next e f = e

end_of_reader-returns_set :
    (failure : Option Error) (s : Reading) → returns_set (end_of_reader failure s) ≡ false
end_of_reader-returns_set none s = refl
end_of_reader-returns_set (some problem) s = refl

module _ (sensors : Sensors) (has_hard_marker : List Decoded → Bool) (path : String)
    (structured : Bool) where
  take_rune-returns_set :
      (c : Char) (s : Reading)
      → returns_set (take_rune sensors has_hard_marker path structured c s) ≡ false
  unfolding take_rune take_text take_structured take_plain
  take_rune-returns_set c s = leave_skipped-returns_set _ _ _ (
      leave_skipped-returns_set _ _ _ (
        if_ind (λ step. returns_set step ≡ false) structured _ _
          (λ _.
            leave_skipped-returns_set _ _ _
              (leave_skipped-returns_set _ _ _ (put_builder-returns_set _ _)))
          (λ _. leave_skipped-returns_set _ _ _ (put_builder-returns_set _ _))))

  read_runes-returns_set :
      (failure : Option Error) (content : List Decoded) (s : Reading)
      → returns_set (read_runes sensors has_hard_marker path structured failure content s) ≡ false
  unfolding read_runes
  read_runes-returns_set failure [] s = end_of_reader-returns_set failure s
  read_runes-returns_set failure (bad_byte ∷ content) s = refl
  read_runes-returns_set failure (rune c ∷ content) s =
      then_step-returns_set _ _ (take_rune-returns_set c s)
        (λ m. read_runes-returns_set failure content m)

  answer_of-set :
      (close : Reading → Answer) (step : Step) {set : ChunkSet} {safety : SafetyResult}
      → returns_set step ≡ false
      → answer_of close step ≡ ok (some set, safety)
      → (t : Reading) × (step ≡ go_on t) × (close t ≡ ok (some set, safety))
  unfolding answer_of
  answer_of-set close (go_on t) e f = (t, refl, f)
  answer_of-set close (leave answer) e f = cc

  -- An answer with a set is the one at the end of the loop.
  pub answer-closes :
      (close : Reading → Answer) (failure : Option Error) (content : List Decoded) (s : Reading)
      {set : ChunkSet} {safety : SafetyResult}
      → answer_of close (read_runes sensors has_hard_marker path structured failure content s)
        ≡ ok (some set, safety)
      → (t : Reading) × (read_runes sensors has_hard_marker path structured failure content s
          ≡ go_on t)
        × (close t ≡ ok (some set, safety))
  answer-closes close failure content s =
      answer_of-set close _ (read_runes-returns_set failure content s)
