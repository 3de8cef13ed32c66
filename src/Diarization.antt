-- ===== src/Diarization.antt =====
-- src/app/diarization.py: `_align_speakers`. The pipeline of pyannote is a parameter of the worker.
pub mod Best
use yt_service.Prelude.{
  String, Bool, true, false, Option, none, some, List, [], ◌∷◌, map, Float, if◌then◌else◌,
}
use yt_service.Domain.{Snippet}

-- `(speaker_label, start, end)`
pub record Turn (N : Type 0) : Type 0 where
  pub label : String
  pub start : N
  pub end : N

module _ (f : Float) where
  -- Python's `max` and `min` of two: the first unless the second is beyond it
  abbrev pub max_of : f.Num → f.Num → f.Num
  max_of a b = if f.lt a b then b else a

  abbrev pub min_of : f.Num → f.Num → f.Num
  min_of a b = if f.lt b a then b else a

  -- The overlap of a snippet, 0.2 seconds longer at both ends, with a turn.
  unfoldable pub overlap : Snippet f.Num → Turn f.Num → f.Num
  overlap s t =
      let s_start = f.sub s.start (f.lit 20) in
      let s_end = f.add (f.add s.start s.duration) (f.lit 20) in
      max_of (f.lit 0) (f.sub (min_of s_end t.end) (max_of s_start t.start))

  -- The loop over the turns, from the best label and overlap so far.
  unfoldable pub scan :
      Snippet f.Num → Option String → f.Num → List (Turn f.Num) → Option String × f.Num
  unfolding overlap
  scan s best_label best_overlap [] = (best_label, best_overlap)
  scan s best_label best_overlap (t ∷ ts) = elim (f.lt best_overlap (overlap s t)) [
    | true ↦ scan s (some t.label) (overlap s t) ts
    | false ↦ scan s best_label best_overlap ts
  ]

  abbrev pub labelled : Option String → Snippet f.Num → Snippet f.Num
  labelled none s = s
  labelled (some label) s = record s { speaker = some label }

  unfoldable pub align_speakers : List (Snippet f.Num) → List (Turn f.Num) → List (Snippet f.Num)
  unfolding scan
  align_speakers snippets turns =
      map {A = Snippet f.Num} (λ s. labelled (scan s none (f.lit 0) turns).0 s) snippets
