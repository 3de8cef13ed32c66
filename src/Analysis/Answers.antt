-- ===== src/Analysis/Answers.antt =====
-- src/app/tasks/summarize.py: what is read out of an LLM's answer.
use yt_service.Prelude.{
  ℕ, String, Option, none, some, List, [], ◌∷◌, Outcome, ok, raise, ◌>>=◌, Float, take, take_chars,
  strip, is_empty, if◌then◌else◌,
}
use yt_service.Errors.{Error, exception}
use yt_service.Domain.Json.{Json, ReadError, arr, obj, get, items}
use yt_service.Chapters.Parsing.{clean, to_str, entry_item, float_item}
use yt_service.Analysis.{KeyTimestamp, Whole, whole, below_zero, infinite, not_a_number}

module _ (f : Float) (show : Json f.Num → String) (int_of : f.Num → Whole) where
  -- `if label and t >= 0`
  abbrev pub entry_of : ℕ → Outcome ReadError (Json f.Num) → Option KeyTimestamp
  entry_of t (raise e) = none
  entry_of t (ok v) =
      let label = strip (to_str f show v) in
      if is_empty label then none else some (record { t = t; label = take_chars 200 label })

  -- NaN raises ValueError, which is caught; infinity raises OverflowError, which is not.
  abbrev pub of_whole : Json f.Num → Whole → Outcome Error (Option KeyTimestamp)
  of_whole entry (whole t) = ok (entry_of t (entry_item f "label" entry))
  of_whole entry below_zero = ok none
  of_whole entry infinite =
      raise (exception "OverflowError" "cannot convert float infinity to integer")
  of_whole entry not_a_number = ok none

  abbrev pub of_time : Json f.Num → Outcome ReadError f.Num → Outcome Error (Option KeyTimestamp)
  of_time entry (raise e) = ok none
  of_time entry (ok x) = of_whole entry (int_of x)

  abbrev pub add_some : Option KeyTimestamp → List KeyTimestamp → List KeyTimestamp
  add_some none ts = ts
  add_some (some t) ts = t ∷ ts

  unfoldable pub read_timestamps : List (Json f.Num) → Outcome Error (List KeyTimestamp)
  unfolding strip take_chars exception
  read_timestamps [] = ok []
  read_timestamps (entry ∷ rest) = do
    t ← of_time entry (float_item f "t" entry)
    ts ← read_timestamps rest
    ok (add_some t ts)

  abbrev pub timestamps_of : Option (Json f.Num) → Outcome Error (List KeyTimestamp)
  timestamps_of (some (arr xs)) = read_timestamps (take 50 (items xs))
  timestamps_of _ = ok []

  abbrev pub summary_of : String → Option (Json f.Num) → String
  summary_of text none = strip text
  summary_of text (some v) = strip (to_str f show v)

  -- An answer that is no JSON is the summary; a value without `get` raises.
  abbrev pub of_answer : String → Option (Json f.Num) → Outcome Error (String × List KeyTimestamp)
  of_answer text none = ok (strip text, [])
  of_answer text (some (obj payload)) = do
    ts ← timestamps_of (get "key_timestamps" payload)
    ok (summary_of text (get "summary" payload), ts)
  of_answer text (some _) = raise (exception "AttributeError" "no attribute 'get'")

  unfoldable pub parse_summary_response :
      (String → Option (Json f.Num)) → String → Outcome Error (String × List KeyTimestamp)
  unfolding clean read_timestamps
  parse_summary_response loads text = of_answer text (loads (clean text))
