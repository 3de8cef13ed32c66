-- ===== src/Chapters/Parsing.antt =====
-- src/app/chapters.py: chapters out of YouTube's metadata, and out of the answer of an LLM.
use yt_service.Prelude.{
  ℕ, String, true, false, Option, none, some, List, [], ◌∷◌, ◌&&◌, ◌||◌, Outcome, ok, raise, ◌>>=◌,
  Float, take, strip, lstrip, rstrip, take_chars, is_empty, or_else, drop_prefix, drop_suffix,
  if◌then◌else◌,
}
use yt_service.Errors.{Error, exception}
use yt_service.Domain.{Chapter}
use yt_service.Domain.Json.{
  Json, Dict, ReadError, type_error, null, bool, num, str, arr, obj, nil, end, get, item, items,
  to_float,
}

abbrev pub max_chapters : ℕ
max_chapters = 32

abbrev pub fence_start : String → String → String
fence_start fence s = elim (drop_prefix fence s) [ none ↦ s | some rest ↦ lstrip rest ]

abbrev pub fence_end : String → String
fence_end s = elim (drop_suffix "```" s) [ none ↦ s | some rest ↦ rstrip rest ]

-- The two turns of the loop over the fences.
unfoldable pub clean : String → String
unfolding strip
clean text =
    let once = fence_end (fence_start "```json" (strip text)) in fence_end (fence_start "```" once)

module _ (f : Float) where
  -- `str(value)`
  abbrev pub to_str : (Json f.Num → String) → Json f.Num → String
  to_str show (str s) = s
  to_str show v = show v

  -- `entry[key]` of a value that may be no dictionary
  abbrev pub entry_item : String → Json f.Num → Outcome ReadError (Json f.Num)
  entry_item key (obj d) = item key d
  entry_item key _ = raise type_error

  abbrev pub float_item : String → Json f.Num → Outcome ReadError f.Num
  float_item key entry = do v ← entry_item key entry; to_float f v

  -- `end` is cut to the duration if it lies more than five seconds behind it.
  abbrev pub clamp_end : f.Num → f.Num → f.Num
  clamp_end duration finish =
      if f.truthy duration && f.lt (f.add duration (f.lit 500)) finish then duration else finish

  abbrev pub checked : f.Num → f.Num → f.Num → String → Option (Chapter f.Num)
  checked duration start finish title =
      if is_empty title
      then none
      else if f.lt start (f.lit 0) || f.le finish start
      then none
      else some
          (record { start = start; end = clamp_end duration finish; title = take_chars 200 title })

  abbrev pub read_fields :
      (Json f.Num → String) → Json f.Num → Outcome ReadError ((f.Num × f.Num) × String)
  read_fields show entry = do
    start ← float_item "start" entry
    finish ← float_item "end" entry
    title ← entry_item "title" entry
    ok ((start, finish), strip (to_str show title))

  abbrev pub check_fields :
      f.Num → Outcome ReadError ((f.Num × f.Num) × String) → Option (Chapter f.Num)
  check_fields duration (raise e) = none
  check_fields duration (ok ((start, finish), title)) = checked duration start finish title

  -- One turn of the loop: `none` continues.
  unfoldable pub read_entry : (Json f.Num → String) → f.Num → Json f.Num → Option (Chapter f.Num)
  unfolding take_chars strip
  read_entry show duration entry = check_fields duration (read_fields show entry)

  abbrev pub keep_some : Option (Chapter f.Num) → List (Chapter f.Num) → List (Chapter f.Num)
  keep_some none cs = cs
  keep_some (some c) cs = c ∷ cs

  unfoldable pub read_entries :
      (Json f.Num → String) → f.Num → List (Json f.Num) → List (Chapter f.Num)
  unfolding read_entry
  read_entries show duration [] = []
  read_entries show duration (entry ∷ rest) =
      keep_some (read_entry show duration entry) (read_entries show duration rest)

  unfoldable pub monotonic : f.Num → List (Chapter f.Num) → List (Chapter f.Num)
  monotonic last_start [] = []
  monotonic last_start (c ∷ cs) = elim (f.lt last_start c.start) [
    | true ↦ c ∷ monotonic c.start cs
    | false ↦ monotonic last_start cs
  ]

  abbrev pub of_raw : (Json f.Num → String) → f.Num → Option (Json f.Num) → List (Chapter f.Num)
  of_raw show duration (some (arr xs)) =
      monotonic (f.neg (f.lit 100)) (read_entries show duration (take max_chapters (items xs)))
  of_raw show duration _ = []

  -- A JSON value without `get` raises.
  abbrev pub of_payload :
      (Json f.Num → String) → f.Num → Option (Json f.Num) → Outcome Error (List (Chapter f.Num))
  of_payload show duration none = ok []
  of_payload show duration (some (obj payload)) = ok (of_raw show duration (get "chapters" payload))
  of_payload show duration (some _) = raise (exception "AttributeError" "no attribute 'get'")

  unfoldable pub parse_llm_chapters :
      (String → Option (Json f.Num))
      → (Json f.Num → String)
      → String
      → f.Num
      → Outcome Error (List (Chapter f.Num))
  unfolding clean read_entries monotonic exception
  parse_llm_chapters loads show text duration = of_payload show duration (loads (clean text))

  -- `str(c.get("title") or "Chapter").strip()[:200]`
  abbrev pub yt_title : (Json f.Num → String) → Option (Json f.Num) → String
  yt_title show none = "Chapter"
  yt_title show (some null) = "Chapter"
  yt_title show (some (str s)) = take_chars 200 (strip (or_else s "Chapter"))
  yt_title show (some (bool false)) = "Chapter"
  yt_title show (some (num x)) =
      if f.truthy x then take_chars 200 (strip (show (num x))) else "Chapter"
  yt_title show (some (arr nil)) = "Chapter"
  yt_title show (some (obj end)) = "Chapter"
  yt_title show (some v) = take_chars 200 (strip (show v))

  abbrev pub title_of : (Json f.Num → String) → Json f.Num → String
  title_of show (obj d) = yt_title show (get "title" d)
  title_of show _ = ""

  abbrev pub yt_chapter : (Json f.Num → String) → Json f.Num → Outcome ReadError (Chapter f.Num)
  yt_chapter show c = do
    start ← float_item "start_time" c
    finish ← float_item "end_time" c
    ok (record { start = start; end = finish; title = title_of show c })

  abbrev pub keep_ok :
      Outcome ReadError (Chapter f.Num) → List (Chapter f.Num) → List (Chapter f.Num)
  keep_ok (raise e) cs = cs
  keep_ok (ok c) cs = c ∷ cs

  abbrev pub yt_list : (Json f.Num → String) → List (Json f.Num) → List (Chapter f.Num)
  yt_list show [] = []
  yt_list show (c ∷ rest) = keep_ok (yt_chapter show c) (yt_list show rest)

  -- `chapters or None`
  abbrev pub or_none : List (Chapter f.Num) → Option (List (Chapter f.Num))
  or_none [] = none
  or_none (c ∷ cs) = some (c ∷ cs)

  abbrev pub of_meta : (Json f.Num → String) → Option (Json f.Num) → Option (List (Chapter f.Num))
  of_meta show (some (arr xs)) = or_none (yt_list show (items xs))
  of_meta show _ = none

  unfoldable pub yt_chapters :
      (Json f.Num → String) → Option (Dict f.Num) → Option (List (Chapter f.Num))
  unfolding take_chars strip
  yt_chapters show none = none
  yt_chapters show (some meta) = of_meta show (get "chapters" meta)
