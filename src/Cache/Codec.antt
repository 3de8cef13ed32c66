-- ===== src/Cache/Codec.antt =====
-- src/app/cache.py: snippets and chapters as the JSON dictionaries that the table stores.
use yt_service.Prelude.{
  String, Option, none, some, List, [], ◌∷◌, Outcome, ok, raise, ◌>>=◌, Float, length,
}
use yt_service.Domain.{Snippet, Chapter, TranscriptRecord}
use yt_service.Domain.Json.{
  Json, Dict, null, num, str, end, field, ReadError, type_error, get, item, to_float, to_text,
}
use yt_service.World.{Transcript}

-- `[g(x) for x in xs]` where `g` may raise
unfoldable pub map_read {ℓ κ} :
    {A : Type ℓ} {B : Type κ} → (A → Outcome ReadError B) → List A → Outcome ReadError (List B)
map_read g [] = ok []
map_read g (x ∷ xs) = do y ← g x; ys ← map_read g xs; ok (y ∷ ys)

module _ {N : Type 0} where
  unfoldable pub optional_text : Option String → Json N
  optional_text none = null
  optional_text (some s) = str s

  unfoldable pub snippet_to_dict : Snippet N → Dict N
  unfolding optional_text
  snippet_to_dict s = field "start" (num s.start) (
      field "duration" (num s.duration) (
        field "text" (str s.text)
          (field "speaker" (optional_text s.speaker) (field "deep_link" (str s.deep_link) end))))

  unfoldable pub chapter_to_dict : Chapter N → Dict N
  chapter_to_dict c =
      field "start" (num c.start) (field "end" (num c.end) (field "title" (str c.title) end))

  -- `raw.get("speaker")`: missing and `null` are `None`
  unfoldable pub read_speaker : Option (Json N) → Outcome ReadError (Option String)
  read_speaker none = ok none
  read_speaker (some null) = ok none
  read_speaker (some (str s)) = ok (some s)
  read_speaker (some _) = raise type_error

  -- `raw.get("deep_link", "")`
  abbrev pub read_deep_link : Option (Json N) → Outcome ReadError String
  read_deep_link none = ok ""
  read_deep_link (some v) = to_text v

module _ (f : Float) where
  -- A text field of another type is refused here, where Python would carry it on.
  unfoldable pub dict_to_snippet : Dict f.Num → Outcome ReadError (Snippet f.Num)
  unfolding read_speaker
  dict_to_snippet raw = do
    start_raw ← item "start" raw
    start ← to_float f start_raw
    duration_raw ← item "duration" raw
    duration ← to_float f duration_raw
    text_raw ← item "text" raw
    text ← to_text text_raw
    speaker ← read_speaker (get "speaker" raw)
    deep_link ← read_deep_link (get "deep_link" raw)
    ok (record {
      start = start;
      duration = duration;
      text = text;
      speaker = speaker;
      deep_link = deep_link;
    })

  unfoldable pub dict_to_chapter : Dict f.Num → Outcome ReadError (Chapter f.Num)
  dict_to_chapter raw = do
    start_raw ← item "start" raw
    start ← to_float f start_raw
    end_raw ← item "end" raw
    ending ← to_float f end_raw
    title_raw ← item "title" raw
    title ← to_text title_raw
    ok (record { start = start; end = ending; title = title })

  unfoldable pub read_chapters :
      Option (List (Dict f.Num)) → Outcome ReadError (Option (List (Chapter f.Num)))
  read_chapters none = ok none
  read_chapters (some raw) = do cs ← map_read (dict_to_chapter) raw; ok (some cs)

  unfoldable pub row_to_record : Transcript f.Num → Outcome ReadError (TranscriptRecord f.Num)
  row_to_record row = do
    snippets ← map_read dict_to_snippet row.snippets_jsonb
    chapters ← read_chapters row.chapters_jsonb
    ok (record {
      video_id = row.video_id;
      language = row.language;
      source = row.source;
      is_generated = row.is_generated;
      duration_seconds = row.duration_seconds;
      snippet_count = length snippets;
      cached_at = row.fetched_at;
      snippets = snippets;
      full_text = row.full_text;
      chapters = chapters;
      has_diarization = row.has_diarization;
    })
