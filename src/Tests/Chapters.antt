-- ===== src/Tests/Chapters.antt =====
-- The theorems on src/app/chapters.py and src/app/diarization.py at concrete inputs.
use yt_service.Prelude.{
  ℕ, String, Option, none, some, List, [], ◌∷◌, ◌≡◌, refl, ok, find, strip, lstrip, rstrip,
  take_chars, drop_prefix, drop_suffix,
}
use yt_service.Domain.{Chapter, TranscriptRecord}
use yt_service.Domain.Json.{Json, num, str, arr, obj, nil, cons, end, field}
use yt_service.World.{Transcript}
use yt_service.Cache.{is_row, new_row, get_transcript, put_chapters, chapters_payload}
use yt_service.Cache.Codec.{
  map_read, dict_to_snippet, snippet_to_dict, read_chapters, row_to_record, chapter_to_dict,
  dict_to_chapter,
}
use yt_service.Cache.RoundTrip.{stored_chapters}
use yt_service.Chapters.{
  ChapterEnv, fetch_yt_chapters, derive_chapters_from_transcript, get_or_compute_chapters,
}
use yt_service.Chapters.Parsing.{
  clean, read_entry, read_entries, monotonic, yt_chapters, parse_llm_chapters,
}
use yt_service.Chapters.Ordered.{IsOrderly, parse_llm_chapters-IsOrderly}
use yt_service.Chapters.Again.{get_or_compute_chapters_again}
use yt_service.Diarization.{Turn, scan}
use yt_service.Diarization.Best.{IsLongest, IsLabel, scan_best}
use yt_service.Tests.Fixtures.{hundredths, Place, empty, snippet, transcript_record}

abbrev entry : Json ℕ
entry = obj (field "start" (num 100) (field "end" (num 300) (field "title" (str "Intro") end)))

-- A text that stands for one chapter given twice.
abbrev loads : String → Option (Json ℕ)
loads s = some (obj (field "chapters" (arr (cons entry (cons entry nil))) end))

abbrev show : Json ℕ → String
show v = ""

abbrev intro : Chapter ℕ
intro = record { start = 100; end = 300; title = "Intro" }

parsed : parse_llm_chapters hundredths loads show "```json\n{}```" 1000 ≡ ok (intro ∷ [])
unfolding parse_llm_chapters clean read_entry read_entries monotonic strip lstrip rstrip take_chars
    drop_prefix drop_suffix
parsed = refl

parse_llm_chapters-IsOrderly_example : IsOrderly hundredths (intro ∷ [])
parse_llm_chapters-IsOrderly_example =
    parse_llm_chapters-IsOrderly hundredths show 1000 loads "```json\n{}```" (intro ∷ []) parsed

abbrev env : ChapterEnv ℕ
env = record {
  fetch_video_metadata = λ v. none;
  llm_execute = λ rec. ok "";
  loads = loads;
  show = show;
  len = λ s. 5;
}

abbrev row : Transcript ℕ
row = new_row 10 1 transcript_record

abbrev stored : Place
stored = record empty { transcripts = row ∷ [] }

there : find (is_row "v1" "en") stored.transcripts ≡ some row
unfolding new_row
there = refl

computed : (get_or_compute_chapters hundredths env transcript_record stored).0 ≡ ok (intro ∷ [])
unfolding get_or_compute_chapters fetch_yt_chapters yt_chapters derive_chapters_from_transcript
    parse_llm_chapters clean read_entry read_entries monotonic strip lstrip rstrip take_chars
    drop_prefix drop_suffix
computed = refl

-- The transcript as it is read later, with the chapters.
abbrev reread : TranscriptRecord ℕ
reread = record transcript_record { chapters = some (intro ∷ []) }

read_later :
    (get_transcript hundredths 20 "v1" "en"
      (get_or_compute_chapters hundredths env transcript_record stored).1).0
    ≡ ok (some reread)
unfolding get_transcript new_row row_to_record map_read dict_to_snippet snippet_to_dict
    read_chapters get_or_compute_chapters fetch_yt_chapters yt_chapters
    derive_chapters_from_transcript parse_llm_chapters clean read_entry read_entries monotonic strip
    lstrip rstrip take_chars drop_prefix drop_suffix put_chapters chapters_payload chapter_to_dict
    dict_to_chapter
read_later = refl

get_or_compute_chapters_again_example :
    (stored_chapters hundredths
        (get_or_compute_chapters hundredths env transcript_record stored).1
        "v1"
        "en"
      ≡ ok (some (intro ∷ [])))
    × (get_or_compute_chapters hundredths env reread empty ≡ (ok (intro ∷ []), empty))
get_or_compute_chapters_again_example =
    get_or_compute_chapters_again hundredths transcript_record (intro ∷ []) env env stored row 20
      reread empty refl there computed read_later

abbrev turns : List (Turn ℕ)
turns =
    record { label = "A"; start = 0; end = 120 }
    ∷ record { label = "B"; start = 120; end = 400 }
    ∷ []

scan_best_example :
    IsLongest hundredths snippet (scan hundredths snippet none 0 turns).1 turns
    × IsLabel hundredths snippet none 0 (scan hundredths snippet none 0 turns) turns
scan_best_example = scan_best hundredths snippet turns
