-- ===== src/Chapters.antt =====
-- src/app/chapters.py. `json.loads` is a parameter, and so is `str` of a JSON value that is no text;
-- the list of YouTube's metadata is one.
pub mod Parsing
pub mod Ordered
pub mod Stored
pub mod Again
use yt_service.Prelude.{
  ℕ, String, Option, none, some, List, [], ◌∷◌, Outcome, ok, raise, ltb, Float, if◌then◌else◌,
}
use yt_service.Errors.{Error, Kind, llm_failed}
use yt_service.Domain.{Chapter, TranscriptRecord}
use yt_service.Domain.Json.{Json, Dict}
use yt_service.World.{World}
use yt_service.Cache.{put_chapters}
use yt_service.Chapters.Parsing.{yt_chapters, parse_llm_chapters}

-- YouTube's metadata, the answer of the LLM to a record, `json.loads`, `str`, and `len`.
pub record ChapterEnv (N : Type 0) : Type 0 where
  pub fetch_video_metadata : String → Option (Dict N)
  pub llm_execute : TranscriptRecord N → Outcome Error String
  pub loads : String → Option (Json N)
  pub show : Json N → String
  pub len : String → ℕ

abbrev pub max_fulltext_chars : ℕ
max_fulltext_chars = 200000

module _ (f : Float) (env : ChapterEnv f.Num) where
  unfoldable pub fetch_yt_chapters : String → Option (List (Chapter f.Num))
  unfolding yt_chapters
  fetch_yt_chapters video_id = yt_chapters f env.show (env.fetch_video_metadata video_id)

  abbrev pub duration_or_zero : Option f.Num → f.Num
  duration_or_zero none = f.lit 0
  duration_or_zero (some d) = if f.truthy d then d else f.lit 0

  abbrev pub unless_failed : Kind → Error → Outcome Error (List (Chapter f.Num))
  unless_failed llm_failed exc = ok []
  unless_failed _ exc = raise exc

  abbrev pub after_llm :
      TranscriptRecord f.Num → Outcome Error String → Outcome Error (List (Chapter f.Num))
  after_llm rec (raise exc) = unless_failed exc.kind exc
  after_llm rec (ok text) =
      parse_llm_chapters f env.loads env.show text (duration_or_zero rec.duration_seconds)

  unfoldable pub derive_chapters_from_transcript :
      TranscriptRecord f.Num → Outcome Error (List (Chapter f.Num))
  unfolding parse_llm_chapters
  derive_chapters_from_transcript rec =
      if ltb max_fulltext_chars (env.len rec.full_text)
      then ok []
      else after_llm rec (env.llm_execute rec)

  abbrev pub published_or_derived :
      Option (List (Chapter f.Num)) → TranscriptRecord f.Num → Outcome Error (List (Chapter f.Num))
  published_or_derived (some cs) rec = ok cs
  published_or_derived none rec = derive_chapters_from_transcript rec

  module _ {Db : Type 0} where
    abbrev pub persist :
        TranscriptRecord f.Num
        → Outcome Error (List (Chapter f.Num))
        → World f.Num Db
        → Outcome Error (List (Chapter f.Num)) × World f.Num Db
    persist rec (raise exc) w = (raise exc, w)
    persist rec (ok cs) w = (ok cs, put_chapters rec.video_id rec.language (some cs) w)

    abbrev pub compute :
        Option (List (Chapter f.Num))
        → TranscriptRecord f.Num
        → World f.Num Db
        → Outcome Error (List (Chapter f.Num)) × World f.Num Db
    compute (some cs) rec w = (ok cs, w)
    compute none rec w = persist rec (published_or_derived (fetch_yt_chapters rec.video_id) rec) w

    unfoldable pub get_or_compute_chapters :
        TranscriptRecord f.Num
        → World f.Num Db
        → Outcome Error (List (Chapter f.Num)) × World f.Num Db
    unfolding put_chapters fetch_yt_chapters derive_chapters_from_transcript
    get_or_compute_chapters rec w = compute rec.chapters rec w
