-- ===== src/Cache.antt =====
-- src/app/cache.py: reads and writes of the `transcripts` table. A statement is executed at once: each
-- caller commits it before it returns. Times are in seconds.
pub mod Codec
pub mod Stats
pub mod RoundTrip
pub mod Frame
pub mod Keyed
pub mod Abstract
pub mod Refinement
use text.Mathlib.Text.{◌==◌}
use yt_service.Prelude.{
  ℕ, zero, ◌+◌, ◌*◌, String, Bool, true, false, Option, none, some, List, [], ◌∷◌, ◌++◌, ◌&&◌, not,
  map, Outcome, ok, raise, ◌>>=◌, Float, ltb, leb, select, count, find, update, length,
  if◌then◌else◌,
}
use yt_service.Domain.{
  Source, Snippet, Chapter, TranscriptRecord, youtube_captions, whisper_openai, whisper_local,
}
use yt_service.Domain.Json.{ReadError, Dict}
use yt_service.World.{World, Transcript}
use yt_service.Cache.Codec.{snippet_to_dict, chapter_to_dict, row_to_record}

module _ {N : Type 0} where
  abbrev pub is_row : String → String → Transcript N → Bool
  is_row video_id language t = t.video_id == video_id && t.language == language

  abbrev pub is_live : ℕ → Transcript N → Bool
  is_live now t = ltb now t.expires_at

  -- `None` stays `None`
  unfoldable pub chapters_payload : Option (List (Chapter N)) → Option (List (Dict N))
  chapters_payload none = none
  chapters_payload (some cs) = some (map chapter_to_dict cs)

  -- The values of the insert. A `datetime` is never false, so `cached_at or now` is `cached_at`.
  unfoldable pub new_row : ℕ → ℕ → TranscriptRecord N → Transcript N
  unfolding chapters_payload
  new_row now ttl_days rec = record {
    video_id = rec.video_id;
    language = rec.language;
    source = rec.source;
    is_generated = rec.is_generated;
    duration_seconds = rec.duration_seconds;
    snippets_jsonb = map snippet_to_dict rec.snippets;
    full_text = rec.full_text;
    chapters_jsonb = chapters_payload rec.chapters;
    has_diarization = rec.has_diarization;
    fetched_at = rec.cached_at;
    expires_at = now + ttl_days * 86400;
  }

  abbrev pub kept_chapters :
      Option (List (Dict N)) → Option (List (Dict N)) → Option (List (Dict N))
  kept_chapters none old = old
  kept_chapters (some new) old = some new

  -- `DO UPDATE SET`: every payload column is the new row's, but chapters only if it carries them.
  abbrev pub merge_row : Transcript N → Transcript N → Transcript N
  merge_row row old = record row {
    chapters_jsonb = kept_chapters row.chapters_jsonb old.chapters_jsonb;
  }

  abbrev pub upsert :
      Option (Transcript N) → Transcript N → List (Transcript N) → List (Transcript N)
  upsert none row rows = row ∷ rows
  upsert (some _) row rows = update (is_row row.video_id row.language) (merge_row row) rows

module _ {N Db : Type 0} where
  unfoldable pub put_transcript : ℕ → ℕ → TranscriptRecord N → Option ℕ → World N Db → World N Db
  unfolding new_row
  put_transcript now cache_ttl_days rec ttl_days w =
      let ttl : ℕ = elim ttl_days [ none ↦ cache_ttl_days | some d ↦ d ] in
      let row = new_row now ttl rec in
      record w {
        transcripts =
            upsert (find (is_row rec.video_id rec.language) w.transcripts) row w.transcripts;
      }

  unfoldable pub put_chapters :
      String → String → Option (List (Chapter N)) → World N Db → World N Db
  unfolding chapters_payload
  put_chapters video_id language chapters w = record w {
    transcripts =
        update (is_row video_id language)
          (λ t. record t { chapters_jsonb = chapters_payload chapters }) w.transcripts;
  }

  -- The number of rows that were updated, and the new world.
  unfoldable pub put_diarization :
      String → String → List (Snippet N) → Bool → World N Db → ℕ × World N Db
  put_diarization video_id language snippets has_diarization w = (
    count (is_row video_id language) w.transcripts,
    record w {
      transcripts =
          update (is_row video_id language)
            (λ t. record t {
              snippets_jsonb = map snippet_to_dict snippets;
              has_diarization = has_diarization;
            })
            w.transcripts;
    },
  )

  -- The number of rows that were deleted, and the new world.
  unfoldable pub purge_transcript : String → World N Db → ℕ × World N Db
  purge_transcript video_id w = (
    count (λ t. t.video_id == video_id) w.transcripts,
    record w { transcripts = select (λ t. not (t.video_id == video_id)) w.transcripts },
  )

module _ (f : Float) {Db : Type 0} where
  -- A hit is counted also when the row cannot be decoded, which raises.
  unfoldable pub respond :
      Option (Transcript f.Num)
      → World f.Num Db
      → Outcome ReadError (Option (TranscriptRecord f.Num)) × World f.Num Db
  respond none w = (ok none, record w { cache_misses = w.cache_misses + 1 })
  respond (some row) w =
      ((do rec ← row_to_record f row; ok (some rec)), record w { cache_hits = w.cache_hits + 1 })

  unfoldable pub get_transcript :
      ℕ
      → String
      → String
      → World f.Num Db
      → Outcome ReadError (Option (TranscriptRecord f.Num)) × World f.Num Db
  unfolding respond
  get_transcript now video_id language w =
      respond (find (λ t. is_row video_id language t && is_live now t) w.transcripts) w
