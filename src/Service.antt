-- ===== src/Service.antt =====
-- src/app/transcript_service.py: `get_or_fetch`, which answers `GET /v1/transcript`, and the answers
-- that it builds.
pub mod Waiting
pub mod Fetching
pub mod Keeping
pub mod Covered
pub mod Answers
pub mod Whispering
pub mod Captions
pub mod About
pub mod Again
pub mod Named
pub mod Rows
use yt_service.Prelude.{
  ℕ, String, Bool, true, false, Option, none, some, List, [], ◌∷◌, map, length, Outcome, ok, raise,
  Float,
}
use yt_service.Errors.{Error, exception}
use yt_service.Domain.{Source, Snippet, Chapter, CaptionsResult, TranscriptRecord, youtube_captions}
use yt_service.Domain.Json.{Dict, ReadError, key_error, type_error, value_error}
use yt_service.World.{World}
use yt_service.Jobs.Ledger.{poll_url_for}
use yt_service.Jobs.Enqueuing.{Contention}
use yt_service.DeepLinks.{with_deep_links}

-- `TranscriptSnippetOut` and `ChapterOut` have the fields of `Snippet` and `Chapter`.
pub record TranscriptResponse (N : Type 0) : Type 0 where
  pub video_id : String
  pub source : Source
  pub language : String
  pub is_generated : Bool
  pub duration_seconds : Option N
  pub snippet_count : ℕ
  pub cached_at : ℕ
  pub cache_hit : Bool
  pub chapters : Option (List (Chapter N))
  pub snippets : List (Snippet N)
  pub full_text : String

pub record JobAcceptedResponse : Type 0 where
  pub job_id : String
  pub status : String
  pub video_id : String
  pub poll_url : String
  pub estimated_seconds : ℕ

-- The two tags of the orchestrator.
pub data Reply (N : Type 0) : Type 0 where
  transcript : TranscriptResponse N → Reply N
  job_accepted : JobAcceptedResponse → Reply N

-- What a request meets: the clock, the settings, YouTube's answers, the hook of the rate limit, what
-- other processes do while a job is enqueued, and what they do in each pause of the wait, by the
-- number of pauses that are left.
pub record ServiceEnv (N W : Type 0) : Type 0 where
  pub now : ℕ
  pub cache_ttl_days : ℕ
  pub max_video_duration_seconds : N
  pub fetch_captions : String → String → Outcome Error (Option (CaptionsResult N))
  pub fetch_video_metadata : String → Outcome Error (Option (Dict N))
  pub whisper_rate_limit_hook : Option (W → Outcome Error (Unit {0}) × W)
  pub contention : Contention W
  pub pause : ℕ → W → W

abbrev pub default_estimated_seconds : ℕ
default_estimated_seconds = 90

abbrev pub max_wait_seconds : ℕ
max_wait_seconds = 25

unfoldable pub job_accepted_response : String → String → String → JobAcceptedResponse
unfolding poll_url_for
job_accepted_response job_id video_id status = record {
  job_id = job_id;
  status = status;
  video_id = video_id;
  poll_url = poll_url_for job_id;
  estimated_seconds = default_estimated_seconds;
}

-- What the decoding of a row raises, as an exception of Python.
abbrev pub undecodable : ReadError → Error
undecodable key_error = exception "KeyError" ""
undecodable type_error = exception "TypeError" ""
undecodable value_error = exception "ValueError" ""

module _ {N : Type 0} where
  -- An empty list of chapters is answered as none.
  abbrev pub chapters_out : Option (List (Chapter N)) → Option (List (Chapter N))
  chapters_out (some (c ∷ cs)) = some (c ∷ cs)
  chapters_out _ = none

  unfoldable pub record_to_response : TranscriptRecord N → Bool → TranscriptResponse N
  record_to_response rec cache_hit = record {
    video_id = rec.video_id;
    source = rec.source;
    language = rec.language;
    is_generated = rec.is_generated;
    duration_seconds = rec.duration_seconds;
    snippet_count = rec.snippet_count;
    cached_at = rec.cached_at;
    cache_hit = cache_hit;
    chapters = chapters_out rec.chapters;
    snippets = rec.snippets;
    full_text = rec.full_text;
  }

unfoldable pub captions_to_record :
    (f : Float) → ℕ → CaptionsResult f.Num → String → TranscriptRecord f.Num
unfolding with_deep_links
captions_to_record f now captions_result video_id =
    let snippets = with_deep_links f captions_result.snippets video_id in
    record {
      video_id = video_id;
      language = captions_result.language;
      source = youtube_captions;
      is_generated = captions_result.is_generated;
      duration_seconds = captions_result.duration_seconds;
      snippet_count = length snippets;
      cached_at = now;
      snippets = snippets;
      full_text = captions_result.full_text;
      chapters = none;
      has_diarization = false;
    }
