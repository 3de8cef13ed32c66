-- ===== src/Domain.antt =====
-- src/app/domain.py: the values that the adapters, the cache and the orchestrator exchange. `N` is
-- the type of Python's floats; a `datetime` is its number of seconds.
pub mod Json
use yt_service.Prelude.{ℕ, String, Bool, Option, List}

pub data Source : Type 0 where
  youtube_captions whisper_openai whisper_local : Source

pub record Snippet (N : Type 0) : Type 0 where
  pub start : N
  pub duration : N
  pub text : String
  pub speaker : Option String
  pub deep_link : String

pub record Chapter (N : Type 0) : Type 0 where
  pub start : N
  pub end : N
  pub title : String

pub record CaptionsResult (N : Type 0) : Type 0 where
  pub video_id : String
  pub language : String
  pub is_generated : Bool
  pub snippets : List (Snippet N)
  pub duration_seconds : Option N
  pub full_text : String

pub record WhisperResult (N : Type 0) : Type 0 where
  pub video_id : String
  pub source : Source
  pub language : String
  pub snippets : List (Snippet N)
  pub duration_seconds : N
  pub full_text : String

pub record TranscriptRecord (N : Type 0) : Type 0 where
  pub video_id : String
  pub language : String
  pub source : Source
  pub is_generated : Bool
  pub duration_seconds : Option N
  pub snippet_count : ℕ
  pub cached_at : ℕ
  pub snippets : List (Snippet N)
  pub full_text : String
  pub chapters : Option (List (Chapter N))
  pub has_diarization : Bool

pub record JobPayload : Type 0 where
  pub video_id : String
  pub language : String
  pub force_whisper : Bool
  pub include : List String
  pub callback_url : Option String

pub data Force : Type 0 where
  whisper refresh : Force

pub record TranscriptRequest : Type 0 where
  pub video_id : String
  pub language : String
  pub force : Option Force
  -- Python's `int`: `none` is a negative number
  pub wait_seconds : Option ℕ
  pub include : List String
  pub callback_url : Option String

-- The kind is `channel_handle`, `channel_id` or `playlist`.
pub record ChannelRef : Type 0 where
  pub kind : String
  pub value : String
