-- ===== src/Analysis.antt =====
-- src/app/tasks: what an LLM makes of a transcript that is in the cache. The state is the service's, the
-- ledger of LLM calls, and the tables of the tasks.
pub mod Answers
pub mod Summaries
pub mod Repeats
use yt_service.Prelude.{ℕ, String, Option, none, some, List, Outcome, ok, raise, str_cat, Float}
use yt_service.Errors.{Error, error, exception, not_found}
use yt_service.Domain.{TranscriptRecord}
use yt_service.Domain.Json.{ReadError, Json, key_error, type_error, value_error}
use yt_service.World.{World}
use yt_service.Cache.{get_transcript}
use yt_service.Llm.Fallback.{Ledger, LlmEnv}

pub record KeyTimestamp : Type 0 where
  pub t : ℕ
  pub label : String

-- A row of `summaries`. The JSON of a key timestamp is an object with its two fields.
pub record Summary : Type 0 where
  pub video_id : String
  pub style : String
  pub audience_hash : String
  pub custom_hash : String
  pub summary : String
  pub key_timestamps_jsonb : List KeyTimestamp
  pub provider_used : String
  pub tokens_in : ℕ
  pub tokens_out : ℕ
  pub cost_usd : ℕ
  pub created_at : ℕ
  pub expires_at : ℕ

pub record Desk (N Db : Type 0) : Type 0 where
  pub world : World N Db
  pub ledger : Ledger
  pub summaries : List Summary

-- What `int` makes of a float.
pub data Whole : Type 0 where
  whole : ℕ → Whole
  below_zero infinite not_a_number : Whole

-- The clock, the settings, `json.loads`, `str` of a value that is no text, `int` of a float, the
-- normalisation, lower case and hash of the standard library, the LLM, and the texts of the prompts.
pub record AnalysisEnv (N : Type 0) : Type 0 where
  pub now : ℕ
  pub summary_cache_ttl_days : ℕ
  pub loads : String → Option (Json N)
  pub show : Json N → String
  pub int_of : N → Whole
  pub nfc : String → String
  pub lower : String → String
  pub hexdigest : String → String
  pub llm : LlmEnv
  pub style_prompt : String → String
  pub user_prompt : String → TranscriptRecord N → String

-- A row of the cache that cannot be decoded raises.
abbrev pub undecodable : ReadError → Error
undecodable key_error = exception "KeyError" ""
undecodable type_error = exception "TypeError" ""
undecodable value_error = exception "ValueError" ""
