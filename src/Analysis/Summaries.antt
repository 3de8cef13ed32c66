-- ===== src/Analysis/Summaries.antt =====
-- src/app/tasks/summarize.py: `summarize`, with the cache of its answers.
use text.Mathlib.Text.{◌==◌}
use yt_service.Prelude.{
  ℕ, ◌+◌, ◌*◌, String, Bool, true, false, ◌&&◌, ◌||◌, Option, none, some, List, [], ◌∷◌, Outcome,
  ok, raise, Float, ltb, find, update, strip, is_empty, or_else, str_cat, if◌then◌else◌,
}
use yt_service.Errors.{Error, error, not_found, invalid_request}
use yt_service.Domain.{TranscriptRecord}
use yt_service.Domain.Json.{ReadError}
use yt_service.World.{World}
use yt_service.Cache.{get_transcript}
use yt_service.Llm.Fallback.{Ledger, LlmResponse, Call, execute}
use yt_service.Analysis.{KeyTimestamp, Summary, Desk, AnalysisEnv, undecodable}
use yt_service.Analysis.Answers.{parse_summary_response}

pub record SummaryResult : Type 0 where
  pub video_id : String
  pub style : String
  pub audience : String
  pub summary : String
  pub key_timestamps : List KeyTimestamp
  pub provider_used : String
  pub tokens_in : ℕ
  pub tokens_out : ℕ
  pub cost_usd : ℕ
  pub cached : Bool

-- The arguments of `summarize`.
pub record Assignment : Type 0 where
  pub video_id : String
  pub style : String
  pub audience : String
  pub custom_prompt : Option String
  pub max_tokens : ℕ
  pub include_timestamps : Bool
  pub provider_override : Option String
  pub language : String
  pub token_id : Option String

abbrev pub text_or_empty : Option String → String
text_or_empty none = ""
text_or_empty (some s) = s

abbrev pub override_marker : Option String → String
override_marker none = ""
override_marker (some p) = if is_empty p then "" else str_cat "::override=" p

abbrev pub is_style : String → Bool
is_style s =
    s == "exec_brief"
    || s == "exec_deep"
    || s == "technical"
    || s == "bulleted"
    || s == "competitive_intel"

abbrev pub timestamps_if : Bool → List KeyTimestamp → List KeyTimestamp
timestamps_if true ts = ts
timestamps_if false ts = []

-- `provider/model`
abbrev pub used : LlmResponse → String
used resp = str_cat resp.provider (str_cat "/" resp.model)

-- The result, and the state after it.
abbrev pub Effect : Type 0 → Type 0 → Type 0
Effect N Db = Outcome Error SummaryResult × Desk N Db

module _ (f : Float) (env : AnalysisEnv f.Num) where
  unfoldable pub sha256 : String → String
  unfolding strip
  sha256 s = env.hexdigest (env.lower (strip (env.nfc s)))

  abbrev pub system_prompt_of : Assignment → Outcome Error String
  system_prompt_of a =
      if a.style == "custom"
      then (if is_empty (text_or_empty a.custom_prompt)
          then raise (error invalid_request "style=custom requires non-empty custom_prompt")
          else ok (text_or_empty a.custom_prompt))
      else if is_style a.style
      then ok (env.style_prompt a.style)
      else raise (error invalid_request (str_cat "unknown style: " a.style))

  abbrev pub audience_hash : Assignment → String
  audience_hash a = sha256 a.audience

  abbrev pub custom_hash : Assignment → String
  custom_hash a =
      sha256 (str_cat (text_or_empty a.custom_prompt) (override_marker a.provider_override))

  abbrev pub is_summary : Assignment → Summary → Bool
  is_summary a s =
      s.video_id == a.video_id
      && s.style == a.style
      && s.audience_hash == audience_hash a
      && s.custom_hash == custom_hash a

  abbrev pub is_unexpired : Summary → Bool
  is_unexpired s = ltb env.now s.expires_at

  unfoldable pub lookup_cached_summary : Assignment → List Summary → Option Summary
  unfolding sha256
  lookup_cached_summary a = find (λ s. is_summary a s && is_unexpired s)

  -- The values of the insert; the column rounds the cost.
  unfoldable pub new_summary : Assignment → String → List KeyTimestamp → LlmResponse → Summary
  unfolding sha256
  new_summary a text ts resp = record {
    video_id = a.video_id;
    style = a.style;
    audience_hash = audience_hash a;
    custom_hash = custom_hash a;
    summary = text;
    key_timestamps_jsonb = ts;
    provider_used = used resp;
    tokens_in = resp.tokens_in;
    tokens_out = resp.tokens_out;
    cost_usd = env.llm.numeric resp.cost_usd;
    created_at = env.now;
    expires_at = env.now + env.summary_cache_ttl_days * 86400;
  }

  -- Every column is the new row's.
  abbrev pub upsert_summary : Option Summary → Assignment → Summary → List Summary → List Summary
  upsert_summary none a row rows = row ∷ rows
  upsert_summary (some _) a row rows = update (is_summary a) (λ s. row) rows

  unfoldable pub persist_summary :
      Assignment → String → List KeyTimestamp → LlmResponse → List Summary → List Summary
  unfolding new_summary
  persist_summary a text ts resp rows =
      upsert_summary (find (is_summary a) rows) a (new_summary a text ts resp) rows

  abbrev pub of_row : Assignment → Summary → SummaryResult
  of_row a s = record {
    video_id = a.video_id;
    style = a.style;
    audience = a.audience;
    summary = s.summary;
    key_timestamps = timestamps_if a.include_timestamps s.key_timestamps_jsonb;
    provider_used = s.provider_used;
    tokens_in = s.tokens_in;
    tokens_out = s.tokens_out;
    cost_usd = s.cost_usd;
    cached = true;
  }

  abbrev pub of_response : Assignment → String → List KeyTimestamp → LlmResponse → SummaryResult
  of_response a text ts resp = record {
    video_id = a.video_id;
    style = a.style;
    audience = a.audience;
    summary = text;
    key_timestamps = timestamps_if a.include_timestamps ts;
    provider_used = used resp;
    tokens_in = resp.tokens_in;
    tokens_out = resp.tokens_out;
    cost_usd = resp.cost_usd;
    cached = false;
  }

  abbrev pub call_for : Assignment → String → TranscriptRecord f.Num → Call
  call_for a system rec = record {
    task = if a.style == "exec_deep" then "summarize_exec_deep" else "summarize";
    system_prompt = system;
    user_prompt = env.user_prompt (or_else a.audience "general technical") rec;
    max_tokens = a.max_tokens;
    timeout_seconds = 60;
    video_id = some a.video_id;
    token_id = a.token_id;
    provider_override = a.provider_override;
  }

  -- With an override the cache is not read.
  abbrev pub cached_for : Assignment → Option String → List Summary → Option Summary
  cached_for a none rows = lookup_cached_summary a rows
  cached_for a (some p) rows = none

  module _ {Db : Type 0} where
    abbrev pub stored :
        Assignment
        → LlmResponse
        → Outcome Error (String × List KeyTimestamp)
        → Desk f.Num Db
        → Effect f.Num Db
    stored a resp (raise e) d = (raise e, d)
    stored a resp (ok (text, ts)) d = (
      ok (of_response a text ts resp),
      record d { summaries = persist_summary a text ts resp d.summaries },
    )

    abbrev pub after_call :
        Assignment → Outcome Error LlmResponse × Ledger → Desk f.Num Db → Effect f.Num Db
    after_call a (raise e, l) d = (raise e, record d { ledger = l })
    after_call a (ok resp, l) d =
        stored a resp (parse_summary_response f env.show env.int_of env.loads resp.text)
          (record d { ledger = l })

    abbrev pub after_transcript :
        Assignment
        → String
        → Outcome ReadError (Option (TranscriptRecord f.Num)) × World f.Num Db
        → Desk f.Num Db
        → Effect f.Num Db
    after_transcript a system (raise e, w) d = (raise (undecodable e), record d { world = w })
    after_transcript a system (ok none, w) d = (
      raise (
          error not_found (
            str_cat "transcript not cached for video_id=" (
              str_cat a.video_id
                (str_cat " lang=" (str_cat a.language "; fetch /v1/transcript first"))))),
      record d { world = w },
    )
    after_transcript a system (ok (some rec), w) d =
        after_call a (execute env.llm (call_for a system rec) d.ledger) (record d { world = w })

    unfoldable pub compute_summary : Assignment → String → Desk f.Num Db → Effect f.Num Db
    unfolding persist_summary parse_summary_response execute get_transcript error
    compute_summary a system d =
        after_transcript a system (get_transcript f env.now a.video_id a.language d.world) d

    abbrev pub if_cached : Assignment → String → Option Summary → Desk f.Num Db → Effect f.Num Db
    if_cached a system (some row) d = (ok (of_row a row), d)
    if_cached a system none d = compute_summary a system d

    abbrev pub with_prompt : Assignment → Outcome Error String → Desk f.Num Db → Effect f.Num Db
    with_prompt a (raise e) d = (raise e, d)
    with_prompt a (ok system) d =
        if_cached a system (cached_for a a.provider_override d.summaries) d

    unfoldable pub summarize : Assignment → Desk f.Num Db → Effect f.Num Db
    unfolding compute_summary lookup_cached_summary error
    summarize a d = with_prompt a (system_prompt_of a) d
