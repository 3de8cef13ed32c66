-- ===== src/Tests/Analysis.antt =====
-- The theorem on src/app/tasks/summarize.py at a concrete request.
use yt_service.Prelude.{
  ℕ, ◌+◌, ◌*◌, ◌<◌, String, true, false, Option, none, [], ◌∷◌, ◌≡◌, refl, arith, ok, strip,
  split_once, drop_prefix, drop_suffix,
}
use yt_service.Cache.{new_row, get_transcript}
use yt_service.Llm.{api_key_field, task_routing}
use yt_service.Llm.Fallback.{execute, attempt, spend_of}
use yt_service.Cache.Codec.{
  map_read, dict_to_snippet, snippet_to_dict, read_chapters, row_to_record,
}
use yt_service.Chapters.Parsing.{clean}
use yt_service.Analysis.Answers.{parse_summary_response}
use yt_service.Analysis.{Desk, AnalysisEnv, whole}
use yt_service.Analysis.Summaries.{Assignment, SummaryResult, lookup_cached_summary, summarize}
use yt_service.Analysis.Repeats.{summarize-summarize}
use yt_service.Tests.Fixtures.{hundredths, empty, transcript_record}
use yt_service.Tests.Llm.{env, nothing}

abbrev analysis_env : AnalysisEnv ℕ
analysis_env = record {
  now = 20;
  summary_cache_ttl_days = 1;
  loads = λ s. none;
  show = λ v. "";
  int_of = λ x. whole x;
  nfc = λ s. s;
  lower = λ s. s;
  hexdigest = λ s. s;
  llm = env;
  style_prompt = λ s. s;
  user_prompt = λ s rec. rec.full_text;
}

abbrev assignment : Assignment
assignment = record {
  video_id = "v1";
  style = "technical";
  audience = "";
  custom_prompt = none;
  max_tokens = 100;
  include_timestamps = true;
  provider_override = none;
  language = "en";
  token_id = none;
}

abbrev desk : Desk ℕ (String → Option String)
desk = record {
  world = record empty { transcripts = new_row 10 1 transcript_record ∷ [] };
  ledger = nothing;
  summaries = [];
}

abbrev result : SummaryResult
result = record {
  video_id = "v1";
  style = "technical";
  audience = "";
  summary = "{}";
  key_timestamps = [];
  provider_used = "openai_direct/gpt-4o-mini";
  tokens_in = 10;
  tokens_out = 20;
  cost_usd = 5300;
  cached = false;
}

outcome : (summarize hundredths analysis_env assignment desk).0 ≡ ok result
unfolding summarize get_transcript new_row row_to_record map_read dict_to_snippet snippet_to_dict
    read_chapters execute attempt api_key_field split_once clean strip drop_prefix drop_suffix
    lookup_cached_summary parse_summary_response spend_of task_routing
outcome = refl

soon : 30 < 20 + 1 * 86400
soon = omega arith

summarize-summarize_example :
    summarize hundredths
      (record analysis_env { now = 30 })
      assignment
      (summarize hundredths analysis_env assignment desk).1
    ≡ (
      ok (record result { cached = true; cost_usd = 5300 }),
      (summarize hundredths analysis_env assignment desk).1,
    )
summarize-summarize_example =
    summarize-summarize hundredths analysis_env assignment 30 soon refl desk result outcome refl
