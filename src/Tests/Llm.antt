-- ===== src/Tests/Llm.antt =====
-- The theorems on src/app/llm at concrete inputs.
use yt_service.Prelude.{◌<◌, ◌≡◌, String, none, some, List, [], ◌∷◌, refl, arith, ok, raise}
use yt_service.Llm.{split_provider_model}
use yt_service.Llm.Fallback.{
  LlmResponse, CallLog, CachedCost, Ledger, Call, LlmEnv, cost_cap_error, spend_of, walk, execute,
}
use yt_service.Llm.Spending.{IsCurrent, IsCharged, today_spend, execute_capped, execute-IsCharged}
use yt_service.Llm.Choosing.{first_answer, outcome_of, walk_first}

abbrev answer : LlmResponse
answer = record {
  text = "{}";
  tokens_in = 10;
  tokens_out = 20;
  cost_usd = 5300;
  provider = "openai_direct";
  model = "gpt-4o-mini";
  latency_ms = 5;
}

-- Only OpenAI answers.
abbrev pub env : LlmEnv
env = record {
  today = 7;
  now = 100;
  seconds_to_midnight = 60;
  max_daily_cost = 1000;
  setting = λ field. some "key";
  anthropic = λ m k c. raise ("APIError", "overloaded");
  openai = λ m k c. ok answer;
  gemini = λ m k c. raise ("APIError", "quota");
  llmapi = λ m k c. raise ("APIError", "down");
  failed_latency = λ p m. 3;
  numeric = λ n. n;
  numeric-zero = refl;
}

abbrev call : Call
call = record {
  task = "chapters";
  system_prompt = "";
  user_prompt = "";
  max_tokens = 1024;
  timeout_seconds = 60;
  video_id = some "v1";
  token_id = none;
  provider_override = none;
}

abbrev pub nothing : Ledger
nothing = record { calls = []; cost_cache = [] }

abbrev dear_row : CallLog
dear_row = record {
  day = 7;
  task = "diff";
  provider = "openai_direct";
  model = "gpt-4o";
  status = "ok";
  latency_ms = 5;
  tokens_in = some 10;
  tokens_out = some 20;
  cost_usd = 5300;
  video_id = none;
  token_id = none;
  error = none;
}

abbrev spent : Ledger
spent = record { calls = dear_row ∷ []; cost_cache = [] }

none-ne_some : (c : CachedCost) → none ≡ some c → ⊥
none-ne_some c e = cc

nothing-IsCurrent : IsCurrent env nothing
nothing-IsCurrent = record { sum = λ c e. absurd (none-ne_some c e) }

spent-IsCurrent : IsCurrent env spent
spent-IsCurrent = record { sum = λ c e. absurd (none-ne_some c e) }

over : 1000 < today_spend env spent
unfolding spend_of
over = omega arith

execute_capped_example :
    ((execute env call spent).0 ≡ raise (cost_cap_error env))
    × ((execute env call spent).1.calls ≡ dear_row ∷ [])
execute_capped_example = execute_capped env call spent spent-IsCurrent over

execute-IsCharged_example : IsCharged env nothing (execute env call nothing)
execute-IsCharged_example = execute-IsCharged env call nothing nothing-IsCurrent

abbrev chain : List String
chain = "gemini_direct/gemini-2.5-flash" ∷ "openai_direct/gpt-4o-mini" ∷ []

walk_first_example :
    (walk env call chain nothing).0 ≡ outcome_of env call (first_answer env call chain)
walk_first_example = walk_first env call chain nothing

splits : split_provider_model "llmapi/m" ≡ some ("llmapi", "m")
unfolding split_provider_model
splits = refl
