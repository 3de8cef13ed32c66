-- ===== src/Llm.antt =====
-- src/app/llm/routing.py, src/app/llm/providers.py and src/app/llm/cost.py: the tables of the LLM
-- tasks. Money is counted in 10^-8 USD, which `compute_cost` never splits.
pub mod Fallback
pub mod Routes
pub mod Spending
pub mod Choosing
use text.Mathlib.Text.{◌==◌}
use yt_service.Prelude.{
  ℕ, ◌+◌, ◌*◌, String, Bool, ◌||◌, Option, none, some, List, [], ◌∷◌, is_empty, split_once,
  if◌then◌else◌,
}

pub record RouteEntry : Type 0 where
  pub primary : String
  pub fallbacks : List String

-- `TASK_ROUTING`
unfoldable pub task_routing : String → Option RouteEntry
task_routing task =
    if task == "chapters"
    then some (record {
      primary = "gemini_direct/gemini-2.5-flash";
      fallbacks = "anthropic_direct/claude-sonnet-4-6" ∷ "openai_direct/gpt-4o-mini" ∷ [];
    })
    else if task == "summarize"
    then some (record {
      primary = "anthropic_direct/claude-sonnet-4-6";
      fallbacks = "openai_direct/gpt-4o" ∷ "llmapi/claude-sonnet-4-6" ∷ [];
    })
    else if task == "summarize_exec_deep"
    then some (record {
      primary = "anthropic_direct/claude-opus-4-7";
      fallbacks = "openai_direct/gpt-4o" ∷ "llmapi/claude-opus-4-7" ∷ [];
    })
    else if task == "topics"
    then some (record {
      primary = "llmapi/gemini-2.5-flash";
      fallbacks = "gemini_direct/gemini-2.5-flash" ∷ "openai_direct/gpt-4o-mini" ∷ [];
    })
    else if task == "sentiment"
    then some (record {
      primary = "gemini_direct/gemini-2.5-flash";
      fallbacks = "llmapi/gemini-2.5-flash" ∷ [];
    })
    else if task == "diff"
    then some (record {
      primary = "anthropic_direct/claude-sonnet-4-6";
      fallbacks = "openai_direct/gpt-4o" ∷ "llmapi/claude-sonnet-4-6" ∷ [];
    })
    else none

-- The error is a `ValueError`.
unfoldable pub split_provider_model : String → Option (String × String)
unfolding split_once
split_provider_model entry = elim (split_once "/" entry) [
  | none ↦ none
  | some (provider, model) ↦
      if is_empty provider || is_empty model then none else some (provider, model)
]

-- `PROVIDERS`: the settings field that holds a provider's key, which is the name of the variable in
-- small letters.
unfoldable pub api_key_field : String → Option String
api_key_field provider =
    if provider == "anthropic_direct"
    then some "anthropic_api_key"
    else if provider == "openai_direct"
    then some "openai_api_key"
    else if provider == "gemini_direct"
    then some "gemini_api_key"
    else if provider == "llmapi"
    then some "llmapi_api_key"
    else none

-- `PRICES_USD_PER_MILLION`, in cents: of a token that is read and of one that is written
unfoldable pub prices : String → Option (ℕ × ℕ)
prices model =
    if model == "claude-opus-4-7"
    then some (1500, 7500)
    else if model == "claude-sonnet-4-6"
    then some (300, 1500)
    else if model == "gpt-4o"
    then some (250, 1000)
    else if model == "gpt-4o-mini"
    then some (15, 60)
    else if model == "whisper-1"
    then some (0, 0)
    else if model == "gemini-2.5-flash"
    then some (30, 250)
    else if model == "gemini-2.5-pro"
    then some (125, 1000)
    else none

-- A cent for a million tokens is 10^-8 USD for each.
unfoldable pub compute_cost : String → ℕ → ℕ → ℕ
unfolding prices
compute_cost model tokens_in tokens_out = elim (prices model) [
  | none ↦ 0
  | some (in_rate, out_rate) ↦ tokens_in * in_rate + tokens_out * out_rate
]
