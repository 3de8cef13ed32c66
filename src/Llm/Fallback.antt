-- ===== src/Llm/Fallback.antt =====
-- src/app/llm/fallback.py: `execute`, with the cap on the day's cost and the call log. A call stays
-- within one UTC day; the monotonic clock is in milliseconds.
use text.Mathlib.Text.{◌==◌}
use yt_service.Prelude.{
  ℕ, ◌+◌, ◌-◌, ◌≡◌, String, Bool, false, Option, none, some, List, [], ◌∷◌, not, Outcome, ok, raise,
  ltb, select, find, is_empty, str_cat, if◌then◌else◌,
}
use yt_service.Prelude.{◌==◌ as eqb}
use yt_service.Errors.{Error, error, llm_failed, daily_cost_cap}
use yt_service.Llm.{RouteEntry, task_routing, split_provider_model, api_key_field}

pub record LlmResponse : Type 0 where
  pub text : String
  pub tokens_in : ℕ
  pub tokens_out : ℕ
  pub cost_usd : ℕ
  pub provider : String
  pub model : String
  pub latency_ms : ℕ

-- A row of `llm_call_log`; `day` is the UTC date of its `ts`.
pub record CallLog : Type 0 where
  pub day : ℕ
  pub task : String
  pub provider : String
  pub model : String
  pub status : String
  pub latency_ms : ℕ
  pub tokens_in : Option ℕ
  pub tokens_out : Option ℕ
  pub cost_usd : ℕ
  pub video_id : Option String
  pub token_id : Option String
  pub error : Option String

-- An entry of `_cost_cache`: the time when it was read, and the sum.
pub record CachedCost : Type 0 where
  pub day : ℕ
  pub read_at : ℕ
  pub spent : ℕ

pub record Ledger : Type 0 where
  pub calls : List CallLog
  pub cost_cache : List CachedCost

-- The arguments of a call.
pub record Call : Type 0 where
  pub task : String
  pub system_prompt : String
  pub user_prompt : String
  pub max_tokens : ℕ
  pub timeout_seconds : ℕ
  pub video_id : Option String
  pub token_id : Option String
  pub provider_override : Option String

-- A client raises an exception with its class's name and its text.
abbrev pub Client : Type 0
Client = String → String → Call → Outcome (String × String) LlmResponse

-- The settings, the clocks, the clients of the providers by model, key and call, the latency that is
-- measured of a call that fails, and the rounding of the column `NUMERIC(10, 6)`.
pub record LlmEnv : Type 0 where
  pub today : ℕ
  pub now : ℕ
  pub seconds_to_midnight : ℕ
  pub max_daily_cost : ℕ
  pub setting : String → Option String
  pub anthropic : Client
  pub openai : Client
  pub gemini : Client
  pub llmapi : Client
  pub failed_latency : String → String → ℕ
  pub numeric : ℕ → ℕ
  pub numeric-zero : numeric 0 ≡ 0

abbrev pub cost_cache_ttl_ms : ℕ
cost_cache_ttl_ms = 60000

-- `SUM(cost_usd)` over the rows of the day
unfoldable pub spend_of : ℕ → List CallLog → ℕ
spend_of day [] = 0
spend_of day (row ∷ rows) = (if eqb row.day day then row.cost_usd else 0) + spend_of day rows

abbrev pub cached_cost : ℕ → List CachedCost → Option CachedCost
cached_cost day = find (λ c. eqb c.day day)

-- `_cost_cache.pop(day, None)`
abbrev pub drop_cost : ℕ → List CachedCost → List CachedCost
drop_cost day = select (λ c. not (eqb c.day day))

module _ (env : LlmEnv) where
  abbrev pub key_of_field : Option String → Option String
  key_of_field none = none
  key_of_field (some value) = if is_empty value then none else some value

  abbrev pub field_value : Option String → Option String
  field_value none = none
  field_value (some field) = env.setting field

  unfoldable pub api_key_for : String → Option String
  unfolding api_key_field
  api_key_for provider = key_of_field (field_value (api_key_field provider))

  abbrev pub is_fresh : Option CachedCost → Bool
  is_fresh none = false
  is_fresh (some c) = ltb (env.now - c.read_at) cost_cache_ttl_ms

  abbrev pub spent_in : Option CachedCost → ℕ
  spent_in none = 0
  spent_in (some c) = c.spent

  -- The sum that the check goes by, and the ledger after it was read.
  unfoldable pub known_spend : Ledger → ℕ × Ledger
  unfolding spend_of
  known_spend l =
      let cached = cached_cost env.today l.cost_cache in
      let spent = spend_of env.today l.calls in
      let entry : CachedCost = record { day = env.today; read_at = env.now; spent = spent } in
      if is_fresh cached
      then (spent_in cached, l)
      else (spent, record l { cost_cache = entry ∷ drop_cost env.today l.cost_cache })

  abbrev pub cost_cap_error : Error
  cost_cap_error = record (error daily_cost_cap "daily LLM cost cap reached") {
    retry_after = some env.seconds_to_midnight;
  }

  unfoldable pub check_daily_cost_cap : Ledger → Outcome Error (Unit {0}) × Ledger
  unfolding known_spend error
  check_daily_cost_cap l =
      let known = known_spend l in
      if ltb env.max_daily_cost known.0 then (raise cost_cap_error, known.1) else (ok tt, known.1)

  unfoldable pub dispatch_one :
      String → String → String → Call → Outcome (String × String) LlmResponse
  dispatch_one provider model api_key call =
      if provider == "anthropic_direct"
      then env.anthropic model api_key call
      else if provider == "openai_direct"
      then env.openai model api_key call
      else if provider == "gemini_direct"
      then env.gemini model api_key call
      else if provider == "llmapi"
      then env.llmapi model api_key call
      else raise ("LLMFailedError", str_cat "unknown provider: " provider)

  abbrev pub error_row : Call → String → String → String × String → CallLog
  error_row call provider model exc = record {
    day = env.today;
    task = call.task;
    provider = provider;
    model = model;
    status = "error";
    latency_ms = env.failed_latency provider model;
    tokens_in = none;
    tokens_out = none;
    cost_usd = env.numeric 0;
    video_id = call.video_id;
    token_id = call.token_id;
    error = some (str_cat exc.0 (str_cat ": " exc.1));
  }

  abbrev pub ok_row : Call → String → String → LlmResponse → CallLog
  ok_row call provider model resp = record {
    day = env.today;
    task = call.task;
    provider = provider;
    model = model;
    status = "ok";
    latency_ms = resp.latency_ms;
    tokens_in = some resp.tokens_in;
    tokens_out = some resp.tokens_out;
    cost_usd = env.numeric resp.cost_usd;
    video_id = call.video_id;
    token_id = call.token_id;
    error = none;
  }

  -- What an entry of the chain comes to: it is skipped, it fails with a row, or it answers with one.
  pub data Attempt : Type 0 where
    skipped : Attempt
    failed : CallLog → Attempt
    answered : CallLog → LlmResponse → Attempt

  abbrev pub dispatched : Call → String → String → Outcome (String × String) LlmResponse → Attempt
  dispatched call provider model (raise exc) = failed (error_row call provider model exc)
  dispatched call provider model (ok resp) = answered (ok_row call provider model resp) resp

  abbrev pub keyed : Call → String → String → Option String → Attempt
  keyed call provider model none = skipped
  keyed call provider model (some api_key) =
      dispatched call provider model (dispatch_one provider model api_key call)

  abbrev pub parsed : Call → Option (String × String) → Attempt
  parsed call none = skipped
  parsed call (some (provider, model)) = keyed call provider model (api_key_for provider)

  -- One turn of the loop over the chain.
  unfoldable pub attempt : Call → String → Attempt
  unfolding split_provider_model api_key_for dispatch_one
  attempt call entry = parsed call (split_provider_model entry)

  unfoldable pub walk : Call → List String → Ledger → Outcome Error LlmResponse × Ledger
  unfolding attempt error
  walk call [] l = (raise (error llm_failed "all providers failed or unconfigured"), l)
  walk call (entry ∷ chain) l = elim (attempt call entry) [
    | skipped ↦ walk call chain l
    | failed row ↦ walk call chain (record l { calls = row ∷ l.calls })
    | answered row resp ↦
        (ok resp, record { calls = row ∷ l.calls; cost_cache = drop_cost env.today l.cost_cache })
  ]

  abbrev pub chain_of : Option String → Option RouteEntry → Option (List String)
  chain_of (some entry) route = some (entry ∷ [])
  chain_of none none = none
  chain_of none (some route) = some (route.primary ∷ route.fallbacks)

  abbrev pub walk_if : Call → Option (List String) → Ledger → Outcome Error LlmResponse × Ledger
  walk_if call none l =
      (raise (error llm_failed (str_cat "no routing defined for task: " call.task)), l)
  walk_if call (some chain) l = walk call chain l

  abbrev pub if_allowed :
      Call → Outcome Error (Unit {0}) × Ledger → Outcome Error LlmResponse × Ledger
  if_allowed call (raise e, l) = (raise e, l)
  if_allowed call (ok u, l) =
      walk_if call (chain_of call.provider_override (task_routing call.task)) l

  unfoldable pub execute : Call → Ledger → Outcome Error LlmResponse × Ledger
  unfolding walk check_daily_cost_cap task_routing
  execute call l = if_allowed call (check_daily_cost_cap l)
