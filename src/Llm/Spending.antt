-- ===== src/Llm/Spending.antt =====
-- What `execute` of src/app/llm/fallback.py charges, and the cap on it.
use yt_service.Prelude.{
  ℕ, ◌+◌, ◌<◌, ◌≡◌, String, true, Bool-cases, Option, none, some, Option-cases, List, [], ◌∷◌, refl,
  sym, ap, ◌∙◌, inl, inr, arith, not, Outcome, ok, raise, ltb, lt→ltb, find-select-none,
}
use yt_service.Prelude.{◌==◌ as eqb}
use yt_service.Errors.{Error}
use yt_service.Llm.{task_routing, split_provider_model}
use yt_service.Llm.Fallback.{
  LlmResponse, CallLog, CachedCost, Ledger, Call, LlmEnv, spend_of, cached_cost, drop_cost,
  is_fresh, spent_in, known_spend, cost_cap_error, check_daily_cost_cap, Attempt, skipped, failed,
  answered, dispatched, keyed, parsed, dispatch_one, api_key_for, attempt, walk, chain_of, walk_if,
  execute,
}

module _ (env : LlmEnv) where
  -- The sum that is kept for today, if there is one, is that of today's rows.
  pub record IsCurrent (l : Ledger) : Type 0 where
    pub sum :
        (c : CachedCost)
        → cached_cost env.today l.cost_cache ≡ some c
        → c.spent ≡ spend_of env.today l.calls

  abbrev pub today_spend : Ledger → ℕ
  today_spend l = spend_of env.today l.calls

  -- The price of an answer, as the column keeps it: nothing for an error.
  abbrev pub charge : Outcome Error LlmResponse → ℕ
  charge (raise e) = 0
  charge (ok resp) = env.numeric resp.cost_usd

  eqb_refl : (n : ℕ) → eqb n n ≡ true
  eqb_refl n = ground arith

  none-ne_some : (c : CachedCost) → none ≡ some c → ⊥
  none-ne_some c e = cc

  cached-drop : (cs : List CachedCost) → cached_cost env.today (drop_cost env.today cs) ≡ none
  cached-drop cs =
      find-select-none (λ c. not (eqb c.day env.today)) (λ c. eqb c.day env.today) cs
        (λ c h. ground (arith, h))

  known_spend-IsCurrent : (l : Ledger) → IsCurrent l → IsCurrent (known_spend env l).1
  unfolding known_spend
  known_spend-IsCurrent l h =
      elim (Bool-cases (is_fresh env (cached_cost env.today l.cost_cache))) [
        | inl e ↦ rw e h
        | inr e ↦ rw e (record { sum = λ c found. read c found })
      ]
    where
      read :
          (c : CachedCost)
          → cached_cost env.today (
              record { day = env.today; read_at = env.now; spent = spend_of env.today l.calls }
              ∷ drop_cost env.today l.cost_cache)
            ≡ some c
          → c.spent ≡ spend_of env.today l.calls
      read c found = sym (ap (spent_in env) (rw (eqb_refl env.today) at found))

  calls-known_spend : (l : Ledger) → (known_spend env l).1.calls ≡ l.calls
  unfolding known_spend
  calls-known_spend l = elim (Bool-cases (is_fresh env (cached_cost env.today l.cost_cache))) [
    | inl e ↦ rw e refl
    | inr e ↦ rw e refl
  ]

  known_spend-today : (l : Ledger) → IsCurrent l → (known_spend env l).0 ≡ today_spend l
  unfolding known_spend
  known_spend-today l h = elim (Option-cases (cached_cost env.today l.cost_cache)) [
    | inl n ↦ rw n refl
    | inr (c, e) ↦ elim (Bool-cases (is_fresh env (some c))) [
      | inl fresh ↦ rw (e, fresh) (h.sum c e)
      | inr stale ↦ rw (e, stale) refl
    ]
  ]

  -- When today's rows already cost more than the cap, a call is refused with the time to midnight, and
  -- no provider is tried: no row is added. The kept sum must be that of today's rows.
  pub execute_capped :
      (call : Call) (l : Ledger)
      → IsCurrent l
      → env.max_daily_cost < today_spend l
      → ((execute env call l).0 ≡ raise (cost_cap_error env))
        × ((execute env call l).1.calls ≡ l.calls)
  unfolding execute check_daily_cost_cap
  execute_capped call l h over =
      rw (known_spend-today l h, lt→ltb env.max_daily_cost (today_spend l) over)
        (refl, calls-known_spend l)

  -- The row of a failed attempt costs nothing, that of an answer its price.
  abbrev IsBooked : Attempt env → Type 0
  IsBooked skipped = Unit
  IsBooked (failed row) = row.cost_usd ≡ 0
  IsBooked (answered row resp) = (row.day ≡ env.today) × (row.cost_usd ≡ env.numeric resp.cost_usd)

  attempt-IsBooked : (call : Call) (entry : String) → IsBooked (attempt env call entry)
  unfolding attempt
  attempt-IsBooked call entry = parsed-IsBooked (split_provider_model entry)
    where
      dispatched-IsBooked :
          (p m : String) (o : Outcome (String × String) LlmResponse)
          → IsBooked (dispatched env call p m o)
      dispatched-IsBooked p m (raise exc) = env.numeric-zero
      dispatched-IsBooked p m (ok resp) = (refl, refl)

      keyed-IsBooked : (p m : String) (o : Option String) → IsBooked (keyed env call p m o)
      keyed-IsBooked p m none = tt
      keyed-IsBooked p m (some key) = dispatched-IsBooked p m (dispatch_one env p m key call)

      parsed-IsBooked : (o : Option (String × String)) → IsBooked (parsed env call o)
      parsed-IsBooked none = tt
      parsed-IsBooked (some (p, m)) = keyed-IsBooked p m (api_key_for env p)

  -- The new spend is the old with the charge, and the kept sum is still right.
  pub record IsCharged (l : Ledger) (m : Outcome Error LlmResponse × Ledger) : Type 0 where
    pub total : today_spend m.1 ≡ today_spend l + charge m.0
    pub current : IsCurrent m.1

  failed-IsCurrent :
      (l : Ledger) (row : CallLog)
      → row.cost_usd ≡ 0
      → IsCurrent l
      → IsCurrent (record l { calls = row ∷ l.calls })
  unfolding spend_of
  failed-IsCurrent l row free h = record { sum = λ c found. ground (arith, h.sum c found, free) }

  answered-IsCharged :
      (l : Ledger) (row : CallLog) (resp : LlmResponse)
      → (row.day ≡ env.today) × (row.cost_usd ≡ env.numeric resp.cost_usd)
      → IsCharged l
          (ok resp, record { calls = row ∷ l.calls; cost_cache = drop_cost env.today l.cost_cache })
  unfolding spend_of
  answered-IsCharged l row resp (today, price) = record {
    total = rw (today, eqb_refl env.today, price) (omega arith);
    current = record {
      sum = λ c found. absurd (none-ne_some c (sym (cached-drop l.cost_cache) ∙ found));
    };
  }

  walk-IsCharged :
      (call : Call) (chain : List String) (l : Ledger)
      → IsCurrent l
      → IsCharged l (walk env call chain l)
  unfolding walk
  walk-IsCharged call [] l h = record { total = omega arith; current = h }
  walk-IsCharged call (entry ∷ chain) l h =
      attempted (attempt env call entry) refl (attempt-IsBooked call entry)
        (walk-IsCharged call chain)
    where
      attempted :
          (a : Attempt env)
          → attempt env call entry ≡ a
          → IsBooked a
          → ((k : Ledger) → IsCurrent k → IsCharged k (walk env call chain k))
          → IsCharged l (walk env call (entry ∷ chain) l)
      attempted skipped eq booked rest = rw (walk, eq) (rest l h)
      attempted (failed row) eq booked rest =
          let after = rest _ (failed-IsCurrent l row booked h) in
          rw (walk, eq)
            (record {
              total = unfold spend_of in ground (arith, after.total, booked);
              current = after.current;
            })
      attempted (answered row resp) eq booked rest =
          rw (walk, eq) (answered-IsCharged l row resp booked)

  walk_if-IsCharged :
      (call : Call) (o : Option (List String)) (l : Ledger)
      → IsCurrent l
      → IsCharged l (walk_if env call o l)
  walk_if-IsCharged call none l h = record { total = omega arith; current = h }
  walk_if-IsCharged call (some chain) l h = walk-IsCharged call chain l h

  IsCharged-from :
      (k l : Ledger) (m : Outcome Error LlmResponse × Ledger)
      → k.calls ≡ l.calls
      → IsCharged k m
      → IsCharged l m
  IsCharged-from k l m same h = record {
    total = h.total ∙ ap (λ rows. spend_of env.today rows + charge m.0) same;
    current = h.current;
  }

  refused-IsCharged : (k : Ledger) → IsCurrent k → IsCharged k (raise (cost_cap_error env), k)
  refused-IsCharged k h = record { total = omega arith; current = h }

  -- Whatever the providers answer, today's spend after a call is that of before with the price of the
  -- answer, as the column rounds it, and with nothing for an error; and the kept sum is again that of
  -- today's rows, if it was so before.
  pub execute-IsCharged :
      (call : Call) (l : Ledger) → IsCurrent l → IsCharged l (execute env call l)
  unfolding execute check_daily_cost_cap
  execute-IsCharged call l h =
      let k = (known_spend env l).1 in
      let kept = known_spend-IsCurrent l h in
      elim (Bool-cases (ltb env.max_daily_cost (known_spend env l).0)) [
        | inl over ↦ rw over (IsCharged-from k l _ (calls-known_spend l) (refused-IsCharged k kept))
        | inr under ↦ rw under (
            IsCharged-from k l _ (calls-known_spend l) (
              walk_if-IsCharged call (chain_of env call.provider_override (task_routing call.task))
                k kept))
      ]
