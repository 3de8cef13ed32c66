-- ===== src/Llm/Choosing.antt =====
-- Which provider of its chain `execute` of src/app/llm/fallback.py answers with.
use yt_service.Prelude.{◌≡◌, String, Option, none, some, List, [], ◌∷◌, refl, Outcome, ok, raise}
use yt_service.Errors.{Error, error, llm_failed}
use yt_service.Llm.Fallback.{
  LlmResponse, Ledger, Call, LlmEnv, Attempt, skipped, failed, answered, attempt, walk,
}

module _ (env : LlmEnv) (call : Call) where
  abbrev answer_of : Attempt env → Option LlmResponse
  answer_of (answered row resp) = some resp
  answer_of _ = none

  abbrev else_first : Option LlmResponse → Option LlmResponse → Option LlmResponse
  else_first none rest = rest
  else_first (some resp) rest = some resp

  -- The answer of the first provider of the chain that gives one.
  abbrev pub first_answer : List String → Option LlmResponse
  first_answer [] = none
  first_answer (entry ∷ chain) =
      else_first (answer_of (attempt env call entry)) (first_answer chain)

  abbrev pub outcome_of : Option LlmResponse → Outcome Error LlmResponse
  outcome_of none = raise (error llm_failed "all providers failed or unconfigured")
  outcome_of (some resp) = ok resp

  -- The loop over the chain answers with the first provider that gives an answer, whatever the ledger
  -- holds, and fails only if none does.
  pub walk_first :
      (chain : List String) (l : Ledger)
      → (walk env call chain l).0 ≡ outcome_of (first_answer chain)
  unfolding walk
  walk_first [] l = refl
  walk_first (entry ∷ chain) l = attempted (attempt env call entry) refl (walk_first chain)
    where
      attempted :
          (a : Attempt env)
          → attempt env call entry ≡ a
          → ((k : Ledger) → (walk env call chain k).0 ≡ outcome_of (first_answer chain))
          → (walk env call (entry ∷ chain) l).0 ≡ outcome_of (first_answer (entry ∷ chain))
      attempted skipped eq rest = rw (walk, eq) (rest l)
      attempted (failed row) eq rest = rw (walk, eq) (rest _)
      attempted (answered row resp) eq rest = rw (walk, eq) refl
