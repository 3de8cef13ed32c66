-- ===== src/Webhooks/Retries.antt =====
-- The requests of a webhook of src/app/webhooks.py, from an attempt on until none is scheduled.
use yt_service.Prelude.{ℕ, zero, suc, none, some, List, [], ◌∷◌}
use yt_service.World.{Delivery}
use yt_service.Webhooks.{WebhookRequest, WebhookEnv, request_of, next_attempt}

module _ (env : WebhookEnv) where
  -- The worker runs at most so many attempts.
  unfoldable pub sent : ℕ → Delivery → List WebhookRequest
  unfolding next_attempt request_of
  sent zero d = []
  sent (suc n) d =
      request_of env d ∷ elim (next_attempt env d) [ none ↦ [] | some (delay, next) ↦ sent n next ]
