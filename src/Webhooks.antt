-- ===== src/Webhooks.antt =====
-- src/app/webhooks.py: one delivery attempt and the retry that it schedules. `json.dumps` with sorted
-- keys, HMAC-SHA256 and the HTTP client are parameters; the payload is that of a completed job.
pub mod Retries
pub mod Bounds
use yt_service.Prelude.{
  ℕ, zero, suc, ◌+◌, String, Bool, true, false, Option, none, some, List, [], ◌∷◌, ◌++◌, ◌&&◌, ◌||◌,
  ltb, leb, ◌==◌, if◌then◌else◌, str_cat,
}
use yt_service.Domain.{Source}
use yt_service.World.{World, Delivery, Task, deliver_in}

-- The payload of a completed job.
pub record Payload : Type 0 where
  pub job_id : String
  pub video_id : String
  pub status : String
  pub source : Source
  pub poll_url : String

abbrev pub payload_of : Delivery → Payload
payload_of d = record {
  job_id = d.job_id;
  video_id = d.video_id;
  status = d.status;
  source = d.source;
  poll_url = d.poll_url;
}

-- The request with its `X-YT-` headers.
pub record WebhookRequest : Type 0 where
  pub url : String
  pub content : String
  pub signature : String
  pub event : String
  pub job_id : String
  pub video_id : String
  pub attempt : ℕ

-- `post` is the status of the response; `none` is a timeout, a transport error or another `HTTPError`.
pub record WebhookEnv : Type 0 where
  pub webhook_max_attempts : ℕ
  pub serialize_body : Payload → String
  pub hmac_sha256 : String → String → String
  pub post : WebhookRequest → Option ℕ

-- `_RETRY_DELAYS_SECONDS`: an attempt beyond the table waits as the last one of it
unfoldable pub retry_delay : ℕ → ℕ
retry_delay attempt = if attempt == 1 then 10 else if attempt == 2 then 60 else 300

abbrev pub is_retryable_status : ℕ → Bool
is_retryable_status status_code = leb 500 status_code && ltb status_code 600

abbrev pub is_delivered : ℕ → Bool
is_delivered status_code = leb 200 status_code && ltb status_code 400

module _ (env : WebhookEnv) where
  unfoldable pub sign_payload : String → String → String
  sign_payload secret body = str_cat "sha256=" (env.hmac_sha256 secret body)

  unfoldable pub request_of : Delivery → WebhookRequest
  unfolding sign_payload
  request_of d =
      let body = env.serialize_body (payload_of d) in
      record {
        url = d.callback_url;
        content = body;
        signature = sign_payload d.secret body;
        event = d.event;
        job_id = d.job_id;
        video_id = d.video_id;
        attempt = d.attempt;
      }

  -- `_maybe_retry`: the delay and the arguments of the next attempt
  unfoldable pub maybe_retry : Delivery → Option (ℕ × Delivery)
  unfolding retry_delay
  maybe_retry d =
      if leb env.webhook_max_attempts d.attempt
      then none
      else some (retry_delay d.attempt, record d { attempt = d.attempt + 1 })

  abbrev pub after_status : Option ℕ → Delivery → Option (ℕ × Delivery)
  after_status none d = maybe_retry d
  after_status (some status_code) d =
      if is_delivered status_code
      then none
      else if is_retryable_status status_code
      then maybe_retry d
      else none

  -- What the attempt schedules.
  unfoldable pub next_attempt : Delivery → Option (ℕ × Delivery)
  unfolding maybe_retry request_of
  next_attempt d = after_status (env.post (request_of d)) d

  abbrev pub schedule : Option (ℕ × Delivery) → List Task
  schedule none = []
  schedule (some (delay, d)) = deliver_in "default" delay d ∷ []

  unfoldable pub deliver_webhook_task : {N Db : Type 0} → Delivery → World N Db → World N Db
  unfolding next_attempt
  deliver_webhook_task d w = record w { tasks = w.tasks ++ schedule (next_attempt d) }
