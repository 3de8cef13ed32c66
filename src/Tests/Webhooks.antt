-- ===== src/Tests/Webhooks.antt =====
-- The theorems on src/app/webhooks.py at concrete inputs.
use yt_service.Prelude.{◌+◌, ◌-◌, ◌≤◌, ◌≡◌, none, refl, arith, All, length}
use yt_service.Domain.{whisper_local}
use yt_service.World.{Delivery}
use yt_service.Webhooks.{WebhookEnv}
use yt_service.Webhooks.Retries.{sent}
use yt_service.Webhooks.Bounds.{IsSigned, length-sent_le, length-sent_failing, sent-IsSigned}

-- A receiver that never answers.
abbrev silent : WebhookEnv
silent = record {
  webhook_max_attempts = 4;
  serialize_body = λ p. "{}";
  hmac_sha256 = λ key body. "00ff";
  post = λ q. none;
}

abbrev delivery : Delivery
delivery = record {
  callback_url = "https://example.org/hook";
  event = "transcript.complete";
  job_id = "job-1";
  video_id = "v1";
  status = "complete";
  source = whisper_local;
  poll_url = "/v1/jobs/job-1";
  secret = "secret";
  attempt = 1;
}

length-sent_le_example :
    (length (sent silent 3 delivery) ≤ 1 + (4 - 1))
    × (4 ≤ 3 + 1 → sent silent 5 delivery ≡ sent silent 4 delivery)
length-sent_le_example = length-sent_le silent 3 1 delivery

length-sent_failing_example : length (sent silent 4 delivery) ≡ 1 + (4 - 1)
length-sent_failing_example = length-sent_failing silent 3 delivery (λ q. refl) (omega arith)

sent-IsSigned_example : All (IsSigned silent delivery) (sent silent 4 delivery)
sent-IsSigned_example = sent-IsSigned silent 4 delivery
