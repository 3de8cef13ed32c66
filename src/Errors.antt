-- ===== src/Errors.antt =====
-- src/app/exceptions.py: the domain errors with their codes and statuses, and the error envelope.
-- The `details` dictionary is modelled only by the `retry_after` that a handler reads from it.
pub mod Codes
use yt_service.Prelude.{ℕ, String, Option, none, some, or_else}

-- The subclasses of `YTServiceError`; `other` is an exception of any other class, by its name.
pub data Kind : Type 0 where
  invalid_video_id invalid_request invalid_channel unauthorized insufficient_scope : Kind
  feature_disabled video_unavailable no_audio not_found job_in_progress video_too_long : Kind
  batch_too_large rate_limited youtube_blocked whisper_failed llm_failed daily_cost_cap : Kind
  queue_full internal : Kind
  other : String → Kind

pub record Error : Type 0 where
  pub kind : Kind
  pub message : String
  pub existing_job_id : String
  pub poll_url : String
  pub retry_after : Option ℕ

-- `other` is answered by the handler for unhandled exceptions, as an internal error.
pub error_code : Kind → String
error_code invalid_video_id = "invalid_video_id"
error_code invalid_request = "invalid_request"
error_code invalid_channel = "invalid_channel"
error_code unauthorized = "unauthorized"
error_code insufficient_scope = "insufficient_scope"
error_code feature_disabled = "feature_disabled"
error_code video_unavailable = "video_unavailable"
error_code no_audio = "no_audio"
error_code not_found = "not_found"
error_code job_in_progress = "job_in_progress"
error_code video_too_long = "video_too_long"
error_code batch_too_large = "batch_too_large"
error_code rate_limited = "rate_limited"
error_code youtube_blocked = "youtube_ip_blocked"
error_code whisper_failed = "whisper_failed"
error_code llm_failed = "llm_failed"
error_code daily_cost_cap = "daily_cost_cap"
error_code queue_full = "queue_full"
error_code internal = "internal_error"
error_code (other name) = "internal_error"

unfoldable pub status_code : Kind → ℕ
status_code invalid_video_id = 400
status_code invalid_request = 400
status_code invalid_channel = 400
status_code unauthorized = 401
status_code insufficient_scope = 403
status_code feature_disabled = 403
status_code video_unavailable = 404
status_code no_audio = 404
status_code not_found = 404
status_code job_in_progress = 409
status_code video_too_long = 413
status_code batch_too_large = 413
status_code rate_limited = 429
status_code youtube_blocked = 502
status_code whisper_failed = 502
status_code llm_failed = 502
status_code daily_cost_cap = 503
status_code queue_full = 503
status_code internal = 500
status_code (other name) = 500

-- `type(exc).__name__`
unfoldable pub class_name : Kind → String
class_name invalid_video_id = "InvalidVideoIdError"
class_name invalid_request = "InvalidRequestError"
class_name invalid_channel = "InvalidChannelError"
class_name unauthorized = "UnauthorizedError"
class_name insufficient_scope = "InsufficientScopeError"
class_name feature_disabled = "FeatureDisabledError"
class_name video_unavailable = "VideoUnavailableError"
class_name no_audio = "NoAudioStreamError"
class_name not_found = "NotFoundError"
class_name job_in_progress = "JobInProgressError"
class_name video_too_long = "VideoTooLongError"
class_name batch_too_large = "BatchTooLargeError"
class_name rate_limited = "RateLimitedError"
class_name youtube_blocked = "YouTubeBlockedError"
class_name whisper_failed = "WhisperFailedError"
class_name llm_failed = "LLMFailedError"
class_name daily_cost_cap = "DailyCostCapExceededError"
class_name queue_full = "QueueFullError"
class_name internal = "InternalError"
class_name (other name) = name

-- `Cls(message)`: an empty message is replaced by the class's code.
unfoldable pub error : Kind → String → Error
unfolding error_code
error k message = record {
  kind = k;
  message = or_else message (error_code k);
  existing_job_id = "";
  poll_url = "";
  retry_after = none;
}

-- `JobInProgressError(existing_job_id, poll_url, message)`
unfoldable pub job_in_progress_error : String → String → String → Error
job_in_progress_error existing url message = record {
  kind = job_in_progress;
  message = or_else (or_else message "job already in progress") "job_in_progress";
  existing_job_id = existing;
  poll_url = url;
  retry_after = none;
}

-- An exception of a class that the program does not declare.
unfoldable pub exception : String → String → Error
exception name text = record {
  kind = other name;
  message = text;
  existing_job_id = "";
  poll_url = "";
  retry_after = none;
}

pub record Envelope : Type 0 where
  pub error_field : String
  pub message : String
  pub job_id : Option String
  pub poll_url : Option String

unfoldable pub to_error_envelope : Error → Envelope
to_error_envelope exc =
    let plain : Envelope = record {
      error_field = error_code exc.kind;
      message = exc.message;
      job_id = none;
      poll_url = none;
    } in
    elim exc.kind [
      | job_in_progress ↦ record plain {
        job_id = some exc.existing_job_id;
        poll_url = some exc.poll_url;
      }
      | _ ↦ plain
    ]
