-- ===== src/Errors/Codes.antt =====
-- The codes tell the declared errors apart.
use text.Mathlib.Text.{◌==◌}
use yt_service.Prelude.{String, Option, none, some, ◌≡◌, refl, ap, if◌then◌else◌}
use yt_service.Errors.{
  Kind, invalid_video_id, invalid_request, invalid_channel, unauthorized, insufficient_scope,
  feature_disabled, video_unavailable, no_audio, not_found, job_in_progress, video_too_long,
  batch_too_large, rate_limited, youtube_blocked, whisper_failed, llm_failed, daily_cost_cap,
  queue_full, internal, other, error_code,
}

-- The kind that a code stands for.
read_code : String → Option Kind
read_code s =
    if s == "invalid_video_id"
    then some invalid_video_id
    else if s == "invalid_request"
    then some invalid_request
    else if s == "invalid_channel"
    then some invalid_channel
    else if s == "unauthorized"
    then some unauthorized
    else if s == "insufficient_scope"
    then some insufficient_scope
    else if s == "feature_disabled"
    then some feature_disabled
    else if s == "video_unavailable"
    then some video_unavailable
    else if s == "no_audio"
    then some no_audio
    else if s == "not_found"
    then some not_found
    else if s == "job_in_progress"
    then some job_in_progress
    else if s == "video_too_long"
    then some video_too_long
    else if s == "batch_too_large"
    then some batch_too_large
    else if s == "rate_limited"
    then some rate_limited
    else if s == "youtube_ip_blocked"
    then some youtube_blocked
    else if s == "whisper_failed"
    then some whisper_failed
    else if s == "llm_failed"
    then some llm_failed
    else if s == "daily_cost_cap"
    then some daily_cost_cap
    else if s == "queue_full"
    then some queue_full
    else if s == "internal_error"
    then some internal
    else none

-- Whether the program declares a class for the error.
abbrev pub IsDeclared : Kind → Type 0
IsDeclared (other name) = ⊥
IsDeclared _ = Unit

read_code-error_code : (k : Kind) → IsDeclared k → read_code (error_code k) ≡ some k
unfolding read_code error_code
read_code-error_code (other name) d = absurd d
read_code-error_code _ d = refl

-- Two declared errors with the same wire code are the same error.
pub error_code-injective :
    (a b : Kind) → IsDeclared a → IsDeclared b → error_code a ≡ error_code b → a ≡ b
error_code-injective a b da db h =
    cc (read_code-error_code a da, read_code-error_code b db, ap read_code h)
