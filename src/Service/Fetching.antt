-- ===== src/Service/Fetching.antt =====
-- src/app/transcript_service.py: `get_or_fetch`.
use yt_service.Prelude.{
  ℕ, zero, suc, String, Bool, true, false, Option, none, some, Outcome, ok, raise, is_empty, min,
  str_cat, Float, if◌then◌else◌,
}
use yt_service.Errors.{Kind, Error, error, invalid_request, job_in_progress, video_too_long}
use yt_service.Domain.{
  CaptionsResult, TranscriptRecord, TranscriptRequest, Force, whisper, refresh, JobPayload,
}
use yt_service.Domain.Json.{Json, Dict, num, bool, get, ReadError}
use yt_service.World.{Redis, World, Job}
use yt_service.Jobs.Enqueuing.{enqueue_whisper}
use yt_service.Cache.{get_transcript, put_transcript, purge_transcript}
use yt_service.Service.{
  Reply, transcript, job_accepted, ServiceEnv, record_to_response, captions_to_record,
  job_accepted_response, max_wait_seconds, undecodable,
}
use yt_service.Service.Waiting.{wait_for_job_completion}

-- `none` is the error of a negative number
abbrev pub clamp_wait_seconds : Option ℕ → Outcome Error ℕ
clamp_wait_seconds none = raise (error invalid_request "wait_seconds must be non-negative")
clamp_wait_seconds (some n) = ok (min n max_wait_seconds)

abbrev pub forces_whisper : Option Force → Bool
forces_whisper (some whisper) = true
forces_whisper _ = false

abbrev pub forces_refresh : Option Force → Bool
forces_refresh (some refresh) = true
forces_refresh _ = false

module _ (f : Float) where
  -- `isinstance(dur, (int, float))`, which holds of a bool too
  abbrev pub as_number : Option (Json f.Num) → Option f.Num
  as_number (some (num x)) = some x
  as_number (some (bool true)) = some (f.lit 100)
  as_number (some (bool false)) = some (f.lit 0)
  as_number _ = none

  -- A probe that raises counts as no metadata.
  abbrev pub duration_of : Outcome Error (Option (Dict f.Num)) → Option f.Num
  duration_of (ok (some metadata)) = as_number (get "duration" metadata)
  duration_of _ = none

  abbrev pub over_limit : Option f.Num → f.Num → Bool
  over_limit none limit = false
  over_limit (some dur) limit = f.lt limit dur

  abbrev pub too_long_error : Option f.Num → f.Num → Error
  too_long_error none limit = error video_too_long ""
  too_long_error (some dur) limit = error video_too_long (
      str_cat "video duration "
        (str_cat (f.int_text dur) (str_cat "s exceeds limit " (str_cat (f.int_text limit) "s"))))

  abbrev pub payload_of : TranscriptRequest → JobPayload
  payload_of request = record {
    video_id = request.video_id;
    language = request.language;
    force_whisper = forces_whisper request.force;
    include = request.include;
    callback_url = request.callback_url;
  }

  module _ (r : Redis) (env : ServiceEnv f.Num (World f.Num r.Db)) where
    abbrev pub Answer : Type 0
    Answer = Outcome Error (Reply f.Num) × World f.Num r.Db

    abbrev pub after_wait :
        String → String → Outcome Error (Option (Reply f.Num)) × World f.Num r.Db → Answer
    after_wait job_id video_id (raise e, w) = (raise e, w)
    after_wait job_id video_id (ok (some reply), w) = (ok reply, w)
    after_wait job_id video_id (ok none, w) =
        (ok (job_accepted (job_accepted_response job_id video_id "queued")), w)

    abbrev pub wait_if : ℕ → TranscriptRequest → String → World f.Num r.Db → Answer
    wait_if zero request job_id w =
        (ok (job_accepted (job_accepted_response job_id request.video_id "queued")), w)
    wait_if (suc n) request job_id w =
        after_wait job_id request.video_id
          (wait_for_job_completion f env request.video_id request.language job_id (suc n) w)

    -- A duplicate is answered with the job that exists, if the error names one.
    abbrev pub duplicate : TranscriptRequest → Error → World f.Num r.Db → Answer
    duplicate request exc w = if is_empty exc.existing_job_id then (raise exc, w) else (
      ok (job_accepted (job_accepted_response exc.existing_job_id request.video_id "running")),
      w,
    )

    abbrev pub refused : Kind → TranscriptRequest → Error → World f.Num r.Db → Answer
    refused job_in_progress request exc w = duplicate request exc w
    refused _ request exc w = (raise exc, w)

    unfoldable pub after_enqueue :
        ℕ → TranscriptRequest → Outcome Error Job × World f.Num r.Db → Answer
    unfolding wait_for_job_completion job_accepted_response
    after_enqueue wait_seconds request (ok job, w) = wait_if wait_seconds request job.job_id w
    after_enqueue wait_seconds request (raise exc, w) = refused exc.kind request exc w

    abbrev pub run_hook :
        Option (World f.Num r.Db → Outcome Error (Unit {0}) × World f.Num r.Db)
        → World f.Num r.Db
        → Outcome Error (Unit {0}) × World f.Num r.Db
    run_hook none w = (ok tt, w)
    run_hook (some hook) w = hook w

    abbrev pub after_hook :
        ℕ → TranscriptRequest → String → Outcome Error (Unit {0}) × World f.Num r.Db → Answer
    after_hook wait_seconds request token_id (raise e, w) = (raise e, w)
    after_hook wait_seconds request token_id (ok u, w) =
        after_enqueue wait_seconds request
          (enqueue_whisper r env.contention (payload_of request) token_id w)

    -- No row and no captions, or both were bypassed.
    unfoldable pub fetch_by_whisper : ℕ → TranscriptRequest → String → World f.Num r.Db → Answer
    unfolding after_enqueue enqueue_whisper
    fetch_by_whisper wait_seconds request token_id w =
        let duration = duration_of (env.fetch_video_metadata request.video_id) in
        if over_limit duration env.max_video_duration_seconds
        then (raise (too_long_error duration env.max_video_duration_seconds), w)
        else after_hook wait_seconds request token_id (run_hook env.whisper_rate_limit_hook w)

    unfoldable pub after_captions :
        ℕ
        → TranscriptRequest
        → String
        → Outcome Error (Option (CaptionsResult f.Num))
        → World f.Num r.Db
        → Answer
    unfolding fetch_by_whisper captions_to_record put_transcript record_to_response
    after_captions wait_seconds request token_id (raise e) w = (raise e, w)
    after_captions wait_seconds request token_id (ok none) w =
        fetch_by_whisper wait_seconds request token_id w
    after_captions wait_seconds request token_id (ok (some captions)) w =
        let rec = captions_to_record f env.now captions request.video_id in
        (
          ok (transcript (record_to_response rec false)),
          put_transcript env.now env.cache_ttl_days rec (some env.cache_ttl_days) w,
        )

    unfoldable pub after_cache :
        ℕ
        → TranscriptRequest
        → String
        → Outcome ReadError (Option (TranscriptRecord f.Num)) × World f.Num r.Db
        → Answer
    unfolding after_captions
    after_cache wait_seconds request token_id (raise e, w) = (raise (undecodable e), w)
    after_cache wait_seconds request token_id (ok (some cached), w) =
        (ok (transcript (record_to_response cached true)), w)
    after_cache wait_seconds request token_id (ok none, w) =
        after_captions wait_seconds request token_id
          (env.fetch_captions request.video_id request.language) w

    -- `if force == "refresh"`
    abbrev pub purged : TranscriptRequest → World f.Num r.Db → World f.Num r.Db
    purged request w =
        if forces_refresh request.force then (purge_transcript request.video_id w).1 else w

    unfoldable pub resolve : ℕ → TranscriptRequest → String → World f.Num r.Db → Answer
    unfolding after_cache purge_transcript get_transcript
    resolve wait_seconds request token_id w =
        let w1 = purged request w in
        if forces_whisper request.force
        then fetch_by_whisper wait_seconds request token_id w1
        else after_cache wait_seconds request token_id
            (get_transcript f env.now request.video_id request.language w1)

    unfoldable pub get_or_fetch : TranscriptRequest → String → World f.Num r.Db → Answer
    unfolding resolve error
    get_or_fetch request token_id w = elim (clamp_wait_seconds request.wait_seconds) [
      | raise e ↦ (raise e, w)
      | ok wait_seconds ↦ resolve wait_seconds request token_id w
    ]
