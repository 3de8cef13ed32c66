-- ===== src/Worker/Whisper.antt =====
-- src/app/worker.py: `run_whisper_job`. What the audio download, the transcription and RQ answer is in
-- `WhisperEnv`; a commit follows each write, and the metrics of the run are not modelled.
use yt_service.Prelude.{
  ℕ, String, true, false, Option, none, some, [], ◌∷◌, ◌++◌, length, Outcome, ok, raise, str_cat,
  is_empty, or_else, Float, if◌then◌else◌,
}
use yt_service.Errors.{Error, other}
use yt_service.Domain.{WhisperResult, TranscriptRecord, JobPayload}
use yt_service.World.{Redis, World, Job, Delivery, deliver}
use yt_service.Jobs.Ledger.{get_job, mark_running, mark_complete, mark_failed, poll_url_for}
use yt_service.Jobs.Locks.{release_lock}
use yt_service.Cache.{put_transcript}
use yt_service.DeepLinks.{with_deep_links}

pub record WhisperEnv (N W : Type 0) : Type 0 where
  pub now : ℕ
  pub cache_ttl_days : ℕ
  -- the path of the audio file, by video
  pub download_audio : String → Outcome Error String
  -- by path and video
  pub transcribe : String → String → Outcome Error (WhisperResult N)
  -- the token's row and its `webhook_secret`
  pub token_secret : String → Option (Option String)
  -- what RQ raises when the webhook is put on its queue
  pub webhook_refusal : Option Error
  -- what others do during the download, and during the transcription
  pub downloading : W → W
  pub transcribing : W → W

-- How a run leaves the world, and the audio file that it removes.
pub record Run (W : Type 0) : Type 0 where
  pub world : W
  pub removed : Option String

-- `payload.get("language", "en")` of `dict(job.payload_jsonb or {})`
abbrev pub payload_language : Option JobPayload → String
payload_language none = "en"
payload_language (some p) = p.language

-- The message that a failed run records: domain errors carry their own.
unfoldable pub failure_message : Error → String
failure_message e = elim e.kind [ other name ↦ str_cat "unexpected: " e.message | _ ↦ e.message ]

-- `(token.webhook_secret if token and token.webhook_secret else "") or ""`
abbrev pub secret_of : Option (Option String) → String
secret_of (some (some s)) = s
secret_of _ = ""

module _ (f : Float) where
  unfoldable pub whisper_record : ℕ → Job → WhisperResult f.Num → TranscriptRecord f.Num
  unfolding with_deep_links
  whisper_record now job result =
      let snippets = with_deep_links f result.snippets job.video_id in
      record {
        video_id = job.video_id;
        language = or_else result.language (payload_language job.payload);
        source = result.source;
        is_generated = true;
        duration_seconds = some result.duration_seconds;
        snippet_count = length snippets;
        cached_at = now;
        snippets = snippets;
        full_text = result.full_text;
        chapters = none;
        has_diarization = false;
      }

  abbrev pub completion :
      {W : Type 0} → WhisperEnv f.Num W → String → Job → String → WhisperResult f.Num → Delivery
  completion env job_id job url result = record {
    callback_url = url;
    event = "transcript.complete";
    job_id = job_id;
    video_id = job.video_id;
    status = "complete";
    source = result.source;
    poll_url = poll_url_for job_id;
    secret = secret_of (env.token_secret job.token_id);
    attempt = 1;
  }

  module _ {Db : Type 0} (env : WhisperEnv f.Num (World f.Num Db)) (job_id : String) where
    -- `enqueue_webhook` on the `default` queue
    abbrev pub enqueue_completion :
        Option Error → Delivery → World f.Num Db → Outcome Error (Unit {0}) × World f.Num Db
    enqueue_completion (some e) d w = (raise e, w)
    enqueue_completion none d w = (ok tt, record w { tasks = w.tasks ++ deliver "default" d ∷ [] })

    -- `if callback_url:`
    unfoldable pub notify :
        Option String
        → Job
        → WhisperResult f.Num
        → World f.Num Db
        → Outcome Error (Unit {0}) × World f.Num Db
    unfolding poll_url_for
    notify none job result w = (ok tt, w)
    notify (some url) job result w =
        if is_empty url
        then (ok tt, w)
        else enqueue_completion env.webhook_refusal (completion env job_id job url result) w

    -- The body after a transcription: cache it, complete the job, send the webhook.
    unfoldable pub finish :
        Job → WhisperResult f.Num → World f.Num Db → Outcome Error (Unit {0}) × World f.Num Db
    unfolding notify mark_complete put_transcript
    finish job result w =
        let w1 =
          put_transcript env.now env.cache_ttl_days (whisper_record env.now job result)
            (some env.cache_ttl_days) w in
        let w2 = mark_complete env.now job_id w1 in notify job.callback_url job result w2

    abbrev pub after_transcription :
        Outcome Error (WhisperResult f.Num)
        → Job
        → World f.Num Db
        → Outcome Error (Unit {0}) × World f.Num Db
    after_transcription (raise e) job w = (raise e, w)
    after_transcription (ok result) job w = finish job result w

    -- The `try` block, with the path of the audio if it was downloaded.
    unfoldable pub attempt :
        Outcome Error String
        → Job
        → World f.Num Db
        → (Outcome Error (Unit {0}) × World f.Num Db) × Option String
    unfolding finish
    attempt (raise e) job w = ((raise e, w), none)
    attempt (ok path) job w =
        (after_transcription (env.transcribe path job.video_id) job (env.transcribing w), some path)

    -- The `except` clauses: each records the failure.
    abbrev pub handle : Outcome Error (Unit {0}) × World f.Num Db → World f.Num Db
    handle (ok u, w) = w
    handle (raise e, w) = mark_failed env.now job_id (failure_message e) w

  module _ (r : Redis) (env : WhisperEnv f.Num (World f.Num r.Db)) where
    unfoldable pub run_found : String → Option Job → World f.Num r.Db → Run (World f.Num r.Db)
    unfolding attempt mark_running mark_failed release_lock
    run_found job_id none w = record { world = w; removed = none }
    run_found job_id (some job) w =
        let w1 = env.downloading (mark_running env.now job_id w) in
        let (tried, path) = attempt env job_id (env.download_audio job.video_id) job w1 in
        let w2 = handle env job_id tried in
        record {
          world = record w2 {
            redis = (release_lock r w2.redis job.video_id "whisper" (some job_id)).1;
          };
          removed = path;
        }

    unfoldable pub run_whisper_job : String → World f.Num r.Db → Run (World f.Num r.Db)
    unfolding run_found get_job
    run_whisper_job job_id w = run_found job_id (get_job w.jobs job_id) w
