-- ===== src/System.antt =====
-- The service as a whole: what the API, the workers of src/app/worker.py, the scheduler of
-- src/app/monitor_scheduler.py and Redis do to the shared state, one act at a time.
pub mod Exclusive
use yt_service.Prelude.{String, true, some, List, ◌≡◌, ◌≢◌, All, Float}
use yt_service.Domain.{TranscriptRequest}
use yt_service.World.{Redis, World, Job}
use yt_service.Jobs.Ledger.{JobEntry, job_registry, is_in_progress}
use yt_service.Jobs.Locks.{lock_key}
use yt_service.Jobs.Enqueuing.{Contention, enqueue_diarization}
use yt_service.Jobs.Covered.{IsFair}
use yt_service.Cache.{purge_transcript}
use yt_service.Service.{ServiceEnv}
use yt_service.Service.Covered.{IsPolite}
use yt_service.Service.Fetching.{get_or_fetch}
use yt_service.Worker.Whisper.{WhisperEnv, run_whisper_job}
use yt_service.Worker.Diarize.{DiarizeEnv, run_diarization_job}
use yt_service.Worker.Locks.{IsCareful}
use yt_service.Worker.DiarizeLocks.{IsConsiderate}
use yt_service.Ingest.{IngestEnv, IngestRequest, ingest_channel_or_playlist}
use yt_service.Monitors.{Monitor, MonitorEnv, poll_one}

-- No job in progress has that key for its lock.
abbrev pub IsUnused : String → List Job → Type 0
IsUnused key = All (λ j.
    (e : JobEntry)
    → job_registry j.job_type ≡ some e
    → is_in_progress j.status ≡ true
    → key ≢ lock_key j.video_id e.lock_op)

module _ (f : Float) (r : Redis) where
  -- What the environment answers is any, but what it does to the state keeps the locks.
  pub data Step : World f.Num r.Db → World f.Num r.Db → Type 0 where
    fetch :
        (w : World f.Num r.Db) (env : ServiceEnv f.Num (World f.Num r.Db)) (q : TranscriptRequest)
        (token : String)
        → IsPolite f r env
        → Step w (get_or_fetch f r env q token w).1
    request_speakers :
        (w : World f.Num r.Db) (env : Contention (World f.Num r.Db))
        (video_id token language : String)
        → IsFair r env
        → Step w (enqueue_diarization r env video_id token language w).1
    ingest :
        (w : World f.Num r.Db) (env : IngestEnv f.Num (World f.Num r.Db)) (q : IngestRequest)
        → ((v : String) → IsPolite f r (env.service v))
        → Step w (ingest_channel_or_playlist f r env q w).1
    poll :
        (w : World f.Num r.Db) (env : MonitorEnv f.Num (World f.Num r.Db)) (m : Monitor)
        → ((v : String) → IsPolite f r (env.service v))
        → Step w (poll_one f r env m w).1
    run_whisper :
        (w : World f.Num r.Db) (env : WhisperEnv f.Num (World f.Num r.Db)) (job_id : String)
        → IsCareful f r env job_id
        → Step w (run_whisper_job f r env job_id w).world
    run_diarization :
        (w : World f.Num r.Db) (env : DiarizeEnv f.Num (World f.Num r.Db)) (job_id : String)
        → IsConsiderate f r env job_id
        → Step w (run_diarization_job f r env job_id w).world
    purge : (w : World f.Num r.Db) (video_id : String) → Step w (purge_transcript video_id w).1
    -- the time of a lock is over: no job in progress is left behind
    expire :
        (w : World f.Num r.Db) (key : String)
        → IsUnused key w.jobs
        → Step w (record w { redis = r.delete w.redis key })

  pub data Reach (s : World f.Num r.Db) : World f.Num r.Db → Type 0 where
    here : Reach s s
    next : {t u : World f.Num r.Db} → Reach s t → Step t u → Reach s u
