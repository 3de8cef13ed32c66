-- ===== src/Service/Rows.antt =====
-- `get_or_fetch` of src/app/transcript_service.py deletes no row of a job.
use yt_service.Prelude.{ℕ, String, some, ◌≡◌, Outcome, Float}
use yt_service.Errors.{Error}
use yt_service.Domain.{TranscriptRequest}
use yt_service.World.{Redis, World}
use yt_service.Jobs.Enqueuing.{enqueue_whisper}
use yt_service.Jobs.Named.{HasJob}
use yt_service.Jobs.Rows.{LeavesRows, enqueue_job-HasJob}
use yt_service.Service.{ServiceEnv}
use yt_service.Service.Fetching.{get_or_fetch}
use yt_service.Service.Keeping.{Keeps, get_or_fetch-keeps}

module _ (f : Float) (r : Redis) (env : ServiceEnv f.Num (World f.Num r.Db)) where
  -- What the others do while the request waits, and the hook of the rate limit, delete no row of a job.
  pub record LeavesAllRows : Type 0 where
    pub contention : LeavesRows env.contention
    pub hook :
        (h : World f.Num r.Db → Outcome Error (Unit {0}) × World f.Num r.Db) (w : World f.Num r.Db)
        (v t id : String)
        → env.whisper_rate_limit_hook ≡ some h
        → HasJob v t id w.jobs
        → HasJob v t id (h w).1.jobs
    pub pause :
        (n : ℕ) (w : World f.Num r.Db) (v t id : String)
        → HasJob v t id w.jobs
        → HasJob v t id (env.pause n w).jobs

  module _ (leaves : LeavesAllRows) (v t id : String) where
    leaves-Keeps : Keeps f r env (λ w. HasJob v t id w.jobs)
    leaves-Keeps = record {
      enqueue = λ payload token w h.
          unfold enqueue_whisper in
          enqueue_job-HasJob v t id r env.contention _ leaves.contention w h;
      hook = λ hook w e h. leaves.hook hook w v t id e h;
      pause = λ n w h. leaves.pause n w v t id h;
      cache = λ ts hits misses w h. h;
    }

    pub get_or_fetch-HasJob :
        (request : TranscriptRequest) (token : String) (w : World f.Num r.Db)
        → HasJob v t id w.jobs
        → HasJob v t id (get_or_fetch f r env request token w).1.jobs
    get_or_fetch-HasJob = get_or_fetch-keeps f r env (λ w. HasJob v t id w.jobs) leaves-Keeps
