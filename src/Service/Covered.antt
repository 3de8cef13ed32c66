-- ===== src/Service/Covered.antt =====
-- `get_or_fetch` of src/app/transcript_service.py leaves every job in progress its lock.
use yt_service.Prelude.{ℕ, String, Option, none, some, ◌≡◌, Outcome, Float}
use yt_service.Errors.{Error}
use yt_service.Domain.{TranscriptRequest}
use yt_service.World.{Redis, World, Transcript}
use yt_service.Jobs.Enqueuing.{enqueue_whisper}
use yt_service.Jobs.Exclusion.{IsCovered}
use yt_service.Jobs.Covered.{IsFair, enqueue_job-IsCovered}
use yt_service.Cache.{get_transcript, respond}
use yt_service.Service.{ServiceEnv}
use yt_service.Service.Fetching.{get_or_fetch}
use yt_service.Service.Keeping.{Keeps, get_or_fetch-keeps}

module _ (f : Float) (r : Redis) where
  -- What the others do while the request waits, and the hook of the rate limit, keep the locks.
  pub record IsPolite (env : ServiceEnv f.Num (World f.Num r.Db)) : Type 0 where
    pub fair : IsFair r env.contention
    pub hook :
        (h : World f.Num r.Db → Outcome Error (Unit {0}) × World f.Num r.Db) (w : World f.Num r.Db)
        → env.whisper_rate_limit_hook ≡ some h
        → IsCovered r w
        → IsCovered r (h w).1
    pub pause : (n : ℕ) (w : World f.Num r.Db) → IsCovered r w → IsCovered r (env.pause n w)

  respond-IsCovered :
      (o : Option (Transcript f.Num)) (w : World f.Num r.Db)
      → IsCovered r w
      → IsCovered r (respond f o w).1
  unfolding respond
  respond-IsCovered none w h = record { locks = h.locks }
  respond-IsCovered (some t) w h = record { locks = h.locks }

  pub get_transcript-IsCovered :
      (now : ℕ) (v l : String) (w : World f.Num r.Db)
      → IsCovered r w
      → IsCovered r (get_transcript f now v l w).1
  unfolding get_transcript
  get_transcript-IsCovered now v l w h = respond-IsCovered _ w h

  module _ (env : ServiceEnv f.Num (World f.Num r.Db)) (polite : IsPolite env) where
    polite-Keeps : Keeps f r env (IsCovered r)
    polite-Keeps = record {
      enqueue = λ payload token w h.
          unfold enqueue_whisper in enqueue_job-IsCovered r env.contention _ polite.fair w h;
      hook = polite.hook;
      pause = polite.pause;
      cache = λ ts hits misses w h. record { locks = h.locks };
    }

    -- If every job in progress owns its lock, then so it is after any request for a transcript,
    -- whatever YouTube answers and however the request ends, as long as the other processes and the
    -- hook keep it so, and none of them acts between the second look for a job and the theft of its
    -- lock.
    pub get_or_fetch-IsCovered :
        (request : TranscriptRequest) (token : String) (w : World f.Num r.Db)
        → IsCovered r w
        → IsCovered r (get_or_fetch f r env request token w).1
    get_or_fetch-IsCovered = get_or_fetch-keeps f r env (IsCovered r) polite-Keeps
