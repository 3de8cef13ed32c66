-- ===== src/System/Exclusive.antt =====
-- Whatever the parts of the service do, a video has at most one job in progress of each type.
use yt_service.Prelude.{String, List, [], ◌∷◌, ◌≡◌, sym, All, Float}
use mathlib.Core.Path.{subst}
use yt_service.World.{Redis, World, Job}
use yt_service.Jobs.Enqueuing.{enqueue_diarization}
use yt_service.Jobs.Exclusion.{HoldsLock, IsCovered, HoldsLock-delete}
use yt_service.Jobs.Covered.{IsExclusive, IsCovered-IsExclusive, enqueue_job-IsCovered}
use yt_service.Cache.{purge_transcript}
use yt_service.Service.Covered.{get_or_fetch-IsCovered}
use yt_service.Worker.Locks.{run_whisper_job-IsCovered}
use yt_service.Worker.DiarizeLocks.{run_diarization_job-IsCovered}
use yt_service.Ingest.Reported.{ingest_channel_or_playlist-IsCovered}
use yt_service.Monitors.Covered.{poll_one-IsCovered}
use yt_service.System.{
  IsUnused, Step, Reach, fetch, request_speakers, ingest, poll, run_whisper, run_diarization, purge,
  expire, here, next,
}

module _ (r : Redis) where
  All-delete :
      (db : r.Db) (key : String) (js : List Job)
      → IsUnused key js
      → All (HoldsLock r db) js
      → All (HoldsLock r (r.delete db key)) js
  All-delete db key [] unused h = tt
  All-delete db key (j ∷ js) unused h =
      (HoldsLock-delete r db key j unused.0 h.0, All-delete db key js unused.1 h.1)

module _ (f : Float) (r : Redis) where
  Step-IsCovered : {t u : World f.Num r.Db} → Step f r t u → IsCovered r t → IsCovered r u
  unfolding enqueue_diarization purge_transcript
  Step-IsCovered (fetch w env q token polite) h = get_or_fetch-IsCovered f r env polite q token w h
  Step-IsCovered (request_speakers w env v token l fair) h = enqueue_job-IsCovered r env _ fair w h
  Step-IsCovered (ingest w env q polite) h =
      ingest_channel_or_playlist-IsCovered f r env q polite w h
  Step-IsCovered (poll w env m polite) h = poll_one-IsCovered f r env m polite w h
  Step-IsCovered (run_whisper w env id careful) h = run_whisper_job-IsCovered f r env id careful w h
  Step-IsCovered (run_diarization w env id considerate) h =
      run_diarization_job-IsCovered f r env id considerate w h
  Step-IsCovered (purge w v) h = record { locks = h.locks }
  Step-IsCovered (expire w key unused) h = record {
    locks = All-delete r w.redis key w.jobs unused h.locks;
  }

  Reach-IsCovered : {s t : World f.Num r.Db} → Reach f r s t → IsCovered r s → IsCovered r t
  Reach-IsCovered here h = h
  Reach-IsCovered (next run st) h = Step-IsCovered st (Reach-IsCovered run h)

  -- From a state without jobs, whatever requests, ingests, polls, job runs, purges and expiries of
  -- unused locks follow in whatever order, a video has at most one job in progress of each type: as
  -- long as what others and the hook of the rate limit do during each of these steps keeps every job
  -- in progress its lock, and none of them acts between the second look for a job and the theft of its
  -- lock.
  pub Reach-IsExclusive :
      {s t : World f.Num r.Db} → s.jobs ≡ [] → Reach f r s t → IsExclusive t.jobs
  Reach-IsExclusive {s} {t} empty run =
      IsCovered-IsExclusive r t
        (Reach-IsCovered run (record { locks = subst (All (HoldsLock r s.redis)) (sym empty) tt }))
