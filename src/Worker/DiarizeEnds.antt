-- ===== src/Worker/DiarizeEnds.antt =====
-- However a diarization job of src/app/worker.py goes, it ends, and its lock is freed.
use yt_service.Prelude.{
  ℕ, zero, suc, String, true, Bool-cases, Option, none, some, List, ◌≡◌, ◌≢◌, inl, inr, Outcome, ok,
  raise, Float,
}
use yt_service.Domain.{Source, youtube_captions, TranscriptRecord}
use yt_service.Domain.Json.{ReadError}
use yt_service.World.{Redis, World, Job, Transcript}
use yt_service.Jobs.Ledger.{get_job}
use yt_service.Jobs.Locks.{lock_key}
use yt_service.Cache.{get_transcript, put_diarization, respond}
use yt_service.Diarization.{Turn, align_speakers}
use yt_service.Worker.Whisper.{payload_language}
use yt_service.Worker.Ends.{
  IsThere, IsOver, mark_running-IsThere, mark_failed-IsOver, mark_complete-IsOver, release-not_own,
}
use yt_service.Worker.Diarize.{
  DiarizeEnv, store, after_pipeline, after_download, after_source, after_lookup,
  run_diarization_found, run_diarization_job,
}

module _ (f : Float) (r : Redis) (env : DiarizeEnv f.Num (World f.Num r.Db)) (id : String) where
  -- No other process deletes the job's row.
  pub record IsKept : Type 0 where
    pub row : (w : World f.Num r.Db) → IsThere id w → IsThere id (env.meanwhile w)

  respond-IsThere :
      (o : Option (Transcript f.Num)) (w : World f.Num r.Db)
      → IsThere id w
      → IsThere id (respond f o w).1
  unfolding respond
  respond-IsThere none w h = record { row = h.row; found = h.found }
  respond-IsThere (some t) w h = record { row = h.row; found = h.found }

  store-IsOver :
      (n : ℕ) (v l : String) (rec : TranscriptRecord f.Num) (turns : List (Turn f.Num))
      (w : World f.Num r.Db)
      → IsThere id w
      → IsOver id (
          store f env id
            (n, (put_diarization v l (align_speakers f rec.snippets turns) true w).1)
            w)
  unfolding put_diarization
  store-IsOver zero v l rec turns w h = mark_failed-IsOver id env.now _ w h
  store-IsOver (suc n) v l rec turns w h =
      mark_complete-IsOver id env.now _ (record { row = h.row; found = h.found })

  after_pipeline-IsOver :
      (o : Outcome (String × String) (List (Turn f.Num))) (v l : String)
      (rec : TranscriptRecord f.Num) (w : World f.Num r.Db)
      → IsThere id w
      → IsOver id (after_pipeline f env id o v l rec w)
  after_pipeline-IsOver (raise exc) v l rec w h = mark_failed-IsOver id env.now _ w h
  after_pipeline-IsOver (ok turns) v l rec w h = store-IsOver _ v l rec turns w h

  after_download-IsOver :
      (o : Outcome (String × String) String) (v l : String) (rec : TranscriptRecord f.Num)
      (w : World f.Num r.Db)
      → IsThere id w
      → IsOver id (after_download f env id o v l rec w).0
  after_download-IsOver (raise exc) v l rec w h = mark_failed-IsOver id env.now _ w h
  after_download-IsOver (ok path) v l rec w h =
      after_pipeline-IsOver (env.pipeline path) v l rec w h

  module _ (kept : IsKept) where
    after_source-IsOver :
        (s : Source) (v l : String) (rec : TranscriptRecord f.Num) (w : World f.Num r.Db)
        → IsThere id w
        → IsOver id (after_source f env id s v l rec w).0
    after_source-IsOver youtube_captions v l rec w h = mark_failed-IsOver id env.now _ w h
    after_source-IsOver _ v l rec w h = elim (Bool-cases env.is_available) [
      | inl e ↦ rw e (after_download-IsOver (env.download_audio v) v l rec _ (kept.row w h))
      | inr e ↦ rw e (mark_failed-IsOver id env.now _ w h)
    ]

    after_lookup-IsOver :
        (m : Outcome ReadError (Option (TranscriptRecord f.Num)) × World f.Num r.Db) (v l : String)
        → IsThere id m.1
        → IsOver id (after_lookup f env id m v l).0
    unfolding after_lookup
    after_lookup-IsOver (raise e, w) v l h = mark_failed-IsOver id env.now _ w h
    after_lookup-IsOver (ok none, w) v l h = mark_failed-IsOver id env.now _ w h
    after_lookup-IsOver (ok (some rec), w) v l h = after_source-IsOver rec.source v l rec w h

    released :
        (db : r.Db) (w : World f.Num r.Db) → IsOver id w → IsOver id (record w { redis = db })
    released db w h = record { row = h.row; found = h.found; over = h.over }

    -- Whatever the cache, the download and the pipeline answer, a diarization job with a row ends: its
    -- row is complete or failed, and the diarization lock of its video is not its own, as long as no
    -- other process deletes the row.
    pub run_diarization_job_ends :
        (w : World f.Num r.Db) (job : Job)
        → get_job w.jobs id ≡ some job
        → IsOver id (run_diarization_job f r env id w).world
          × (r.get (run_diarization_job f r env id w).world.redis (lock_key job.video_id "diarize")
              ≢ some id)
    unfolding run_diarization_job run_diarization_found
    run_diarization_job_ends w job h =
        rw (h, run_diarization_found)
          (
            released _ _ (
                after_lookup-IsOver _ job.video_id (payload_language job.payload) (
                  unfold get_transcript in
                  respond-IsThere _ _
                    (mark_running-IsThere id env.now w (record { row = job; found = h })))),
            release-not_own r _ job.video_id "diarize" id,
          )
