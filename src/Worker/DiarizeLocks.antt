-- ===== src/Worker/DiarizeLocks.antt =====
-- A diarization job of src/app/worker.py leaves every other job in progress in possession of its lock.
use yt_service.Prelude.{
  ℕ, zero, suc, String, Bool, Option, true, false, none, some, List, All-map, Outcome, ok, raise,
  Float, if◌then◌else◌, str_cat,
}
use yt_service.Domain.{Source, youtube_captions, TranscriptRecord}
use yt_service.Domain.Json.{ReadError}
use yt_service.World.{Redis, World, Job, Transcript}
use yt_service.Jobs.Ledger.{get_job}
use yt_service.Jobs.Exclusion.{IsCovered}
use yt_service.Jobs.Settling.{
  mark_running-OthersHold, mark_complete-Settled, mark_failed-Settled, redis-mark_failed,
  redis-mark_complete, All-release,
}
use yt_service.Cache.{get_transcript, put_diarization, respond}
use yt_service.Diarization.{Turn, align_speakers}
use yt_service.Worker.Locks.{IsSettled, Holds}
use yt_service.Worker.Whisper.{payload_language}
use yt_service.Worker.Diarize.{
  DiarizeEnv, fail, store, after_pipeline, after_download, after_source, after_lookup,
  run_diarization_found, run_diarization_job,
}

module _ (f : Float) (r : Redis) (env : DiarizeEnv f.Num (World f.Num r.Db)) (id : String) where
  -- What the others do during the download keeps the locks of all jobs but the named one.
  pub record IsConsiderate : Type 0 where
    pub meanwhile : (w : World f.Num r.Db) → Holds r id w → Holds r id (env.meanwhile w)

  abbrev unavailable : String
  unavailable =
      str_cat "diarization unavailable: HUGGINGFACE_TOKEN missing or "
        "pyannote model not accessible"

  failed-IsSettled :
      (message : String) (w : World f.Num r.Db)
      → Holds r id w
      → IsSettled r id (fail f env id message w)
  failed-IsSettled message w h = rw redis-mark_failed (mark_failed-Settled r env.now id w message h)

  store-IsSettled :
      (n : ℕ) (v l : String) (rec : TranscriptRecord f.Num) (turns : List (Turn f.Num))
      (w : World f.Num r.Db)
      → Holds r id w
      → IsSettled r id (
          store f env id
            (n, (put_diarization v l (align_speakers f rec.snippets turns) true w).1)
            w)
  unfolding put_diarization
  store-IsSettled zero v l rec turns w h = failed-IsSettled _ w h
  store-IsSettled (suc n) v l rec turns w h =
      rw redis-mark_complete (mark_complete-Settled r env.now id _ h)

  after_pipeline-IsSettled :
      (o : Outcome (String × String) (List (Turn f.Num))) (v l : String)
      (rec : TranscriptRecord f.Num) (w : World f.Num r.Db)
      → Holds r id w
      → IsSettled r id (after_pipeline f env id o v l rec w)
  after_pipeline-IsSettled (raise exc) v l rec w h = failed-IsSettled _ w h
  after_pipeline-IsSettled (ok turns) v l rec w h = store-IsSettled _ v l rec turns w h

  after_download-IsSettled :
      (o : Outcome (String × String) String) (v l : String) (rec : TranscriptRecord f.Num)
      (w : World f.Num r.Db)
      → Holds r id w
      → IsSettled r id (after_download f env id o v l rec w).0
  after_download-IsSettled (raise exc) v l rec w h = failed-IsSettled _ w h
  after_download-IsSettled (ok path) v l rec w h =
      after_pipeline-IsSettled (env.pipeline path) v l rec w h

  respond-Holds :
      (o : Option (Transcript f.Num)) (w : World f.Num r.Db)
      → Holds r id w
      → Holds r id (respond f o w).1
  unfolding respond
  respond-Holds none w h = h
  respond-Holds (some t) w h = h

  module _ (considerate : IsConsiderate) where
    after_source-IsSettled :
        (s : Source) (v l : String) (rec : TranscriptRecord f.Num) (w : World f.Num r.Db)
        → Holds r id w
        → IsSettled r id (after_source f env id s v l rec w).0
    after_source-IsSettled youtube_captions v l rec w h = failed-IsSettled _ w h
    after_source-IsSettled _ v l rec w h = tried env.is_available
      where
        tried :
            (b : Bool)
            → IsSettled r id
                (if b
                  then after_download f env id (env.download_audio v) v l rec (env.meanwhile w)
                  else (fail f env id unavailable w, none)).0
        tried true =
            after_download-IsSettled (env.download_audio v) v l rec _ (considerate.meanwhile w h)
        tried false = failed-IsSettled unavailable w h

    after_lookup-IsSettled :
        (m : Outcome ReadError (Option (TranscriptRecord f.Num)) × World f.Num r.Db) (v l : String)
        → Holds r id m.1
        → IsSettled r id (after_lookup f env id m v l).0
    unfolding after_lookup
    after_lookup-IsSettled (raise e, w) v l h = failed-IsSettled _ w h
    after_lookup-IsSettled (ok none, w) v l h = failed-IsSettled _ w h
    after_lookup-IsSettled (ok (some rec), w) v l h = after_source-IsSettled rec.source v l rec w h

    run_diarization_found-IsCovered :
        (o : Option Job) (w : World f.Num r.Db)
        → IsCovered r w
        → IsCovered r (run_diarization_found f r env id o w).world
    unfolding run_diarization_found get_transcript
    run_diarization_found-IsCovered none w h = h
    run_diarization_found-IsCovered (some job) w h =
        let started =
          mark_running-OthersHold r env.now id w (All-map w.jobs (λ j hj other. hj) h.locks) in
        record {
          locks = All-release r _ job.video_id "diarize" id _ (
              after_lookup-IsSettled _ job.video_id (payload_language job.payload)
                (respond-Holds _ _ started));
        }

    -- If every job in progress owns its lock, then so it is after any run of a diarization job, as
    -- long as the others keep the locks of all jobs but this one while the audio is downloaded.
    pub run_diarization_job-IsCovered :
        (w : World f.Num r.Db)
        → IsCovered r w
        → IsCovered r (run_diarization_job f r env id w).world
    unfolding run_diarization_job
    run_diarization_job-IsCovered w h = run_diarization_found-IsCovered (get_job w.jobs id) w h
