-- ===== src/Worker/Locks.antt =====
-- A Whisper job of src/app/worker.py leaves every other job in progress in possession of its lock.
use yt_service.Prelude.{
  String, Bool-cases, Option, none, some, inl, inr, All, All-map, Outcome, ok, raise, is_empty,
  Float,
}
use yt_service.Errors.{Error}
use yt_service.Domain.{WhisperResult}
use yt_service.World.{Redis, World, Job, Delivery}
use yt_service.Jobs.Ledger.{get_job, mark_running}
use yt_service.Jobs.Exclusion.{HoldsLock, IsCovered}
use yt_service.Jobs.Settling.{
  Settled, OthersHold, mark_running-OthersHold, mark_complete-Settled, mark_failed-Settled,
  redis-mark_failed, redis-mark_complete, All-release,
}
use yt_service.Worker.Whisper.{
  WhisperEnv, enqueue_completion, notify, finish, after_transcription, attempt, handle, run_found,
  run_whisper_job, failure_message,
}

module _ (r : Redis) (id : String) where
  -- The named job is over, and every job in progress owns its lock.
  abbrev pub IsSettled : {N : Type 0} → World N r.Db → Type 0
  IsSettled w = All (λ j. HoldsLock r w.redis j × Settled id j) w.jobs

  abbrev pub Holds : {N : Type 0} → World N r.Db → Type 0
  Holds w = All (OthersHold r w.redis id) w.jobs

  -- What the `try` block leaves.
  abbrev LeavesLocks : {N : Type 0} → Outcome Error (Unit {0}) × World N r.Db → Type 0
  LeavesLocks (ok u, w) = IsSettled w
  LeavesLocks (raise e, w) = Holds w

module _ (f : Float) (r : Redis) (env : WhisperEnv f.Num (World f.Num r.Db)) (id : String) where
  -- What others do meanwhile keeps the locks of all jobs but the named one.
  pub record IsCareful : Type 0 where
    pub downloaded : (w : World f.Num r.Db) → Holds r id w → Holds r id (env.downloading w)
    pub transcribed : (w : World f.Num r.Db) → Holds r id w → Holds r id (env.transcribing w)

  settled-Holds : (w : World f.Num r.Db) → IsSettled r id w → Holds r id w
  settled-Holds w h = All-map w.jobs (λ j hj other. hj.0) h

  notify-LeavesLocks :
      (callback : Option String) (job : Job) (result : WhisperResult f.Num) (w : World f.Num r.Db)
      → IsSettled r id w
      → LeavesLocks r id (notify f env id callback job result w)
  unfolding notify
  notify-LeavesLocks none job result w h = h
  notify-LeavesLocks (some url) job result w h = elim (Bool-cases (is_empty url)) [
    | inl e ↦ rw e h
    | inr e ↦ rw e (sent env.webhook_refusal _)
  ]
    where
      sent :
          (refusal : Option Error) (d : Delivery)
          → LeavesLocks r id (enqueue_completion f env id refusal d w)
      sent none d = h
      sent (some e) d = settled-Holds w h

  finish-LeavesLocks :
      (job : Job) (result : WhisperResult f.Num) (w : World f.Num r.Db)
      → Holds r id w
      → LeavesLocks r id (finish f env id job result w)
  unfolding finish
  finish-LeavesLocks job result w h =
      notify-LeavesLocks job.callback_url job result _
        (rw redis-mark_complete (mark_complete-Settled r env.now id _ h))

  attempt-LeavesLocks :
      IsCareful
      → (audio : Outcome Error String) (job : Job) (w : World f.Num r.Db) → Holds r id w
      → LeavesLocks r id (attempt f env id audio job w).0
  unfolding attempt
  attempt-LeavesLocks careful (raise e) job w h = h
  attempt-LeavesLocks careful (ok path) job w h = transcribed (env.transcribe path job.video_id)
    where
      transcribed :
          (o : Outcome Error (WhisperResult f.Num))
          → LeavesLocks r id (after_transcription f env id o job (env.transcribing w))
      transcribed (raise e) = careful.transcribed w h
      transcribed (ok result) =
          finish-LeavesLocks job result (env.transcribing w) (careful.transcribed w h)

  handle-IsSettled :
      (m : Outcome Error (Unit {0}) × World f.Num r.Db)
      → LeavesLocks r id m
      → IsSettled r id (handle f env id m)
  handle-IsSettled (ok u, w) h = h
  handle-IsSettled (raise e, w) h =
      rw redis-mark_failed (mark_failed-Settled r env.now id w (failure_message e) h)

  run_found-IsCovered :
      IsCareful
      → (o : Option Job) (w : World f.Num r.Db) → IsCovered r w
      → IsCovered r (run_found f r env id o w).world
  unfolding run_found
  run_found-IsCovered careful none w h = h
  run_found-IsCovered careful (some job) w h =
      let w1 = env.downloading (mark_running env.now id w) in
      let tried = (attempt f env id (env.download_audio job.video_id) job w1).0 in
      let started =
        careful.downloaded _
          (mark_running-OthersHold r env.now id w (All-map w.jobs (λ j hj other. hj) h.locks)) in
      record {
        locks = All-release r _ job.video_id "whisper" id _ (
            handle-IsSettled tried
              (attempt-LeavesLocks careful (env.download_audio job.video_id) job w1 started));
      }

  -- If every job in progress owns its lock, then so it is after any run of a Whisper job, whether the
  -- job had a row or not and however the run ends.
  pub run_whisper_job-IsCovered :
      IsCareful
      → (w : World f.Num r.Db) → IsCovered r w
      → IsCovered r (run_whisper_job f r env id w).world
  unfolding run_whisper_job
  run_whisper_job-IsCovered careful w h = run_found-IsCovered careful (get_job w.jobs id) w h
