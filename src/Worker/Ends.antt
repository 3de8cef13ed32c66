-- ===== src/Worker/Ends.antt =====
-- However a Whisper job of src/app/worker.py goes, it ends, and its lock and its audio are freed.
use text.Mathlib.Text.{◌==◌}
use text.Mathlib.TextEquality.{eq_iff}
use text.Mathlib.TextPositions.{eq_refl}
use yt_service.Prelude.{
  ℕ, String, false, Bool-cases, Option, none, some, Option-cases, ◌≡◌, ◌≢◌, refl, inl, inr,
  find-update_self, Outcome, ok, raise, is_empty, Float,
}
use yt_service.Errors.{Error}
use yt_service.Domain.{WhisperResult}
use yt_service.World.{Redis, World, Job, Delivery}
use yt_service.Jobs.Ledger.{
  get_job, is_in_progress, if_found, rewrite_job, mark_running, mark_complete, mark_failed,
}
use yt_service.Jobs.Locks.{lock_key, release_lock, release_script}
use yt_service.Worker.Whisper.{
  WhisperEnv, enqueue_completion, notify, finish, after_transcription, attempt, handle, run_found,
  run_whisper_job, failure_message,
}

module _ {N Db : Type 0} (id : String) where
  -- The job has a row.
  pub record IsThere (w : World N Db) : Type 0 where
    pub row : Job
    pub found : get_job w.jobs id ≡ some row

  -- The job has a row and is over.
  pub record IsOver (w : World N Db) : Type 0 where
    pub row : Job
    pub found : get_job w.jobs id ≡ some row
    pub over : is_in_progress row.status ≡ false

  rewrite-found :
      (g : Job → Job) (w : World N Db) (j : Job)
      → ((i : Job) → (g i).job_id ≡ i.job_id)
      → get_job w.jobs id ≡ some j
      → get_job (rewrite_job id g w).jobs id ≡ some (g j)
  rewrite-found g w j same h =
      rw (h, if_found)
        (unfold get_job in
          find-update_self (λ i. i.job_id == id) g w.jobs j (λ i e. rw (same i) e) h)

  pub mark_running-IsThere :
      (now : ℕ) (w : World N Db) → IsThere w → IsThere (mark_running now id w)
  unfolding mark_running
  mark_running-IsThere now w h = record {
    row = _;
    found = rewrite-found _ w h.row (λ i. refl) h.found;
  }

  pub mark_failed-IsOver :
      (now : ℕ) (message : String) (w : World N Db)
      → IsThere w
      → IsOver (mark_failed now id message w)
  unfolding mark_failed
  mark_failed-IsOver now message w h = record {
    row = _;
    found = rewrite-found _ w h.row (λ i. refl) h.found;
    over = refl;
  }

  pub mark_complete-IsOver :
      (now : ℕ) (w : World N Db) → IsThere w → IsOver (mark_complete now id w)
  unfolding mark_complete
  mark_complete-IsOver now w h = record {
    row = _;
    found = rewrite-found _ w h.row (λ i. refl) h.found;
    over = refl;
  }

-- What the `try` block leaves: a job that is over, or, if it raises, one that has its row.
abbrev EndsWell : {N Db : Type 0} → String → Outcome Error (Unit {0}) × World N Db → Type 0
EndsWell id (ok u, w) = IsOver id w
EndsWell id (raise e, w) = IsThere id w

module _ (f : Float) {Db : Type 0} (env : WhisperEnv f.Num (World f.Num Db)) (id : String) where
  -- What others do during the download and the transcription deletes no row.
  pub record KeepsRow : Type 0 where
    pub downloaded : (w : World f.Num Db) → IsThere id w → IsThere id (env.downloading w)
    pub transcribed : (w : World f.Num Db) → IsThere id w → IsThere id (env.transcribing w)

  over-IsThere : (w : World f.Num Db) → IsOver id w → IsThere id w
  over-IsThere w h = record { row = h.row; found = h.found }

  enqueue_completion-EndsWell :
      (refusal : Option Error) (d : Delivery) (w : World f.Num Db)
      → IsOver id w
      → EndsWell id (enqueue_completion f env id refusal d w)
  enqueue_completion-EndsWell none d w h = record { row = h.row; found = h.found; over = h.over }
  enqueue_completion-EndsWell (some e) d w h = over-IsThere w h

  notify-EndsWell :
      (callback : Option String) (job : Job) (result : WhisperResult f.Num) (w : World f.Num Db)
      → IsOver id w
      → EndsWell id (notify f env id callback job result w)
  unfolding notify
  notify-EndsWell none job result w h = h
  notify-EndsWell (some url) job result w h = elim (Bool-cases (is_empty url)) [
    | inl e ↦ rw e h
    | inr e ↦ rw e (enqueue_completion-EndsWell env.webhook_refusal _ w h)
  ]

  finish-EndsWell :
      (job : Job) (result : WhisperResult f.Num) (w : World f.Num Db)
      → IsThere id w
      → EndsWell id (finish f env id job result w)
  unfolding finish
  finish-EndsWell job result w h =
      notify-EndsWell job.callback_url job result _
        (mark_complete-IsOver id env.now _ (record { row = h.row; found = h.found }))

  attempt-EndsWell :
      KeepsRow
      → (audio : Outcome Error String) (job : Job) (w : World f.Num Db) → IsThere id w
      → EndsWell id (attempt f env id audio job w).0
  unfolding attempt
  attempt-EndsWell keeps (raise e) job w h = h
  attempt-EndsWell keeps (ok path) job w h = transcribed (env.transcribe path job.video_id)
    where
      transcribed :
          (o : Outcome Error (WhisperResult f.Num))
          → EndsWell id (after_transcription f env id o job (env.transcribing w))
      transcribed (raise e) = keeps.transcribed w h
      transcribed (ok result) =
          finish-EndsWell job result (env.transcribing w) (keeps.transcribed w h)

  handle-IsOver :
      (m : Outcome Error (Unit {0}) × World f.Num Db)
      → EndsWell id m
      → IsOver id (handle f env id m)
  handle-IsOver (ok u, w) h = h
  handle-IsOver (raise e, w) h = mark_failed-IsOver id env.now (failure_message e) w h

-- The file that a download leaves.
abbrev pub audio_of : Outcome Error String → Option String
audio_of (ok path) = some path
audio_of (raise e) = none

some_eq : {o : Option String} {a b : String} → o ≡ some b → o ≡ some a → a ≡ b
some_eq p q = cc

not_owner : (a b : String) → (a == b) ≡ false → a ≡ b → ⊥
not_owner a b h e = cc (h, (eq_iff a b).1 e)

module _ (r : Redis) where
  -- After its release no lock is the caller's.
  pub release-not_own :
      (db : r.Db) (v op id : String)
      → r.get (release_lock r db v op (some id)).1 (lock_key v op) ≢ some id
  unfolding release_lock release_script
  release-not_own db v op id h =
      let k = lock_key v op in
      elim (Option-cases (r.get db k)) [
        | inl e ↦ cc (e, (rw (e, release_script) at h))
        | inr (owner, e) ↦ elim (Bool-cases (owner == id)) [
          | inl own ↦ cc ((rw (e, release_script, own, r.get-delete, eq_refl) at h))
          | inr other ↦ not_owner owner id other (some_eq (rw (e, release_script, other) at h) e)
        ]
      ]

module _ (f : Float) (r : Redis) (env : WhisperEnv f.Num (World f.Num r.Db)) (id : String) where
  IsOver-release :
      (db : r.Db) (w : World f.Num r.Db) → IsOver id w → IsOver id (record w { redis = db })
  IsOver-release db w h = record { row = h.row; found = h.found; over = h.over }

  -- Whatever the download, the transcription and RQ answer, a job with a row ends: its row is complete
  -- or failed, the Whisper lock of its video is not its own, and the audio that was downloaded is
  -- removed; as long as no other process deletes the row meanwhile.
  pub run_whisper_job_ends :
      KeepsRow f env id
      → (w : World f.Num r.Db) (job : Job) → get_job w.jobs id ≡ some job
      → IsOver id (run_whisper_job f r env id w).world
        × (r.get (run_whisper_job f r env id w).world.redis (lock_key job.video_id "whisper")
            ≢ some id)
        × ((run_whisper_job f r env id w).removed ≡ audio_of (env.download_audio job.video_id))
  unfolding run_whisper_job run_found attempt
  run_whisper_job_ends keeps w job h =
      rw (h, run_found)
        (
          IsOver-release _ _ (
              handle-IsOver f env id _ (
                attempt-EndsWell f env id keeps (env.download_audio job.video_id) job _ (
                  keeps.downloaded _
                    (mark_running-IsThere id env.now w (record { row = job; found = h }))))),
          release-not_own r _ job.video_id "whisper" id,
          removed (env.download_audio job.video_id),
        )
    where
      removed :
          (o : Outcome Error String)
          → (attempt f env id o job (env.downloading (mark_running env.now id w))).1 ≡ audio_of o
      removed (ok path) = refl
      removed (raise e) = refl
