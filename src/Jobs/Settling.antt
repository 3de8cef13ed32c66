-- ===== src/Jobs/Settling.antt =====
-- Ending a job of src/app/jobs.py, and then freeing its lock, takes no lock from another job.
use text.Mathlib.Text.{◌==◌}
use text.Mathlib.TextEquality.{eq_iff}
use yt_service.Prelude.{
  ℕ, String, false, Bool-cases, Option, none, some, List, [], ◌∷◌, ◌≡◌, ◌≢◌, refl, inl, inr, arith,
  All, All-map, update, if◌then◌else◌,
}
use yt_service.World.{Redis, World, Job, running}
use yt_service.Jobs.Ledger.{
  is_in_progress, get_job, if_found, rewrite_job, mark_running, mark_failed, mark_complete,
}
use yt_service.Jobs.Locks.{lock_key, release_lock}
use yt_service.Jobs.Exclusion.{HoldsLock}

-- The named job, if the row is its, is over.
abbrev pub Settled : String → Job → Type 0
Settled id j = j.job_id ≡ id → is_in_progress j.status ≡ false

-- Every job but the named one owns its lock if it is in progress.
abbrev pub OthersHold : (r : Redis) → r.Db → String → Job → Type 0
OthersHold r db id j = j.job_id ≢ id → HoldsLock r db j

module _ (r : Redis) (db : r.Db) (id : String) where
  -- A row's new version under `update`, if the new status is a final one.
  ended-Settled :
      (f : Job → Job) (j : Job)
      → (f j).job_id ≡ j.job_id
      → is_in_progress (f j).status ≡ false
      → OthersHold r db id j
      → HoldsLock r db (if j.job_id == id then f j else j)
        × Settled id (if j.job_id == id then f j else j)
  ended-Settled f j same over h = elim (Bool-cases (j.job_id == id)) [
    | inl e ↦ rw e ((λ e' he hp. cc (over, hp)), λ _. over)
    | inr e ↦
        rw e (h (λ q. cc (e, (eq_iff j.job_id id).1 q)), λ q. cc (e, (eq_iff j.job_id id).1 q))
  ]

  update-Settled :
      (f : Job → Job)
      → ((j : Job) → (f j).job_id ≡ j.job_id)
      → ((j : Job) → is_in_progress (f j).status ≡ false)
      → (js : List Job) → All (OthersHold r db id) js
      → All (λ j. HoldsLock r db j × Settled id j) (update (λ j. j.job_id == id) f js)
  update-Settled f same over [] h = tt
  update-Settled f same over (j ∷ js) h =
      (ended-Settled f j (same j) (over j) h.0, update-Settled f same over js h.1)

  missing-Settled :
      (js : List Job)
      → get_job js id ≡ none
      → All (OthersHold r db id) js
      → All (λ j. HoldsLock r db j × Settled id j) js
  unfolding get_job
  missing-Settled [] e h = tt
  missing-Settled (j ∷ js) e h =
      let other : j.job_id ≢ id = λ q. ground (arith, eq_iff j.job_id id) in
      ((h.0 other, λ q. absurd (other q)), missing-Settled js (ground arith) h.1)

module _ {N : Type 0} (r : Redis) (now : ℕ) (id : String) (w : World N r.Db) where
  rewrite-Settled :
      (f : Job → Job)
      → ((j : Job) → (f j).job_id ≡ j.job_id)
      → ((j : Job) → is_in_progress (f j).status ≡ false)
      → All (OthersHold r w.redis id) w.jobs
      → All (λ j. HoldsLock r w.redis j × Settled id j) (rewrite_job id f w).jobs
  rewrite-Settled f same over h = go (get_job w.jobs id) refl
    where
      go :
          (o : Option Job)
          → get_job w.jobs id ≡ o
          → All
              (λ j. HoldsLock r w.redis j × Settled id j)
              (if_found o w (record w { jobs = update (λ j. j.job_id == id) f w.jobs })).jobs
      go none e = missing-Settled r w.redis id w.jobs e h
      go (some j) e = update-Settled r w.redis id f same over w.jobs h

  pub mark_failed-Settled :
      (message : String)
      → All (OthersHold r w.redis id) w.jobs
      → All (λ j. HoldsLock r w.redis j × Settled id j) (mark_failed now id message w).jobs
  unfolding mark_failed
  mark_failed-Settled message = rewrite-Settled _ (λ j. refl) (λ j. refl)

  pub mark_complete-Settled :
      All (OthersHold r w.redis id) w.jobs
      → All (λ j. HoldsLock r w.redis j × Settled id j) (mark_complete now id w).jobs
  unfolding mark_complete
  mark_complete-Settled = rewrite-Settled _ (λ j. refl) (λ j. refl)

  pub redis-mark_failed : (message : String) → (mark_failed now id message w).redis ≡ w.redis
  unfolding mark_failed
  redis-mark_failed message = ground arith

  pub redis-mark_complete : (mark_complete now id w).redis ≡ w.redis
  unfolding mark_complete
  redis-mark_complete = ground arith

module _ (r : Redis) where
  -- The owner's release leaves the lock of every job but the one that is over.
  pub HoldsLock-release :
      (db : r.Db) (v op id : String) (j : Job)
      → HoldsLock r db j
      → Settled id j
      → HoldsLock r (release_lock r db v op (some id)).1 j
  unfolding release_lock
  HoldsLock-release db v op id j h over e he hp =
      let k = lock_key v op in
      let k' = lock_key j.video_id e.lock_op in
      ground (arith, r.get-delete db k k', h e he hp, eq_iff k k', over, eq_iff j.job_id id)

  pub All-release :
      (db : r.Db) (v op id : String) (js : List Job)
      → All (λ j. HoldsLock r db j × Settled id j) js
      → All (HoldsLock r (release_lock r db v op (some id)).1) js
  All-release db v op id js h = All-map js (λ j a. HoldsLock-release db v op id j a.0 a.1) h

  -- A start of the named job takes no lock from the others.
  pub mark_running-OthersHold :
      {N : Type 0} (now : ℕ) (id : String) (w : World N r.Db)
      → All (OthersHold r w.redis id) w.jobs
      → All (OthersHold r (mark_running now id w).redis id) (mark_running now id w).jobs
  unfolding mark_running
  mark_running-OthersHold {N} now id w h = go (get_job w.jobs id)
    where
      started : Job → Job
      started j = record j { status = running; started_at = some now }

      one :
          (j : Job)
          → OthersHold r w.redis id j
          → OthersHold r w.redis id (if j.job_id == id then started j else j)
      one j hj = elim (Bool-cases (j.job_id == id)) [
        | inl e ↦ rw e (λ other. absurd (other ((eq_iff j.job_id id).0 e)))
        | inr e ↦ rw e hj
      ]

      rows :
          (js : List Job)
          → All (OthersHold r w.redis id) js
          → All (OthersHold r w.redis id) (update (λ j. j.job_id == id) started js)
      rows [] a = tt
      rows (j ∷ js) a = (one j a.0, rows js a.1)

      go :
          (o : Option Job)
          → All
              (OthersHold r
                (if_found o w
                  (record w { jobs = update (λ j. j.job_id == id) started w.jobs })).redis
                id)
              (if_found o w (record w { jobs = update (λ j. j.job_id == id) started w.jobs })).jobs
      go none = h
      go (some j) = rows w.jobs h
