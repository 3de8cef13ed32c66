-- ===== src/Jobs/Race.antt =====
-- The theft of a lock in `enqueue_job` of src/app/jobs.py is not tied to what the second look saw.
use text.Mathlib.TextEquality.{eq_iff}
use mathlib.Core.Path.{subst}
use yt_service.Prelude.{String, true, false, none, some, List, ◌∷◌, ◌≡◌, ◌≢◌, refl, sym, arith}
use yt_service.World.{Redis, World, Job}
use yt_service.Jobs.Ledger.{JobEntry, job_registry, is_in_progress, find_in_progress_job}
use yt_service.Jobs.Locks.{default_lock_ttl_seconds, lock_key, acquire_lock, steal_stale_lock}
use yt_service.Jobs.Enqueuing.{
  Contention, Submission, new_job, hand_to_rq, insert_and_enqueue, steal_and_retry, contend,
  enqueue_job,
}
use yt_service.Jobs.Covered.{IsExclusive}

module _ {N : Type 0} (r : Redis) (env : Contention (World N r.Db)) (s : Submission)
    (entry : JobEntry) (registered : job_registry s.job_type ≡ some entry) where
  -- The holder of the lock commits its row between the second look and the theft.
  pub record HolderCommits (holder : Job) : Type 0 where
    pub waits : (w : World N r.Db) → env.sleeping w ≡ w
    pub commits : (w : World N r.Db) → env.before_steal w ≡ record w { jobs = holder ∷ w.jobs }
    pub quiet : (w' : World N r.Db) → env.after_steal w' ≡ w'
    pub accepts : env.rq_error ≡ none
    pub video : holder.video_id ≡ s.video_id
    pub kind : holder.job_type ≡ s.job_type
    pub active : is_in_progress holder.status ≡ true
    pub another : holder.job_id ≢ env.job_id

  stolen-acquired :
      (db : r.Db)
      → (acquire_lock r
          (steal_stale_lock r db s.video_id entry.lock_op)
          s.video_id
          entry.lock_op
          env.job_id
          default_lock_ttl_seconds).0
        ≡ true
  unfolding acquire_lock steal_stale_lock
  stolen-acquired db =
      let k = lock_key s.video_id entry.lock_op in
      ground (
        arith,
        r.set_done (r.delete db k) k env.job_id default_lock_ttl_seconds,
        r.get-delete db k k,
        eq_iff k k,
      )

  acquire-held :
      (db : r.Db) (owner : String)
      → r.get db (lock_key s.video_id entry.lock_op) ≡ some owner
      → (acquire_lock r db s.video_id entry.lock_op env.job_id default_lock_ttl_seconds).0 ≡ false
  unfolding acquire_lock
  acquire-held db owner own =
      let k = lock_key s.video_id entry.lock_op in
      ground (arith, r.set_done db k env.job_id default_lock_ttl_seconds)

  jobs-steal :
      (holder : Job) (w : World N r.Db)
      → HolderCommits holder
      → (steal_and_retry r env s entry w).1.jobs ≡ new_job env s ∷ holder ∷ w.jobs
  unfolding steal_and_retry insert_and_enqueue
  jobs-steal holder w h =
      rw (h.commits w, h.quiet, stolen-acquired w.redis) (unfold hand_to_rq in rw h.accepts refl)

  jobs-enqueue :
      (holder : Job) (w : World N r.Db)
      → HolderCommits holder
      → r.get w.redis (lock_key s.video_id entry.lock_op) ≡ some holder.job_id
      → find_in_progress_job w.jobs s.video_id s.job_type ≡ none
      → (enqueue_job r env s w).1.jobs ≡ new_job env s ∷ holder ∷ w.jobs
  unfolding enqueue_job contend
  jobs-enqueue holder w h own absent =
      rw (registered, acquire-held w.redis holder.job_id own, enqueue_job, absent, contend)
        (rw (h.waits _, absent) (rw (h.waits _) (jobs-steal holder _ h)))

  not-IsExclusive :
      (holder : Job) (js : List Job)
      → HolderCommits holder
      → ¬ IsExclusive (new_job env s ∷ holder ∷ js)
  not-IsExclusive holder js h all =
      h.another (sym (all.0.1.0 entry registered (sym h.video) (sym h.kind) refl h.active))

  -- The lock is held, no row of a job in progress is there yet, and its holder commits that row
  -- between the second look and the theft: then after the call two jobs of one type are in progress
  -- for the video.
  pub enqueue_job-not-IsExclusive :
      (holder : Job) (w : World N r.Db)
      → HolderCommits holder
      → r.get w.redis (lock_key s.video_id entry.lock_op) ≡ some holder.job_id
      → find_in_progress_job w.jobs s.video_id s.job_type ≡ none
      → ¬ IsExclusive (enqueue_job r env s w).1.jobs
  enqueue_job-not-IsExclusive holder w h own absent all =
      not-IsExclusive holder w.jobs h (subst IsExclusive (jobs-enqueue holder w h own absent) all)
