-- ===== src/Jobs/Covered.antt =====
-- `enqueue_job` of src/app/jobs.py keeps every job in progress in possession of its lock.
use yt_service.Prelude.{
  String, true, Bool-cases, Option, none, some, Option-cases, List, [], ◌∷◌, ◌≡◌, sym, ap, inl, inr,
  arith, str_cat, All, All-map, raise, if◌then◌else◌,
}
use yt_service.Errors.{Error}
use yt_service.World.{Redis, World, Job}
use yt_service.Jobs.Ledger.{
  JobEntry, job_registry, is_in_progress, find_in_progress_job, mark_failed,
}
use yt_service.Jobs.Locks.{default_lock_ttl_seconds, lock_key, acquire_lock, steal_stale_lock}
use yt_service.Jobs.Keys.{lock_key-injective}
use yt_service.Jobs.Enqueuing.{
  Contention, Submission, new_job, hand_to_rq, insert_and_enqueue, steal_and_retry, contend,
  enqueue_job,
}
use yt_service.Jobs.Exclusion.{
  HoldsLock, IsCovered, Occupies, find-none, HoldsLock-acquire, HoldsLock-delete, get-acquire,
}
use yt_service.Jobs.Settling.{mark_failed-Settled, redis-mark_failed, All-release}

-- What other processes do keeps the locks covered, and none of them acts between the second look for
-- a job and the theft of the lock.
pub record IsFair {N : Type 0} (r : Redis) (env : Contention (World N r.Db)) : Type 0 where
  pub sleeping : (w : World N r.Db) → IsCovered r w → IsCovered r (env.sleeping w)
  pub before_steal : (w : World N r.Db) → env.before_steal w ≡ w
  pub after_steal : (w : World N r.Db) → IsCovered r w → IsCovered r (env.after_steal w)

module _ {N : Type 0} (r : Redis) (env : Contention (World N r.Db)) (s : Submission)
    (entry : JobEntry) (registered : job_registry s.job_type ≡ some entry) where
  new_job-HoldsLock :
      (db : r.Db)
      → r.get db (lock_key s.video_id entry.lock_op) ≡ some env.job_id
      → HoldsLock r db (new_job env s)
  new_job-HoldsLock db h e he hp = ground (arith, h, he, registered)

  hand_to_rq-IsCovered :
      (refusal : Option (String × String)) (w : World N r.Db)
      → IsCovered r w
      → IsCovered r (hand_to_rq r refusal env s entry w).1
  unfolding hand_to_rq
  hand_to_rq-IsCovered none w h = record { locks = h.locks }
  hand_to_rq-IsCovered (some (name, text)) w h =
      let message = str_cat "enqueue failed: " (str_cat name (str_cat ": " text)) in
      record {
        locks =
            All-release r (mark_failed env.now env.job_id message w).redis s.video_id entry.lock_op
              env.job_id (mark_failed env.now env.job_id message w).jobs
              (rw (redis-mark_failed r env.now env.job_id w message) (
                mark_failed-Settled r env.now env.job_id w message
                  (All-map w.jobs (λ j hj other. hj) h.locks)));
      }

  insert_and_enqueue-IsCovered :
      (w : World N r.Db)
      → r.get w.redis (lock_key s.video_id entry.lock_op) ≡ some env.job_id
      → IsCovered r w
      → IsCovered r (insert_and_enqueue r env s entry w).1
  unfolding insert_and_enqueue
  insert_and_enqueue-IsCovered w owned h =
      hand_to_rq-IsCovered env.rq_error (record w { jobs = new_job env s ∷ w.jobs })
        (record { locks = (new_job-HoldsLock w.redis owned, h.locks) })

  -- Taking the lock, or failing to.
  acquire-IsCovered :
      (w : World N r.Db)
      → IsCovered r w
      → IsCovered r (record w {
        redis =
            (acquire_lock r w.redis s.video_id entry.lock_op env.job_id default_lock_ttl_seconds).1;
      })
  acquire-IsCovered w h = record {
    locks =
        All-map w.jobs
          (λ j.
            HoldsLock-acquire r w.redis s.video_id entry.lock_op env.job_id default_lock_ttl_seconds
              j)
          h.locks;
  }

  -- A lock with no job behind it can go.
  steal-IsCovered :
      (w : World N r.Db)
      → find_in_progress_job w.jobs s.video_id s.job_type ≡ none
      → IsCovered r w
      → IsCovered r (record w { redis = steal_stale_lock r w.redis s.video_id entry.lock_op })
  unfolding steal_stale_lock
  steal-IsCovered w absent h = record {
    locks = free w.jobs (find-none s.video_id s.job_type w.jobs absent) h.locks;
  }
    where
      free :
          (js : List Job)
          → All (λ j. ¬ Occupies s.video_id s.job_type j) js
          → All (HoldsLock r w.redis) js
          → All (HoldsLock r (r.delete w.redis (lock_key s.video_id entry.lock_op))) js
      free [] a b = tt
      free (j ∷ js) a b = (
        HoldsLock-delete r w.redis (lock_key s.video_id entry.lock_op) j
            (λ e he hp same.
              let (v, t) =
                lock_key-injective s.video_id j.video_id s.job_type j.job_type entry e registered he
                  same in
              a.0 (sym v, sym t, hp))
            b.0,
        free js a.1 b.1,
      )

  -- One attempt at the lock, and the insertion if it succeeds.
  attempt-IsCovered :
      (w : World N r.Db) (refusal : Error)
      → IsCovered r w
      → IsCovered r
          (let taken =
              acquire_lock r w.redis s.video_id entry.lock_op env.job_id default_lock_ttl_seconds in
            let w' : World N r.Db = record w { redis = taken.1 } in
            if taken.0 then insert_and_enqueue r env s entry w' else (raise refusal, w')).1
  attempt-IsCovered w refusal h =
      let ttl = default_lock_ttl_seconds in
      elim (Bool-cases (acquire_lock r w.redis s.video_id entry.lock_op env.job_id ttl).0) [
        | inl e ↦ rw e (
            insert_and_enqueue-IsCovered _
              (get-acquire r w.redis s.video_id entry.lock_op env.job_id ttl e)
              (acquire-IsCovered w h))
        | inr e ↦ rw e (acquire-IsCovered w h)
      ]

  module _ (fair : IsFair r env) where
    steal_and_retry-IsCovered :
        (w : World N r.Db)
        → find_in_progress_job w.jobs s.video_id s.job_type ≡ none
        → IsCovered r w
        → IsCovered r (steal_and_retry r env s entry w).1
    unfolding steal_and_retry
    steal_and_retry-IsCovered w absent h =
        rw (fair.before_steal w)
          (attempt-IsCovered _ _ (fair.after_steal _ (steal-IsCovered w absent h)))

    contend-IsCovered : (w : World N r.Db) → IsCovered r w → IsCovered r (contend r env s entry w).1
    unfolding contend
    contend-IsCovered w h =
        elim (Option-cases (find_in_progress_job w.jobs s.video_id s.job_type)) [
          | inr (j, e) ↦ rw (e, contend) h
          | inl e ↦
              elim (Option-cases
                (find_in_progress_job (env.sleeping w).jobs s.video_id s.job_type)) [
                  | inr (j, e') ↦ rw (e, e', contend) (fair.sleeping w h)
                  | inl e' ↦
                      rw (e, e', contend)
                        (steal_and_retry-IsCovered (env.sleeping w) e' (fair.sleeping w h))
                ]
        ]

module _ {N : Type 0} (r : Redis) (env : Contention (World N r.Db)) (s : Submission) where
  submit-IsCovered :
      (entry : JobEntry)
      → job_registry s.job_type ≡ some entry
      → IsFair r env
      → (w : World N r.Db) → IsCovered r w
      → IsCovered r (enqueue_job r env s w).1
  unfolding enqueue_job
  submit-IsCovered entry e fair w h =
      let ttl = default_lock_ttl_seconds in
      let taken = acquire_lock r w.redis s.video_id entry.lock_op env.job_id ttl in
      let h' = acquire-IsCovered r env s entry e w h in
      elim (Bool-cases taken.0) [
        | inl free ↦
            rw (e, free, enqueue_job)
              (insert_and_enqueue-IsCovered r env s entry e _
                (get-acquire r w.redis s.video_id entry.lock_op env.job_id ttl free) h')
        | inr held ↦ rw (e, held, enqueue_job) (contend-IsCovered r env s entry e fair _ h')
      ]

  -- If every job in progress owns its lock, then so it is after any call of `enqueue_job`, whichever
  -- way the call ends, as long as the other processes keep it so and none acts between the second
  -- look and the theft.
  pub enqueue_job-IsCovered :
      IsFair r env → (w : World N r.Db) → IsCovered r w → IsCovered r (enqueue_job r env s w).1
  enqueue_job-IsCovered fair w h = elim (Option-cases (job_registry s.job_type)) [
    | inl e ↦ unfold enqueue_job in rw (e, enqueue_job) h
    | inr (entry, e) ↦ submit-IsCovered entry e fair w h
  ]

-- Any two jobs in progress for one video and type are one job.
abbrev pub IsExclusive : List Job → Type 0
IsExclusive js =
    All
      (λ i.
        All
          (λ j.
            (e : JobEntry)
            → job_registry i.job_type ≡ some e
            → i.video_id ≡ j.video_id
            → i.job_type ≡ j.job_type
            → is_in_progress i.status ≡ true
            → is_in_progress j.status ≡ true
            → i.job_id ≡ j.job_id)
          js)
      js

-- While every job in progress owns its lock, a video has at most one job in progress of each type.
pub IsCovered-IsExclusive :
    {N : Type 0} (r : Redis) (w : World N r.Db) → IsCovered r w → IsExclusive w.jobs
IsCovered-IsExclusive r w h =
    All-map w.jobs
      (λ i hi.
        All-map w.jobs
          (λ j hj e he sv st pi pj.
            ground (arith, hi e he pi, hj e (cc (he, st)) pj, ap (λ v. lock_key v e.lock_op) sv))
          h.locks)
      h.locks
