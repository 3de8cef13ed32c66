-- ===== src/Jobs/Outcomes.antt =====
-- What `enqueue_job` of src/app/jobs.py does on each of its ways out.
use text.Mathlib.Text.{◌==◌}
use text.Mathlib.TextEquality.{eq_iff}
use text.Mathlib.TextPositions.{eq_refl}
use yt_service.Prelude.{
  String, true, false, Bool-cases, none, some, [], ◌∷◌, ◌++◌, ◌≡◌, ◌≢◌, sym, refl, inl, inr, arith,
  Outcome, ok, raise, str_cat,
}
use yt_service.Errors.{Error, exception, job_in_progress_error}
use yt_service.World.{Redis, World, Job, run_job, failed}
use yt_service.Jobs.Ledger.{
  JobEntry, job_registry, find_in_progress_job, get_job, mark_failed, poll_url_for,
}
use yt_service.Jobs.Locks.{
  default_lock_ttl_seconds, lock_key, acquire_lock, release_script, release_lock,
}
use yt_service.Jobs.Enqueuing.{
  Contention, Submission, new_job, hand_to_rq, insert_and_enqueue, contend, enqueue_job,
}
use yt_service.Jobs.Exclusion.{Occupies, get-acquire, find-some}

module _ {N : Type 0} (r : Redis) (env : Contention (World N r.Db)) (s : Submission)
    (entry : JobEntry) (registered : job_registry s.job_type ≡ some entry) (w : World N r.Db) where
  abbrev pub key : String
  key = lock_key s.video_id entry.lock_op

  abbrev pub refused_job : String → Job
  refused_job message = record (new_job env s) {
    status = failed;
    finished_at = some env.now;
    error = some message;
  }

  -- The new job is returned, its row and its task are added, the lock is the job's, and no other lock
  -- and no transcript changes.
  pub record IsAccepted (out : Outcome Error Job × World N r.Db) : Type 0 where
    pub returned : out.0 ≡ ok (new_job env s)
    pub row : out.1.jobs ≡ new_job env s ∷ w.jobs
    pub task : out.1.tasks ≡ w.tasks ++ run_job entry.queue entry.task env.job_id ∷ []
    pub lock : r.get out.1.redis key ≡ some env.job_id
    pub locks : (k : String) → k ≢ key → r.get out.1.redis k ≡ r.get w.redis k
    pub transcripts : out.1.transcripts ≡ w.transcripts

  -- The exception of RQ is raised, the job's row stays as failed with the reason, no task is added,
  -- and the locks are those of before.
  pub record IsRefused (name text : String) (out : Outcome Error Job × World N r.Db) : Type 0 where
    pub raised : out.0 ≡ raise (exception name text)
    pub row :
        get_job out.1.jobs env.job_id
        ≡ some (refused_job (str_cat "enqueue failed: " (str_cat name (str_cat ": " text))))
    pub tasks : out.1.tasks ≡ w.tasks
    pub locks : (k : String) → r.get out.1.redis k ≡ r.get w.redis k

  -- The error names the job, which is in progress for the same video and type, and nothing changes.
  pub record IsDuplicate (existing : Job) (out : Outcome Error Job × World N r.Db) : Type 0 where
    pub occupies : Occupies s.video_id s.job_type existing
    pub raised :
        out.0
        ≡ raise (
            job_in_progress_error existing.job_id
              (poll_url_for existing.job_id)
              (str_cat s.job_type " job already running for video"))
    pub jobs : out.1.jobs ≡ w.jobs
    pub tasks : out.1.tasks ≡ w.tasks
    pub locks : (k : String) → r.get out.1.redis k ≡ r.get w.redis k

  acquired :
      r.get w.redis key ≡ none
      → (acquire_lock r w.redis s.video_id entry.lock_op env.job_id default_lock_ttl_seconds).0
        ≡ true
  unfolding acquire_lock
  acquired free = ground (arith, r.set_done w.redis key env.job_id default_lock_ttl_seconds)

  enqueue-free :
      r.get w.redis key ≡ none
      → enqueue_job r env s w
        ≡ insert_and_enqueue r env s entry (record w {
          redis =
              (acquire_lock r w.redis s.video_id entry.lock_op env.job_id
                default_lock_ttl_seconds).1;
        })
  unfolding enqueue_job
  enqueue-free free = rw (registered, acquired free, enqueue_job)

  free-others :
      (k : String)
      → k ≢ key
      → r.get
          (acquire_lock r w.redis s.video_id entry.lock_op env.job_id default_lock_ttl_seconds).1
          k
        ≡ r.get w.redis k
  unfolding acquire_lock
  free-others k other =
      ground
        (arith, r.get-set w.redis key env.job_id default_lock_ttl_seconds k, eq_iff key k, other)

  -- If the lock is free and RQ takes the task, the call returns the new job: its row is put before
  -- the others, one task is added on the queue of its type, its lock is its own, and the other locks
  -- and the cache are those of before.
  pub enqueue_job-IsAccepted :
      r.get w.redis key ≡ none → env.rq_error ≡ none → IsAccepted (enqueue_job r env s w)
  unfolding insert_and_enqueue hand_to_rq
  enqueue_job-IsAccepted free accepts =
      rw (enqueue-free free, accepts)
        (record {
          returned = refl;
          row = refl;
          task = refl;
          lock =
              get-acquire r w.redis s.video_id entry.lock_op env.job_id default_lock_ttl_seconds
                (acquired free);
          locks = free-others;
          transcripts = refl;
        })

  -- What a release by the new job leaves of a lock that it took when it was free.
  get-release :
      (k : String)
      → r.get w.redis key ≡ none
      → r.get
          (release_lock r
            (acquire_lock r w.redis s.video_id entry.lock_op env.job_id default_lock_ttl_seconds).1
            s.video_id
            entry.lock_op
            (some env.job_id)).1
          k
        ≡ r.get w.redis k
  unfolding release_lock
  get-release k free =
      let ttl = default_lock_ttl_seconds in
      let db = (acquire_lock r w.redis s.video_id entry.lock_op env.job_id ttl).1 in
      rw
        (
          get-acquire r w.redis s.video_id entry.lock_op env.job_id ttl (acquired free),
          release_script,
          eq_refl,
        )
        (elim (Bool-cases (key == k)) [
          | inl same ↦ rw (r.get-delete db key k, same, ← (eq_iff key k).0 same) (sym free)
          | inr other ↦
              rw (r.get-delete db key k, other)
                (free-others k (λ e. cc (other, (eq_iff key k).1 (sym e))))
        ])

  -- If the lock is free and RQ refuses the task, RQ's exception is raised, the job's row stays as
  -- failed with the reason, no task is added, and every lock is as before.
  pub enqueue_job-IsRefused :
      (name text : String)
      → r.get w.redis key ≡ none
      → env.rq_error ≡ some (name, text)
      → IsRefused name text (enqueue_job r env s w)
  unfolding insert_and_enqueue hand_to_rq mark_failed get_job
  enqueue_job-IsRefused name text free refuses =
      rw (enqueue-free free, refuses)
        (record {
          raised = refl;
          row = rw eq_refl (rw eq_refl refl);
          tasks = rw eq_refl refl;
          locks = λ k. rw eq_refl (get-release k free);
        })

  held :
      (owner : String)
      → r.get w.redis key ≡ some owner
      → (acquire_lock r w.redis s.video_id entry.lock_op env.job_id default_lock_ttl_seconds).0
        ≡ false
  unfolding acquire_lock
  held owner own = ground (arith, r.set_done w.redis key env.job_id default_lock_ttl_seconds)

  held-locks :
      (owner k : String)
      → r.get w.redis key ≡ some owner
      → r.get
          (acquire_lock r w.redis s.video_id entry.lock_op env.job_id default_lock_ttl_seconds).1
          k
        ≡ r.get w.redis k
  unfolding acquire_lock
  held-locks owner k own =
      ground (arith, r.get-set w.redis key env.job_id default_lock_ttl_seconds k)

  -- If the lock is held and the look-up finds a job of the video and type, the error names that job,
  -- which is in progress for them, and the rows, the queues and the locks do not change.
  pub enqueue_job-IsDuplicate :
      (owner : String) (j : Job)
      → r.get w.redis key ≡ some owner
      → find_in_progress_job w.jobs s.video_id s.job_type ≡ some j
      → IsDuplicate j (enqueue_job r env s w)
  unfolding enqueue_job contend
  enqueue_job-IsDuplicate owner j own found =
      rw (registered, held owner own, enqueue_job, found, contend)
        (record {
          occupies = find-some s.video_id s.job_type w.jobs j found;
          raised = refl;
          jobs = refl;
          tasks = refl;
          locks = λ k. held-locks owner k own;
        })
