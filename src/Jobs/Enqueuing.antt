-- ===== src/Jobs/Enqueuing.antt =====
-- src/app/jobs.py: `enqueue_job` and its two callers. Each function takes the world and returns the
-- new one; what other processes do while the coroutine waits is an argument, `Contention`.
use yt_service.Prelude.{
  ℕ, String, false, Option, none, some, [], ◌∷◌, ◌++◌, Outcome, ok, raise, str_cat, if◌then◌else◌,
}
use yt_service.Errors.{Error, exception, job_in_progress_error}
use yt_service.Domain.{JobPayload}
use yt_service.World.{Redis, World, Job, queued, run_job}
use yt_service.Jobs.Ledger.{JobEntry, job_registry, poll_url_for, find_in_progress_job, mark_failed}
use yt_service.Jobs.Locks.{default_lock_ttl_seconds, acquire_lock, release_lock, steal_stale_lock}

-- What a call of `enqueue_job` meets: its fresh id, the clock, what other processes do during the
-- sleep, between the second look and the theft, and after the theft, and the class and text of the
-- exception that RQ raises, if any.
pub record Contention (W : Type 0) : Type 0 where
  pub job_id : String
  pub now : ℕ
  pub sleeping : W → W
  pub before_steal : W → W
  pub after_steal : W → W
  pub rq_error : Option (String × String)

pub record Submission : Type 0 where
  pub video_id : String
  pub job_type : String
  pub payload : JobPayload
  pub token_id : String

abbrev pub new_job : {W : Type 0} → Contention W → Submission → Job
new_job env s = record {
  job_id = env.job_id;
  video_id = s.video_id;
  job_type = s.job_type;
  status = queued;
  started_at = none;
  finished_at = none;
  error = none;
  token_id = s.token_id;
  callback_url = s.payload.callback_url;
  payload = some s.payload;
  created_at = env.now;
}

abbrev already_running : Submission → Job → Error
already_running s existing =
    job_in_progress_error existing.job_id (poll_url_for existing.job_id)
      (str_cat s.job_type " job already running for video")

module _ {N : Type 0} (r : Redis) where
  -- Hand the task to RQ; a refusal fails the row and frees the lock.
  unfoldable pub hand_to_rq :
      Option (String × String)
      → Contention (World N r.Db)
      → Submission
      → JobEntry
      → World N r.Db
      → Outcome Error Job × World N r.Db
  unfolding mark_failed release_lock exception
  hand_to_rq none env s entry w = (
    ok (new_job env s),
    record w { tasks = w.tasks ++ run_job entry.queue entry.task env.job_id ∷ [] },
  )
  hand_to_rq (some (name, text)) env s entry w =
      let message = str_cat "enqueue failed: " (str_cat name (str_cat ": " text)) in
      let w' = mark_failed env.now env.job_id message w in
      (
        raise (exception name text),
        record w' {
          redis = (release_lock r w'.redis s.video_id entry.lock_op (some env.job_id)).1;
        },
      )

  -- Insert and commit the row first, so that the worker can see it.
  unfoldable pub insert_and_enqueue :
      Contention (World N r.Db)
      → Submission
      → JobEntry
      → World N r.Db
      → Outcome Error Job × World N r.Db
  unfolding hand_to_rq
  insert_and_enqueue env s entry w =
      hand_to_rq env.rq_error env s entry (record w { jobs = new_job env s ∷ w.jobs })

  -- The lock is held and twice no row was found: steal it and try once more.
  unfoldable pub steal_and_retry :
      Contention (World N r.Db)
      → Submission
      → JobEntry
      → World N r.Db
      → Outcome Error Job × World N r.Db
  unfolding insert_and_enqueue steal_stale_lock acquire_lock job_in_progress_error
  steal_and_retry env s entry w =
      let w1 = env.before_steal w in
      let stolen : World N r.Db = record w1 {
        redis = steal_stale_lock r w1.redis s.video_id entry.lock_op;
      } in
      let w2 = env.after_steal stolen in
      let (acquired, db) =
        acquire_lock r w2.redis s.video_id entry.lock_op env.job_id default_lock_ttl_seconds in
      let w3 : World N r.Db = record w2 { redis = db } in
      if acquired then insert_and_enqueue env s entry w3 else (
        raise (job_in_progress_error "" "" (str_cat s.job_type " lock held but no job row found")),
        w3,
      )

  -- The lock is held: look for the job that holds it, twice.
  unfoldable pub contend :
      Contention (World N r.Db)
      → Submission
      → JobEntry
      → World N r.Db
      → Outcome Error Job × World N r.Db
  unfolding job_in_progress_error poll_url_for
  contend env s entry w = elim (find_in_progress_job w.jobs s.video_id s.job_type) [
    | some existing ↦ (raise (already_running s existing), w)
    | none ↦
        let w1 = env.sleeping w in
        elim (find_in_progress_job w1.jobs s.video_id s.job_type) [
          | some existing ↦ (raise (already_running s existing), w1)
          | none ↦ steal_and_retry env s entry w1
        ]
  ]

  unfoldable pub enqueue_job :
      Contention (World N r.Db) → Submission → World N r.Db → Outcome Error Job × World N r.Db
  unfolding acquire_lock exception
  enqueue_job env s w = elim (job_registry s.job_type) [
    | none ↦ (raise (exception "ValueError" (str_cat "unknown job_type: " s.job_type)), w)
    | some entry ↦
        let (acquired, db) =
          acquire_lock r w.redis s.video_id entry.lock_op env.job_id default_lock_ttl_seconds in
        let w1 : World N r.Db = record w { redis = db } in
        if acquired then insert_and_enqueue env s entry w1 else contend env s entry w1
  ]

  unfoldable pub enqueue_whisper :
      Contention (World N r.Db)
      → JobPayload
      → String
      → World N r.Db
      → Outcome Error Job × World N r.Db
  enqueue_whisper env payload token_id = enqueue_job env (record {
    video_id = payload.video_id;
    job_type = "whisper";
    payload = payload;
    token_id = token_id;
  })

  unfoldable pub enqueue_diarization :
      Contention (World N r.Db)
      → String
      → String
      → String
      → World N r.Db
      → Outcome Error Job × World N r.Db
  enqueue_diarization env video_id token_id language = enqueue_job env (record {
    video_id = video_id;
    job_type = "enrichment";
    payload = record {
      video_id = video_id;
      language = language;
      force_whisper = false;
      include = "speakers" ∷ [];
      callback_url = none;
    };
    token_id = token_id;
  })
