-- ===== src/Service/Whispering.antt =====
-- What `get_or_fetch` of src/app/transcript_service.py answers when it goes to Whisper.
use yt_service.Prelude.{
  ℕ, String, false, none, some, ◌∷◌, [], ◌++◌, ◌≡◌, refl, ap, ◌∙◌, Outcome, ok, raise, is_empty,
  min, Float,
}
use yt_service.Errors.{Error, job_in_progress_error}
use yt_service.Errors.{Error}
use yt_service.Domain.{TranscriptRequest, whisper}
use yt_service.World.{Redis, World, Job, run_job}
use yt_service.Jobs.Ledger.{JobEntry, job_registry, find_in_progress_job}
use yt_service.Jobs.Locks.{lock_key}
use yt_service.Jobs.Enqueuing.{Submission, new_job, enqueue_whisper}
use yt_service.Jobs.Outcomes.{enqueue_job-IsAccepted, enqueue_job-IsDuplicate}
use yt_service.Service.{job_accepted, job_accepted_response, ServiceEnv, max_wait_seconds}
use yt_service.Service.Fetching.{
  clamp_wait_seconds, forces_whisper, forces_refresh, duration_of, over_limit, after_enqueue,
  run_hook, payload_of, after_hook, fetch_by_whisper, resolve, get_or_fetch,
}

abbrev whisper_entry : JobEntry
whisper_entry = record {
  queue = "whisper";
  task = "app.worker.run_whisper_job";
  lock_op = "whisper";
  estimated_seconds = 90;
}

min_zero : min 0 max_wait_seconds ≡ 0
min_zero = refl

registered : job_registry "whisper" ≡ some whisper_entry
unfolding job_registry
registered = refl

module _ (f : Float) (r : Redis) (env : ServiceEnv f.Num (World f.Num r.Db))
    (request : TranscriptRequest) (token : String) (w w1 : World f.Num r.Db) (n : ℕ) where
  -- The request forces Whisper, its video is not known to be too long, and the hook of the rate limit
  -- lets it pass and leaves the second state; without a hook that is the first.
  pub record AsksWhisper : Type 0 where
    pub waits : request.wait_seconds ≡ some n
    pub forces : request.force ≡ some whisper
    pub short :
        over_limit f
          (duration_of f (env.fetch_video_metadata request.video_id))
          env.max_video_duration_seconds
        ≡ false
    pub passes : run_hook f r env env.whisper_rate_limit_hook w ≡ (ok tt, w1)

  abbrev pub submission : Submission
  submission = record {
    video_id = request.video_id;
    job_type = "whisper";
    payload = payload_of f request;
    token_id = token;
  }

  resolve-forced :
      (limit : ℕ)
      → request.force ≡ some whisper
      → resolve f r env limit request token w ≡ fetch_by_whisper f r env limit request token w
  unfolding resolve
  resolve-forced limit forced = rw (ap forces_whisper forced, ap forces_refresh forced) refl

  fetch-passing :
      (limit : ℕ)
      → AsksWhisper
      → fetch_by_whisper f r env limit request token w
        ≡ after_enqueue f r env limit request
            (enqueue_whisper r env.contention (payload_of f request) token w1)
  unfolding fetch_by_whisper
  fetch-passing limit a = rw a.short (ap (λ m. after_hook f r env limit request token m) a.passes)

  forced-enqueue :
      AsksWhisper
      → get_or_fetch f r env request token w
        ≡ after_enqueue f r env
            (min n max_wait_seconds)
            request
            (enqueue_whisper r env.contention (payload_of f request) token w1)
  unfolding get_or_fetch
  forced-enqueue a =
      rw (ap clamp_wait_seconds a.waits, get_or_fetch)
        (resolve-forced (min n max_wait_seconds) a.forces
          ∙ fetch-passing (min n max_wait_seconds) a)

  answer-duplicate :
      (m : Outcome Error Job × World f.Num r.Db) (id url message : String) (limit : ℕ)
      → m.0 ≡ raise (job_in_progress_error id url message)
      → is_empty id ≡ false
      → after_enqueue f r env limit request m
        ≡ (ok (job_accepted (job_accepted_response id request.video_id "running")), m.1)
  unfolding after_enqueue job_in_progress_error
  answer-duplicate (o, v) id url message limit h named = rw (h, after_enqueue, named) refl

  answer-job :
      (m : Outcome Error Job × World f.Num r.Db) (job : Job)
      → m.0 ≡ ok job
      → after_enqueue f r env 0 request m
        ≡ (ok (job_accepted (job_accepted_response job.job_id request.video_id "queued")), m.1)
  unfolding after_enqueue
  answer-job (o, v) job h = rw (h, after_enqueue) refl

  -- A request that forces Whisper, whose wait is not negative, whose video is not known to be too long,
  -- and which the hook of the rate limit lets pass: if in the state that the hook leaves a Whisper job of the video is in
  -- progress and its lock is held, it is answered at once with the id of such a job, and of that state
  -- neither the jobs nor the queues change.
  pub get_or_fetch_joins :
      (owner : String) (j : Job)
      → AsksWhisper
      → r.get w1.redis (lock_key request.video_id "whisper") ≡ some owner
      → find_in_progress_job w1.jobs request.video_id "whisper" ≡ some j
      → is_empty j.job_id ≡ false
      → ((get_or_fetch f r env request token w).0
          ≡ ok (job_accepted (job_accepted_response j.job_id request.video_id "running")))
        × ((get_or_fetch f r env request token w).1.jobs ≡ w1.jobs)
        × ((get_or_fetch f r env request token w).1.tasks ≡ w1.tasks)
  unfolding enqueue_whisper
  get_or_fetch_joins owner j a held found named =
      let out =
        enqueue_job-IsDuplicate r env.contention submission whisper_entry registered w1 owner j held
          found in
      rw
        (
          forced-enqueue a,
          answer-duplicate (enqueue_whisper r env.contention (payload_of f request) token w1) _ _ _
              (min n max_wait_seconds) out.raised named,
        )
        (refl, out.jobs, out.tasks)

  -- A request that forces Whisper and does not wait, whose video is not known to be too long, and which
  -- the hook of the rate limit lets pass: if in the state that the hook leaves the lock is free, and RQ
  -- takes the task, it is answered with the id of its new job: one row and one task are added for it to
  -- that state, and the lock is its own.
  pub get_or_fetch_enqueues :
      AsksWhisper
      → n ≡ 0
      → r.get w1.redis (lock_key request.video_id "whisper") ≡ none
      → env.contention.rq_error ≡ none
      → ((get_or_fetch f r env request token w).0
          ≡ ok (
              job_accepted (job_accepted_response env.contention.job_id request.video_id "queued")))
        × ((get_or_fetch f r env request token w).1.jobs
            ≡ new_job env.contention submission ∷ w1.jobs)
        × ((get_or_fetch f r env request token w).1.tasks
            ≡ w1.tasks ++ run_job "whisper" "app.worker.run_whisper_job" env.contention.job_id ∷ [])
        × (r.get
              (get_or_fetch f r env request token w).1.redis
              (lock_key request.video_id "whisper")
            ≡ some env.contention.job_id)
  unfolding enqueue_whisper
  get_or_fetch_enqueues a now free takes =
      let out =
        enqueue_job-IsAccepted r env.contention submission whisper_entry registered w1 free takes in
      rw (forced-enqueue a, now)
        (rw
          (
            min_zero,
            answer-job (enqueue_whisper r env.contention (payload_of f request) token w1)
                (new_job env.contention submission) out.returned,
          )
          (refl, out.row, out.task, out.lock))
