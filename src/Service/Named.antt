-- ===== src/Service/Named.antt =====
-- A job that `get_or_fetch` of src/app/transcript_service.py answers with is a Whisper job of the video
-- that was asked for, and has its row.
use yt_service.Prelude.{
  ℕ, zero, suc, ◌*◌, String, Bool-cases, Option, none, some, List, ◌≡◌, refl, inl, inr, Outcome, ok,
  raise, is_empty, Float,
}
use yt_service.Errors.{Error, Kind, job_in_progress}
use yt_service.Domain.{CaptionsResult, TranscriptRecord, TranscriptRequest}
use yt_service.Domain.Json.{ReadError}
use yt_service.World.{Redis, World, Job, Status, complete, failed, Transcript}
use yt_service.Jobs.Ledger.{get_job}
use yt_service.Jobs.Enqueuing.{enqueue_whisper}
use yt_service.Jobs.Named.{HasJob, Names, enqueue_job-Names}
use yt_service.Cache.{get_transcript, respond}
use yt_service.Service.{Reply, transcript, job_accepted, ServiceEnv, job_accepted_response}
use yt_service.Service.Waiting.{if_cached, by_status, look, poll, wait_for_job_completion}
use yt_service.Service.Fetching.{
  clamp_wait_seconds, forces_whisper, duration_of, over_limit, after_wait, refused, wait_if,
  after_enqueue, after_hook, fetch_by_whisper, after_captions, after_cache, resolve, get_or_fetch,
}
use yt_service.Service.About.{IsAbout, get_or_fetch-IsAbout}

-- A job that is answered has a row, of the video and of Whisper's type.
abbrev pub NamesJob : {N Db : Type 0} → String → Outcome Error (Reply N) × World N Db → Type 0
NamesJob v (ok (job_accepted a), w) = HasJob v "whisper" a.job_id w.jobs
NamesJob v _ = Unit

-- The wait ends with no answer that names a job, and has kept the row.
abbrev Waits :
    {N Db : Type 0} → String → String → Outcome Error (Option (Reply N)) × World N Db → Type 0
Waits v id (ok (some (job_accepted a)), w) = ⊥
Waits v id (ok none, w) = HasJob v "whisper" id w.jobs
Waits v id _ = Unit

module _ (f : Float) (r : Redis) (env : ServiceEnv f.Num (World f.Num r.Db)) where
  -- What others do in the pauses of the wait deletes no row of a job.
  pub record KeepsRows : Type 0 where
    pub kept :
        (n : ℕ) (w : World f.Num r.Db) (v t id : String)
        → HasJob v t id w.jobs
        → HasJob v t id (env.pause n w).jobs

  if_cached-Waits :
      (v id : String) (m : Outcome ReadError (Option (TranscriptRecord f.Num)) × World f.Num r.Db)
      → HasJob v "whisper" id m.1.jobs
      → Waits v id (if_cached f env m)
  if_cached-Waits v id (raise e, w) h = tt
  if_cached-Waits v id (ok none, w) h = h
  if_cached-Waits v id (ok (some c), w) h = tt

  respond-jobs :
      (o : Option (Transcript f.Num)) (w : World f.Num r.Db) (P : List Job → Type 0)
      → P w.jobs
      → P (respond f o w).1.jobs
  unfolding respond
  respond-jobs none w P h = h
  respond-jobs (some t) w P h = h

  look-Waits :
      (o : Option Job) (v l id : String) (w : World f.Num r.Db)
      → HasJob v "whisper" id w.jobs
      → Waits v id (look f env o v l w)
  unfolding look get_transcript
  look-Waits none v l id w h = h
  look-Waits (some job) v l id w h = by job.status
    where
      by : (s : Status) → Waits v id (by_status f env s job v l w)
      by complete =
          if_cached-Waits v id (get_transcript f env.now v l w)
            (respond-jobs _ w (HasJob v "whisper" id) h)
      by failed = tt
      by _ = h

  module _ (keeps : KeepsRows) where
    poll-Waits :
        (n : ℕ) (v l id : String) (w : World f.Num r.Db)
        → HasJob v "whisper" id w.jobs
        → Waits v id (poll f env n v l id w)
    unfolding poll
    poll-Waits zero v l id w h = h
    poll-Waits (suc n) v l id w h =
        let w1 = env.pause n w in
        looked (λ w2 h2. poll-Waits n v l id w2 h2) (look f env (get_job w1.jobs id) v l w1)
          (look-Waits (get_job w1.jobs id) v l id w1 (keeps.kept n w v "whisper" id h))
      where
        looked :
            ((w2 : World f.Num r.Db)
              → HasJob v "whisper" id w2.jobs
              → Waits v id (poll f env n v l id w2))
            → (m : Outcome Error (Option (Reply f.Num)) × World f.Num r.Db) → Waits v id m
            → Waits {N = f.Num} {Db = r.Db} v id (elim m.0 [
              | ok none ↦ poll f env n v l id m.1
              | ok (some reply) ↦ (ok (some reply), m.1)
              | raise e ↦ (raise e, m.1)
            ])
        looked rest (raise e, w2) k = tt
        looked rest (ok none, w2) k = rest w2 k
        looked rest (ok (some (transcript t)), w2) k = tt
        looked rest (ok (some (job_accepted a)), w2) k = k

    after_wait-NamesJob :
        (id v : String) (m : Outcome Error (Option (Reply f.Num)) × World f.Num r.Db)
        → Waits v id m
        → NamesJob v (after_wait f r env id v m)
    unfolding job_accepted_response
    after_wait-NamesJob id v (raise e, w) h = tt
    after_wait-NamesJob id v (ok (some (transcript t)), w) h = tt
    after_wait-NamesJob id v (ok (some (job_accepted a)), w) h = absurd h
    after_wait-NamesJob id v (ok none, w) h = h

    module _ (n : ℕ) (q : TranscriptRequest) where
      after_enqueue-NamesJob :
          (m : Outcome Error Job × World f.Num r.Db)
          → Names q.video_id "whisper" m
          → NamesJob q.video_id (after_enqueue f r env n q m)
      unfolding after_enqueue wait_for_job_completion job_accepted_response
      after_enqueue-NamesJob (ok job, w) h = waited n
        where
          waited : (k : ℕ) → NamesJob q.video_id (wait_if f r env k q job.job_id w)
          waited zero = h
          waited (suc k) =
              after_wait-NamesJob job.job_id q.video_id
                (poll f env (2 * suc k) q.video_id q.language job.job_id w)
                (poll-Waits (2 * suc k) q.video_id q.language job.job_id w h)
      after_enqueue-NamesJob (raise exc, w) h = by exc.kind
        where
          by : (k : Kind) → NamesJob q.video_id (refused f r env k q exc w)
          by job_in_progress = elim (Bool-cases (is_empty exc.existing_job_id)) [
            | inl e ↦ rw e tt
            | inr e ↦ rw e (h e)
          ]
          by _ = tt

      after_hook-NamesJob :
          (token : String) (m : Outcome Error (Unit {0}) × World f.Num r.Db)
          → NamesJob q.video_id (after_hook f r env n q token m)
      unfolding enqueue_whisper
      after_hook-NamesJob token (raise e, w) = tt
      after_hook-NamesJob token (ok u, w) =
          after_enqueue-NamesJob _ (enqueue_job-Names r env.contention _ w)

      fetch_by_whisper-NamesJob :
          (token : String) (w : World f.Num r.Db)
          → NamesJob q.video_id (fetch_by_whisper f r env n q token w)
      unfolding fetch_by_whisper
      fetch_by_whisper-NamesJob token w =
          elim (Bool-cases (
            over_limit f (duration_of f (env.fetch_video_metadata q.video_id))
              env.max_video_duration_seconds)) [
                | inl e ↦ rw e tt
                | inr e ↦ rw e (after_hook-NamesJob token _)
              ]

      after_captions-NamesJob :
          (token : String) (o : Outcome Error (Option (CaptionsResult f.Num)))
          (w : World f.Num r.Db)
          → NamesJob q.video_id (after_captions f r env n q token o w)
      unfolding after_captions
      after_captions-NamesJob token (raise e) w = tt
      after_captions-NamesJob token (ok none) w = fetch_by_whisper-NamesJob token w
      after_captions-NamesJob token (ok (some captions)) w = tt

      after_cache-NamesJob :
          (token : String)
          (m : Outcome ReadError (Option (TranscriptRecord f.Num)) × World f.Num r.Db)
          → NamesJob q.video_id (after_cache f r env n q token m)
      unfolding after_cache
      after_cache-NamesJob token (raise e, w) = tt
      after_cache-NamesJob token (ok (some cached), w) = tt
      after_cache-NamesJob token (ok none, w) =
          after_captions-NamesJob token (env.fetch_captions q.video_id q.language) w

      resolve-NamesJob :
          (token : String) (w : World f.Num r.Db)
          → NamesJob q.video_id (resolve f r env n q token w)
      unfolding resolve
      resolve-NamesJob token w = elim (Bool-cases (forces_whisper q.force)) [
        | inl e ↦ rw e (fetch_by_whisper-NamesJob token _)
        | inr e ↦ rw e (after_cache-NamesJob token _)
      ]

    -- A transcript that a request is answered with is of the video that it names. A job that it is
    -- answered with, new or found, has a row when the answer is given, of that video and of Whisper's
    -- type, as long as nothing that others do in the pauses of the wait deletes a row.
    pub get_or_fetch-NamesJob :
        (q : TranscriptRequest) (token : String) (w : World f.Num r.Db)
        → IsAbout q.video_id (get_or_fetch f r env q token w).0
          × NamesJob q.video_id (get_or_fetch f r env q token w)
    unfolding get_or_fetch
    get_or_fetch-NamesJob q token w =
        (get_or_fetch-IsAbout f r env q token w, clamped (clamp_wait_seconds q.wait_seconds) refl)
      where
        clamped :
            (o : Outcome Error ℕ)
            → clamp_wait_seconds q.wait_seconds ≡ o
            → NamesJob q.video_id (get_or_fetch f r env q token w)
        clamped (raise e) eq = rw (eq, get_or_fetch) tt
        clamped (ok n) eq = rw (eq, get_or_fetch) (resolve-NamesJob n q token w)
