-- ===== src/Service/Keeping.antt =====
-- What `get_or_fetch` of src/app/transcript_service.py keeps: every predicate that its call of
-- `enqueue_job`, the hook of the rate limit, and the others in the pauses of the wait keep, and that
-- does not look at the cache.
use yt_service.Prelude.{
  ℕ, zero, suc, ◌*◌, String, Bool-cases, Option, none, some, List, ◌≡◌, refl, inl, inr, Outcome, ok,
  raise, is_empty, Float,
}
use yt_service.Errors.{Error, Kind, job_in_progress}
use yt_service.Domain.{CaptionsResult, JobPayload, TranscriptRecord, TranscriptRequest}
use yt_service.Domain.Json.{ReadError}
use yt_service.World.{Redis, World, Job, Status, complete, failed, Transcript}
use yt_service.Jobs.Ledger.{get_job}
use yt_service.Jobs.Enqueuing.{enqueue_whisper}
use yt_service.Cache.{get_transcript, respond, put_transcript, purge_transcript}
use yt_service.Service.{Reply, ServiceEnv}
use yt_service.Service.Waiting.{if_cached, by_status, look, poll, wait_for_job_completion}
use yt_service.Service.Fetching.{
  clamp_wait_seconds, forces_whisper, forces_refresh, duration_of, over_limit, after_wait, wait_if,
  refused, payload_of, after_enqueue, run_hook, after_hook, fetch_by_whisper, after_captions,
  after_cache, purged, resolve, get_or_fetch,
}

pub record Keeps (f : Float) (r : Redis) (env : ServiceEnv f.Num (World f.Num r.Db))
    (P : World f.Num r.Db → Type 0) : Type 0 where
  pub enqueue :
      (payload : JobPayload) (token : String) (w : World f.Num r.Db)
      → P w
      → P (enqueue_whisper r env.contention payload token w).1
  pub hook :
      (h : World f.Num r.Db → Outcome Error (Unit {0}) × World f.Num r.Db) (w : World f.Num r.Db)
      → env.whisper_rate_limit_hook ≡ some h
      → P w
      → P (h w).1
  pub pause : (n : ℕ) (w : World f.Num r.Db) → P w → P (env.pause n w)
  pub cache :
      (ts : List (Transcript f.Num)) (hits misses : ℕ) (w : World f.Num r.Db)
      → P w
      → P (record w { transcripts = ts; cache_hits = hits; cache_misses = misses })

module _ (f : Float) (r : Redis) (env : ServiceEnv f.Num (World f.Num r.Db))
    (P : World f.Num r.Db → Type 0) (keeps : Keeps f r env P) where
  respond-keeps : (o : Option (Transcript f.Num)) (w : World f.Num r.Db) → P w → P (respond f o w).1
  unfolding respond
  respond-keeps none w h = keeps.cache _ _ _ _ h
  respond-keeps (some t) w h = keeps.cache _ _ _ _ h

  get_transcript-keeps :
      (now : ℕ) (v l : String) (w : World f.Num r.Db) → P w → P (get_transcript f now v l w).1
  unfolding get_transcript
  get_transcript-keeps now v l w h = respond-keeps _ w h

  if_cached-keeps :
      (m : Outcome ReadError (Option (TranscriptRecord f.Num)) × World f.Num r.Db)
      → P m.1
      → P (if_cached f env m).1
  if_cached-keeps (raise e, w) h = h
  if_cached-keeps (ok none, w) h = h
  if_cached-keeps (ok (some c), w) h = h

  look-keeps :
      (o : Option Job) (v l : String) (w : World f.Num r.Db) → P w → P (look f env o v l w).1
  unfolding look
  look-keeps none v l w h = h
  look-keeps (some job) v l w h = status job.status
    where
      status : (s : Status) → P (by_status f env s job v l w).1
      status complete = if_cached-keeps _ (get_transcript-keeps env.now v l w h)
      status failed = h
      status _ = h

  poll-keeps : (n : ℕ) (v l id : String) (w : World f.Num r.Db) → P w → P (poll f env n v l id w).1
  unfolding poll
  poll-keeps zero v l id w h = h
  poll-keeps (suc n) v l id w h =
      let w1 = env.pause n w in
      looked (λ w2. poll-keeps n v l id w2) _ refl
        (look-keeps (get_job w1.jobs id) v l w1 (keeps.pause n w h))
    where
      looked :
          ((w2 : World f.Num r.Db) → P w2 → P (poll f env n v l id w2).1)
          → (m : Outcome Error (Option (Reply f.Num)) × World f.Num r.Db)
          → look f env (get_job (env.pause n w).jobs id) v l (env.pause n w) ≡ m
          → P m.1
          → P (poll f env (suc n) v l id w).1
      looked rest (raise e, w2) eq h' = rw (poll, eq) (rw eq h')
      looked rest (ok (some reply), w2) eq h' = rw (poll, eq) (rw eq h')
      looked rest (ok none, w2) eq h' = rw (poll, eq) (rw eq (rest w2 h'))

  after_wait-keeps :
      (id v : String) (m : Outcome Error (Option (Reply f.Num)) × World f.Num r.Db)
      → P m.1
      → P (after_wait f r env id v m).1
  after_wait-keeps id v (raise e, w) h = h
  after_wait-keeps id v (ok (some reply), w) h = h
  after_wait-keeps id v (ok none, w) h = h

  wait_if-keeps :
      (n : ℕ) (request : TranscriptRequest) (id : String) (w : World f.Num r.Db)
      → P w
      → P (wait_if f r env n request id w).1
  wait_if-keeps zero request id w h = h
  wait_if-keeps (suc n) request id w h =
      unfold wait_for_job_completion in
      after_wait-keeps id request.video_id _
        (poll-keeps (2 * suc n) request.video_id request.language id w h)

  after_enqueue-keeps :
      (n : ℕ) (request : TranscriptRequest) (m : Outcome Error Job × World f.Num r.Db)
      → P m.1
      → P (after_enqueue f r env n request m).1
  unfolding after_enqueue
  after_enqueue-keeps n request (ok job, w) h = wait_if-keeps n request job.job_id w h
  after_enqueue-keeps n request (raise exc, w) h = by_kind exc.kind
    where
      by_kind : (k : Kind) → P (refused f r env k request exc w).1
      by_kind job_in_progress = elim (Bool-cases (is_empty exc.existing_job_id)) [
        | inl e ↦ rw e h
        | inr e ↦ rw e h
      ]
      by_kind _ = h

  after_hook-keeps :
      (n : ℕ) (request : TranscriptRequest) (token : String)
      (m : Outcome Error (Unit {0}) × World f.Num r.Db)
      → P m.1
      → P (after_hook f r env n request token m).1
  after_hook-keeps n request token (raise e, w) h = h
  after_hook-keeps n request token (ok u, w) h =
      after_enqueue-keeps n request _ (keeps.enqueue (payload_of f request) token w h)

  run_hook-keeps :
      (o : Option (World f.Num r.Db → Outcome Error (Unit {0}) × World f.Num r.Db))
      (w : World f.Num r.Db)
      → env.whisper_rate_limit_hook ≡ o
      → P w
      → P (run_hook f r env o w).1
  run_hook-keeps none w e h = h
  run_hook-keeps (some hook) w e h = keeps.hook hook w e h

  fetch_by_whisper-keeps :
      (n : ℕ) (request : TranscriptRequest) (token : String) (w : World f.Num r.Db)
      → P w
      → P (fetch_by_whisper f r env n request token w).1
  unfolding fetch_by_whisper
  fetch_by_whisper-keeps n request token w h =
      let long =
        over_limit f (duration_of f (env.fetch_video_metadata request.video_id))
          env.max_video_duration_seconds in
      elim (Bool-cases long) [
        | inl e ↦ rw e h
        | inr e ↦ rw e (
            after_hook-keeps n request token _
              (run_hook-keeps env.whisper_rate_limit_hook w refl h))
      ]

  after_captions-keeps :
      (n : ℕ) (request : TranscriptRequest) (token : String)
      (o : Outcome Error (Option (CaptionsResult f.Num))) (w : World f.Num r.Db)
      → P w
      → P (after_captions f r env n request token o w).1
  unfolding after_captions put_transcript
  after_captions-keeps n request token (raise e) w h = h
  after_captions-keeps n request token (ok none) w h = fetch_by_whisper-keeps n request token w h
  after_captions-keeps n request token (ok (some captions)) w h = keeps.cache _ _ _ _ h

  after_cache-keeps :
      (n : ℕ) (request : TranscriptRequest) (token : String)
      (m : Outcome ReadError (Option (TranscriptRecord f.Num)) × World f.Num r.Db)
      → P m.1
      → P (after_cache f r env n request token m).1
  unfolding after_cache
  after_cache-keeps n request token (raise e, w) h = h
  after_cache-keeps n request token (ok (some cached), w) h = h
  after_cache-keeps n request token (ok none, w) h =
      after_captions-keeps n request token (env.fetch_captions request.video_id request.language) w
        h

  purged-keeps :
      (request : TranscriptRequest) (w : World f.Num r.Db) → P w → P (purged f r env request w)
  unfolding purge_transcript
  purged-keeps request w h = elim (Bool-cases (forces_refresh request.force)) [
    | inl e ↦ rw e (keeps.cache _ _ _ _ h)
    | inr e ↦ rw e h
  ]

  resolve-keeps :
      (n : ℕ) (request : TranscriptRequest) (token : String) (w : World f.Num r.Db)
      → P w
      → P (resolve f r env n request token w).1
  unfolding resolve
  resolve-keeps n request token w h = elim (Bool-cases (forces_whisper request.force)) [
    | inl e ↦ rw e (fetch_by_whisper-keeps n request token _ (purged-keeps request w h))
    | inr e ↦ rw e (
        after_cache-keeps n request token _ (
          get_transcript-keeps env.now request.video_id request.language _
            (purged-keeps request w h)))
  ]

  -- Whatever YouTube answers and however the request ends.
  pub get_or_fetch-keeps :
      (request : TranscriptRequest) (token : String) (w : World f.Num r.Db)
      → P w
      → P (get_or_fetch f r env request token w).1
  unfolding get_or_fetch
  get_or_fetch-keeps request token w h = clamped (clamp_wait_seconds request.wait_seconds) refl
    where
      clamped :
          (o : Outcome Error ℕ)
          → clamp_wait_seconds request.wait_seconds ≡ o
          → P (get_or_fetch f r env request token w).1
      clamped (raise e) eq = rw (eq, get_or_fetch) h
      clamped (ok n) eq = rw (eq, get_or_fetch) (resolve-keeps n request token w h)
