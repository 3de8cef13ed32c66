-- ===== src/Service/Answers.antt =====
-- What `get_or_fetch` of src/app/transcript_service.py answers, by the way that a request takes.
use yt_service.Prelude.{
  ℕ, zero, suc, ◌+◌, ◌*◌, String, true, false, Bool-cases, Option, none, some, ◌≡◌, ◌≢◌, refl, ap,
  inl, inr, Outcome, ok, raise, is_empty, min, Float,
}
use yt_service.Errors.{Error, Kind, job_in_progress}
use yt_service.Domain.{CaptionsResult, TranscriptRecord, TranscriptRequest, Force, whisper, refresh}
use yt_service.Domain.Json.{ReadError}
use yt_service.World.{Redis, World, Job, Status, complete, failed, Transcript}
use yt_service.Jobs.Ledger.{get_job}
use yt_service.Cache.{get_transcript, purge_transcript, respond}
use text.Mathlib.TextPositions.{eq_refl}
use yt_service.Cache.Frame.{get-purge_transcript}
use yt_service.Service.{Reply, transcript, ServiceEnv, record_to_response, max_wait_seconds}
use yt_service.Service.Waiting.{if_cached, by_status, look, poll, wait_for_job_completion}
use yt_service.Service.Fetching.{
  clamp_wait_seconds, forces_whisper, forces_refresh, duration_of, over_limit, after_wait, refused,
  after_enqueue, after_hook, fetch_by_whisper, after_captions, after_cache, resolve, get_or_fetch,
}

-- The answer is not marked as a cache hit.
abbrev pub IsFetched : {N : Type 0} → Outcome Error (Reply N) → Type 0
IsFetched (ok (transcript resp)) = resp.cache_hit ≡ false
IsFetched _ = Unit

abbrev Unmarked : {N : Type 0} → Outcome Error (Option (Reply N)) → Type 0
Unmarked (ok (some reply)) = IsFetched (ok reply)
Unmarked _ = Unit

module _ (f : Float) (r : Redis) (env : ServiceEnv f.Num (World f.Num r.Db)) where
  if_cached-Unmarked :
      (m : Outcome ReadError (Option (TranscriptRecord f.Num)) × World f.Num r.Db)
      → Unmarked (if_cached f env m).0
  unfolding record_to_response
  if_cached-Unmarked (raise e, w) = tt
  if_cached-Unmarked (ok none, w) = tt
  if_cached-Unmarked (ok (some c), w) = refl

  look-Unmarked :
      (o : Option Job) (v l : String) (w : World f.Num r.Db) → Unmarked (look f env o v l w).0
  unfolding look
  look-Unmarked none v l w = tt
  look-Unmarked (some job) v l w = by_status-Unmarked job.status
    where
      by_status-Unmarked : (s : Status) → Unmarked (by_status f env s job v l w).0
      by_status-Unmarked complete = if_cached-Unmarked _
      by_status-Unmarked failed = tt
      by_status-Unmarked _ = tt

  poll-Unmarked :
      (n : ℕ) (v l id : String) (w : World f.Num r.Db) → Unmarked (poll f env n v l id w).0
  unfolding poll
  poll-Unmarked zero v l id w = tt
  poll-Unmarked (suc n) v l id w =
      let w1 = env.pause n w in
      looked (λ w2. poll-Unmarked n v l id w2) _ refl (look-Unmarked (get_job w1.jobs id) v l w1)
    where
      looked :
          ((w2 : World f.Num r.Db) → Unmarked (poll f env n v l id w2).0)
          → (o : Outcome Error (Option (Reply f.Num)))
          → (look f env (get_job (env.pause n w).jobs id) v l (env.pause n w)).0 ≡ o
          → Unmarked o
          → Unmarked (poll f env (suc n) v l id w).0
      looked rest (raise e) eq h = rw (poll, eq) tt
      looked rest (ok (some reply)) eq h = rw (poll, eq) h
      looked rest (ok none) eq h = rw (poll, eq) (rest _)

  after_wait-IsFetched :
      (id v : String) (m : Outcome Error (Option (Reply f.Num)) × World f.Num r.Db)
      → Unmarked m.0
      → IsFetched (after_wait f r env id v m).0
  after_wait-IsFetched id v (raise e, w) h = tt
  after_wait-IsFetched id v (ok (some reply), w) h = h
  after_wait-IsFetched id v (ok none, w) h = tt

  after_enqueue-IsFetched :
      (n : ℕ) (request : TranscriptRequest) (m : Outcome Error Job × World f.Num r.Db)
      → IsFetched (after_enqueue f r env n request m).0
  unfolding after_enqueue wait_for_job_completion
  after_enqueue-IsFetched zero request (ok job, w) = tt
  after_enqueue-IsFetched (suc n) request (ok job, w) =
      after_wait-IsFetched job.job_id request.video_id _
        (poll-Unmarked (2 * suc n) request.video_id request.language job.job_id w)
  after_enqueue-IsFetched n request (raise exc, w) = refused-IsFetched exc.kind
    where
      refused-IsFetched : (k : Kind) → IsFetched (refused f r env k request exc w).0
      refused-IsFetched job_in_progress = elim (Bool-cases (is_empty exc.existing_job_id)) [
        | inl e ↦ rw e tt
        | inr e ↦ rw e tt
      ]
      refused-IsFetched _ = tt

  after_hook-IsFetched :
      (n : ℕ) (request : TranscriptRequest) (token : String)
      (m : Outcome Error (Unit {0}) × World f.Num r.Db)
      → IsFetched (after_hook f r env n request token m).0
  after_hook-IsFetched n request token (raise e, w) = tt
  after_hook-IsFetched n request token (ok u, w) = after_enqueue-IsFetched n request _

  fetch_by_whisper-IsFetched :
      (n : ℕ) (request : TranscriptRequest) (token : String) (w : World f.Num r.Db)
      → IsFetched (fetch_by_whisper f r env n request token w).0
  unfolding fetch_by_whisper
  fetch_by_whisper-IsFetched n request token w =
      let long =
        over_limit f (duration_of f (env.fetch_video_metadata request.video_id))
          env.max_video_duration_seconds in
      elim (Bool-cases long) [
        | inl e ↦ rw e tt
        | inr e ↦ rw e (after_hook-IsFetched n request token _)
      ]

  after_captions-IsFetched :
      (n : ℕ) (request : TranscriptRequest) (token : String)
      (o : Outcome Error (Option (CaptionsResult f.Num))) (w : World f.Num r.Db)
      → IsFetched (after_captions f r env n request token o w).0
  unfolding after_captions record_to_response
  after_captions-IsFetched n request token (raise e) w = tt
  after_captions-IsFetched n request token (ok none) w =
      fetch_by_whisper-IsFetched n request token w
  after_captions-IsFetched n request token (ok (some captions)) w = refl

  after_cache-IsFetched :
      (n : ℕ) (request : TranscriptRequest) (token : String)
      (m : Outcome ReadError (Option (TranscriptRecord f.Num)) × World f.Num r.Db)
      → m.0 ≡ ok none
      → IsFetched (after_cache f r env n request token m).0
  unfolding after_cache
  after_cache-IsFetched n request token (raise e, w) h = tt
  after_cache-IsFetched n request token (ok (some cached), w) h = absurd (hit-ne_miss cached h)
    where
      hit-ne_miss :
          (c : TranscriptRecord f.Num)
          → ◌≢◌ {A = Outcome ReadError (Option (TranscriptRecord f.Num))} (ok (some c)) (ok none)
      hit-ne_miss c e = cc
  after_cache-IsFetched n request token (ok none, w) h =
      after_captions-IsFetched n request token
        (env.fetch_captions request.video_id request.language) w

  resolve-IsFetched :
      (n : ℕ) (request : TranscriptRequest) (token : String) (w : World f.Num r.Db) (force : Force)
      → request.force ≡ some force
      → IsFetched (resolve f r env n request token w).0
  unfolding resolve
  resolve-IsFetched n request token w whisper h =
      rw (ap forces_whisper h) (fetch_by_whisper-IsFetched n request token _)
  resolve-IsFetched n request token w refresh h =
      rw (ap forces_whisper h, ap forces_refresh h)
        (after_cache-IsFetched n request token _
          (unfold get_transcript in get-purge_self request w))
    where
      get-purge_self :
          (q : TranscriptRequest) (w' : World f.Num r.Db)
          → (get_transcript f env.now q.video_id q.language (purge_transcript q.video_id w').1).0
            ≡ ok none
      get-purge_self q w' =
          rw (get-purge_transcript f env.now q.video_id q.language w' q.video_id, eq_refl) refl

  -- A request that forces Whisper or a refresh is never answered with a transcript that is marked as
  -- a cache hit.
  pub get_or_fetch-IsFetched :
      (request : TranscriptRequest) (token : String) (w : World f.Num r.Db) (force : Force)
      → request.force ≡ some force
      → IsFetched (get_or_fetch f r env request token w).0
  unfolding get_or_fetch
  get_or_fetch-IsFetched request token w force h =
      clamped (clamp_wait_seconds request.wait_seconds) refl
    where
      clamped :
          (o : Outcome Error ℕ)
          → clamp_wait_seconds request.wait_seconds ≡ o
          → IsFetched (get_or_fetch f r env request token w).0
      clamped (raise e) eq = rw (eq, get_or_fetch) tt
      clamped (ok n) eq = rw (eq, get_or_fetch) (resolve-IsFetched n request token w force h)

  respond-hit :
      (o : Option (Transcript f.Num)) (w : World f.Num r.Db) (rec : TranscriptRecord f.Num)
      → (respond f o w).0 ≡ ok (some rec)
      → (respond f o w).1 ≡ record w { cache_hits = w.cache_hits + 1 }
  unfolding respond
  respond-hit none w rec h = absurd (miss-ne_hit h)
    where
      miss-ne_hit :
          ◌≢◌ {A = Outcome ReadError (Option (TranscriptRecord f.Num))} (ok none) (ok (some rec))
      miss-ne_hit e = cc
  respond-hit (some t) w rec h = refl

  answer-hit :
      (n : ℕ) (request : TranscriptRequest) (token : String)
      (m : Outcome ReadError (Option (TranscriptRecord f.Num)) × World f.Num r.Db)
      (rec : TranscriptRecord f.Num) (w' : World f.Num r.Db)
      → m.0 ≡ ok (some rec)
      → m.1 ≡ w'
      → after_cache f r env n request token m ≡ (ok (transcript (record_to_response rec true)), w')
  unfolding after_cache
  answer-hit n request token (o, v) rec w' h h' = rw (h, h', after_cache) refl

  -- A request that forces nothing and finds a row is answered with it, marked as a cache hit; the
  -- world keeps everything but the count of hits: no job is enqueued.
  pub get_or_fetch_cached :
      (request : TranscriptRequest) (token : String) (w : World f.Num r.Db) (n : ℕ)
      (rec : TranscriptRecord f.Num)
      → request.wait_seconds ≡ some n
      → request.force ≡ none
      → (get_transcript f env.now request.video_id request.language w).0 ≡ ok (some rec)
      → get_or_fetch f r env request token w ≡ (
        ok (transcript (record_to_response rec true)),
        record w { cache_hits = w.cache_hits + 1 },
      )
  unfolding get_or_fetch resolve
  get_or_fetch_cached request token w n rec waits free found =
      rw (ap clamp_wait_seconds waits, get_or_fetch, ap forces_whisper free, ap forces_refresh free)
        (answer-hit (min n max_wait_seconds) request token _ rec _ found
          (unfold get_transcript in respond-hit _ w rec found))
