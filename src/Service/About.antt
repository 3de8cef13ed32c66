-- ===== src/Service/About.antt =====
-- `get_or_fetch` of src/app/transcript_service.py answers about the video that was asked for.
use text.Mathlib.TextEquality.{eq_iff}
use mathlib.Core.Path.{subst}
use yt_service.Prelude.{
  ℕ, zero, suc, ◌*◌, String, Bool, true, Bool-cases, ◌&&◌, Option, none, some, List, ◌≡◌, refl, inl,
  inr, arith, Outcome, ok, raise, is_empty, Float, find, find_sound,
}
use yt_service.Errors.{Error, Kind, job_in_progress}
use yt_service.Domain.{Snippet, Chapter, CaptionsResult, TranscriptRecord, TranscriptRequest}
use yt_service.Domain.Json.{ReadError}
use yt_service.World.{Redis, World, Job, Status, complete, failed, Transcript}
use yt_service.Jobs.Ledger.{get_job}
use yt_service.Cache.{get_transcript, respond, is_row, is_live}
use yt_service.Cache.Codec.{map_read, row_to_record, read_chapters, dict_to_snippet}
use yt_service.Service.{
  Reply, transcript, job_accepted, ServiceEnv, record_to_response, captions_to_record,
  job_accepted_response,
}
use yt_service.Service.Waiting.{if_cached, by_status, look, poll, wait_for_job_completion}
use yt_service.Service.Fetching.{
  clamp_wait_seconds, forces_whisper, duration_of, over_limit, after_wait, refused, wait_if,
  after_enqueue, after_hook, fetch_by_whisper, after_captions, after_cache, purged, resolve,
  get_or_fetch,
}

-- A transcript or a job that is answered is that video's.
abbrev pub IsAbout : {N : Type 0} → String → Outcome Error (Reply N) → Type 0
IsAbout v (ok (transcript resp)) = resp.video_id ≡ v
IsAbout v (ok (job_accepted a)) = a.video_id ≡ v
IsAbout v (raise e) = Unit

abbrev FoundAbout : {N : Type 0} → String → Outcome Error (Option (Reply N)) → Type 0
FoundAbout v (ok (some reply)) = IsAbout v (ok reply)
FoundAbout v _ = Unit

abbrev ReadAbout : {N : Type 0} → String → Outcome ReadError (Option (TranscriptRecord N)) → Type 0
ReadAbout v (ok (some rec)) = rec.video_id ≡ v
ReadAbout v _ = Unit

module _ (f : Float) {Db : Type 0} where
  respond-ReadAbout :
      (row : Transcript f.Num) (w : World f.Num Db)
      → ReadAbout row.video_id (respond f (some row) w).0
  unfolding respond row_to_record
  respond-ReadAbout row w =
      by (map_read (dict_to_snippet f) row.snippets_jsonb) (read_chapters f row.chapters_jsonb) refl
        refl
    where
      by :
          (ss : Outcome ReadError (List (Snippet f.Num)))
          (cs : Outcome ReadError (Option (List (Chapter f.Num))))
          → map_read (dict_to_snippet f) row.snippets_jsonb ≡ ss
          → read_chapters f row.chapters_jsonb ≡ cs
          → ReadAbout row.video_id (respond f (some row) w).0
      by (raise e) cs hs hc = rw (hs, row_to_record) tt
      by (ok ss) (raise e) hs hc = rw (hs, hc, row_to_record) tt
      by (ok ss) (ok cs) hs hc = rw (hs, hc, row_to_record) refl

  get_transcript-ReadAbout :
      (now : ℕ) (v l : String) (w : World f.Num Db) → ReadAbout v (get_transcript f now v l w).0
  unfolding get_transcript respond
  get_transcript-ReadAbout now v l w = by (find live w.transcripts) refl
    where
      live : Transcript f.Num → Bool
      live t = is_row v l t && is_live now t

      same : (t : Transcript f.Num) → live t ≡ true → t.video_id ≡ v
      same t h = ground (arith, h, eq_iff t.video_id v)

      by :
          (o : Option (Transcript f.Num))
          → find live w.transcripts ≡ o
          → ReadAbout v (respond f o w).0
      by none h = tt
      by (some t) h =
          subst (λ u. ReadAbout u (respond f (some t) w).0)
            (same t (find_sound live w.transcripts t h)) (respond-ReadAbout t w)

module _ (f : Float) (r : Redis) (env : ServiceEnv f.Num (World f.Num r.Db)) where
  if_cached-FoundAbout :
      (v : String) (m : Outcome ReadError (Option (TranscriptRecord f.Num)) × World f.Num r.Db)
      → ReadAbout v m.0
      → FoundAbout v (if_cached f env m).0
  unfolding record_to_response
  if_cached-FoundAbout v (raise e, w) h = tt
  if_cached-FoundAbout v (ok none, w) h = tt
  if_cached-FoundAbout v (ok (some c), w) h = h

  look-FoundAbout :
      (o : Option Job) (v l : String) (w : World f.Num r.Db) → FoundAbout v (look f env o v l w).0
  unfolding look
  look-FoundAbout none v l w = tt
  look-FoundAbout (some job) v l w = by_status-FoundAbout job.status
    where
      by_status-FoundAbout : (s : Status) → FoundAbout v (by_status f env s job v l w).0
      by_status-FoundAbout complete =
          if_cached-FoundAbout v _ (get_transcript-ReadAbout f env.now v l w)
      by_status-FoundAbout failed = tt
      by_status-FoundAbout _ = tt

  poll-FoundAbout :
      (n : ℕ) (v l id : String) (w : World f.Num r.Db) → FoundAbout v (poll f env n v l id w).0
  unfolding poll
  poll-FoundAbout zero v l id w = tt
  poll-FoundAbout (suc n) v l id w =
      let w1 = env.pause n w in
      looked (λ w2. poll-FoundAbout n v l id w2) _ refl
        (look-FoundAbout (get_job w1.jobs id) v l w1)
    where
      looked :
          ((w2 : World f.Num r.Db) → FoundAbout v (poll f env n v l id w2).0)
          → (o : Outcome Error (Option (Reply f.Num)))
          → (look f env (get_job (env.pause n w).jobs id) v l (env.pause n w)).0 ≡ o
          → FoundAbout v o
          → FoundAbout v (poll f env (suc n) v l id w).0
      looked rest (raise e) eq h = rw (poll, eq) tt
      looked rest (ok (some reply)) eq h = rw (poll, eq) h
      looked rest (ok none) eq h = rw (poll, eq) (rest _)

  after_wait-IsAbout :
      (id v : String) (m : Outcome Error (Option (Reply f.Num)) × World f.Num r.Db)
      → FoundAbout v m.0
      → IsAbout v (after_wait f r env id v m).0
  unfolding job_accepted_response
  after_wait-IsAbout id v (raise e, w) h = tt
  after_wait-IsAbout id v (ok (some reply), w) h = h
  after_wait-IsAbout id v (ok none, w) h = refl

  module _ (n : ℕ) (q : TranscriptRequest) where
    after_enqueue-IsAbout :
        (m : Outcome Error Job × World f.Num r.Db)
        → IsAbout q.video_id (after_enqueue f r env n q m).0
    unfolding after_enqueue wait_for_job_completion job_accepted_response
    after_enqueue-IsAbout (ok job, w) = waited n
      where
        waited : (k : ℕ) → IsAbout q.video_id (wait_if f r env k q job.job_id w).0
        waited zero = refl
        waited (suc k) =
            after_wait-IsAbout job.job_id q.video_id _
              (poll-FoundAbout (2 * suc k) q.video_id q.language job.job_id w)
    after_enqueue-IsAbout (raise exc, w) = refused-IsAbout exc.kind
      where
        refused-IsAbout : (k : Kind) → IsAbout q.video_id (refused f r env k q exc w).0
        refused-IsAbout job_in_progress = elim (Bool-cases (is_empty exc.existing_job_id)) [
          | inl e ↦ rw e tt
          | inr e ↦ rw e refl
        ]
        refused-IsAbout _ = tt

    after_hook-IsAbout :
        (token : String) (m : Outcome Error (Unit {0}) × World f.Num r.Db)
        → IsAbout q.video_id (after_hook f r env n q token m).0
    after_hook-IsAbout token (raise e, w) = tt
    after_hook-IsAbout token (ok u, w) = after_enqueue-IsAbout _

    fetch_by_whisper-IsAbout :
        (token : String) (w : World f.Num r.Db)
        → IsAbout q.video_id (fetch_by_whisper f r env n q token w).0
    unfolding fetch_by_whisper
    fetch_by_whisper-IsAbout token w =
        let long =
          over_limit f (duration_of f (env.fetch_video_metadata q.video_id))
            env.max_video_duration_seconds in
        elim (Bool-cases long) [ inl e ↦ rw e tt | inr e ↦ rw e (after_hook-IsAbout token _) ]

    after_captions-IsAbout :
        (token : String) (o : Outcome Error (Option (CaptionsResult f.Num))) (w : World f.Num r.Db)
        → IsAbout q.video_id (after_captions f r env n q token o w).0
    unfolding after_captions record_to_response captions_to_record
    after_captions-IsAbout token (raise e) w = tt
    after_captions-IsAbout token (ok none) w = fetch_by_whisper-IsAbout token w
    after_captions-IsAbout token (ok (some captions)) w = refl

    after_cache-IsAbout :
        (token : String)
        (m : Outcome ReadError (Option (TranscriptRecord f.Num)) × World f.Num r.Db)
        → ReadAbout q.video_id m.0
        → IsAbout q.video_id (after_cache f r env n q token m).0
    unfolding after_cache record_to_response
    after_cache-IsAbout token (raise e, w) h = tt
    after_cache-IsAbout token (ok (some cached), w) h = h
    after_cache-IsAbout token (ok none, w) h =
        after_captions-IsAbout token (env.fetch_captions q.video_id q.language) w

    resolve-IsAbout :
        (token : String) (w : World f.Num r.Db) → IsAbout q.video_id (resolve f r env n q token w).0
    unfolding resolve
    resolve-IsAbout token w = elim (Bool-cases (forces_whisper q.force)) [
      | inl e ↦ rw e (fetch_by_whisper-IsAbout token _)
      | inr e ↦ rw e (
          after_cache-IsAbout token _
            (get_transcript-ReadAbout f env.now q.video_id q.language (purged f r env q w)))
    ]

  -- A transcript and a job that a request is answered with are those of the video that it names.
  pub get_or_fetch-IsAbout :
      (q : TranscriptRequest) (token : String) (w : World f.Num r.Db)
      → IsAbout q.video_id (get_or_fetch f r env q token w).0
  unfolding get_or_fetch
  get_or_fetch-IsAbout q token w = clamped (clamp_wait_seconds q.wait_seconds) refl
    where
      clamped :
          (o : Outcome Error ℕ)
          → clamp_wait_seconds q.wait_seconds ≡ o
          → IsAbout q.video_id (get_or_fetch f r env q token w).0
      clamped (raise e) eq = rw (eq, get_or_fetch) tt
      clamped (ok n) eq = rw (eq, get_or_fetch) (resolve-IsAbout n q token w)
