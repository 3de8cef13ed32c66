-- ===== src/Http/Covered.antt =====
-- The routes of src/app/main.py leave every job in progress its lock: the counters of the rate limit
-- stand beside the locks.
use yt_service.Prelude.{
  ℕ, String, Bool-cases, inl, inr, Option, none, some, List, ◌≡◌, Outcome, ok, raise, Float,
}
use mathlib.Core.Path.{subst}
use yt_service.Errors.{Error}
use yt_service.Domain.{Source, youtube_captions, Chapter, TranscriptRecord, TranscriptRequest}
use yt_service.Domain.Json.{ReadError}
use yt_service.World.{Redis, World}
use yt_service.Jobs.Exclusion.{IsCovered}
use yt_service.Jobs.Covered.{IsFair, enqueue_job-IsCovered}
use yt_service.Jobs.Enqueuing.{enqueue_diarization}
use yt_service.Auth.{Token, has_scope}
use yt_service.Middleware.{Counters}
use yt_service.Cache.{put_chapters}
use yt_service.Parsing.{parse_video_id}
use yt_service.Chapters.{
  get_or_compute_chapters, compute, persist, published_or_derived, fetch_yt_chapters,
}
use yt_service.Service.{Reply, transcript, job_accepted}
use yt_service.Service.Covered.{IsPolite, get_or_fetch-IsCovered, get_transcript-IsCovered}
use yt_service.Http.{joined, Caller, HttpEnv, Act, ◌>>>◌, spend, service_for, parse_include}
use yt_service.Http.Transcripts.{
  Enriched, TranscriptQuery, of_cache, cached, chapters_if, merge_chapters, speakers_by_source,
  speakers_if, merge_speakers, chapters_asked, speakers_asked, reply_to, plain, query_request,
  fetch_for, handle_transcript,
}

module _ (f : Float) (r : Redis) (c : Counters) (env : HttpEnv f.Num (World f.Num (r.Db × c.Db)))
    (caller : Caller) where
  abbrev pub Kept : World f.Num (r.Db × c.Db) → Type 0
  Kept w = IsCovered (joined r c) w

  -- The other processes keep the locks, also while a request waits.
  pub record IsFairApp : Type 0 where
    pub fair : IsFair (joined r c) env.service.contention
    pub pause :
        (n : ℕ) (w : World f.Num (r.Db × c.Db))
        → IsCovered (joined r c) w
        → IsCovered (joined r c) (env.service.pause n w)

  pub bind-Kept :
      {A B : Type 0} (m : Outcome Error A × World f.Num (r.Db × c.Db))
      (k : A → Act (World f.Num (r.Db × c.Db)) B)
      → Kept m.1
      → ((a : A) (w : World f.Num (r.Db × c.Db)) → Kept w → Kept (k a w).1)
      → Kept (m >>> k).1
  bind-Kept (ok a, w) k h then = then a w h
  bind-Kept (raise e, w) k h then = h

  pub spend-Kept :
      (token : Token) (category : String) (w : World f.Num (r.Db × c.Db))
      → Kept w
      → Kept (spend f r c env caller token category w).1
  unfolding spend
  spend-Kept token category w h = record { locks = h.locks }

  module _ (considerate : IsFairApp) where
    service-IsPolite :
        (token : Token) → IsPolite f (joined r c) (service_for f r c env caller token)
    service-IsPolite token = record {
      fair = considerate.fair;
      hook = λ h w same kept.
          subst (λ g. Kept (g w).1) (some_eq same) (spend-Kept token "whisper" w kept);
      pause = considerate.pause;
    }
      where
        some_eq : {g h : Act (World f.Num (r.Db × c.Db)) (Unit {0})} → some g ≡ some h → g ≡ h
        some_eq e = cc

    pub fetch_for-Kept :
        (token : Token) (request : TranscriptRequest) (w : World f.Num (r.Db × c.Db))
        → Kept w
        → Kept (fetch_for f r c env caller token request w).1
    unfolding fetch_for
    fetch_for-Kept token request w h =
        get_or_fetch-IsCovered f (joined r c) (service_for f r c env caller token)
          (service-IsPolite token) request token.id w h

    cache-Kept :
        (e : Enriched f.Num) (w : World f.Num (r.Db × c.Db))
        → Kept w
        → Kept (cached f r c env caller e w).1
    cache-Kept e w h = read _ (
        get_transcript-IsCovered f (joined r c) env.now e.response.video_id e.response.language w h)
      where
        read :
            (m : Outcome ReadError (Option (TranscriptRecord f.Num)) × World f.Num (r.Db × c.Db))
            → Kept m.1
            → Kept (of_cache f r c env caller m).1
        read (ok o, w1) h1 = h1
        read (raise x, w1) h1 = h1

    persist-Kept :
        (rec : TranscriptRecord f.Num) (o : Outcome Error (List (Chapter f.Num)))
        (w : World f.Num (r.Db × c.Db))
        → Kept w
        → Kept (persist f env.chapters rec o w).1
    unfolding put_chapters
    persist-Kept rec (ok cs) w h = record { locks = h.locks }
    persist-Kept rec (raise x) w h = h

    compute-Kept :
        (o : Option (List (Chapter f.Num))) (rec : TranscriptRecord f.Num)
        (w : World f.Num (r.Db × c.Db))
        → Kept w
        → Kept (compute f env.chapters o rec w).1
    compute-Kept (some cs) rec w h = h
    compute-Kept none rec w h =
        persist-Kept rec
          (published_or_derived f env.chapters (fetch_yt_chapters f env.chapters rec.video_id) rec)
          w h

    chapters_if-Kept :
        (e : Enriched f.Num) (o : Option (TranscriptRecord f.Num)) (w : World f.Num (r.Db × c.Db))
        → Kept w
        → Kept (chapters_if f r c env caller e o w).1
    chapters_if-Kept e none w h = h
    chapters_if-Kept e (some rec) w h =
        unfold get_or_compute_chapters in
        bind-Kept (compute f env.chapters rec.chapters rec w) _ (compute-Kept rec.chapters rec w h)
          (λ cs w1 h1. h1)

    merge_chapters-Kept :
        (e : Enriched f.Num) (w : World f.Num (r.Db × c.Db))
        → Kept w
        → Kept (merge_chapters f r c env caller e w).1
    unfolding merge_chapters
    merge_chapters-Kept e w h =
        bind-Kept (cached f r c env caller e w) _ (cache-Kept e w h) (chapters_if-Kept e)

    speakers_by_source-Kept :
        (token : Token) (e : Enriched f.Num) (s : Source) (w : World f.Num (r.Db × c.Db))
        → Kept w
        → Kept (speakers_by_source f r c env caller token e s w).1
    unfolding enqueue_diarization
    speakers_by_source-Kept token e youtube_captions w h = h
    speakers_by_source-Kept token e _ w h =
        enqueue_job-IsCovered (joined r c) env.service.contention _ considerate.fair w h

    speakers_if-Kept :
        (token : Token) (e : Enriched f.Num) (o : Option (TranscriptRecord f.Num))
        (w : World f.Num (r.Db × c.Db))
        → Kept w
        → Kept (speakers_if f r c env caller token e o w).1
    speakers_if-Kept token e none w h = h
    speakers_if-Kept token e (some rec) w h = elim (Bool-cases rec.has_diarization) [
      | inl d ↦ rw d h
      | inr d ↦ rw d (speakers_by_source-Kept token e rec.source w h)
    ]

    merge_speakers-Kept :
        (token : Token) (e : Enriched f.Num) (w : World f.Num (r.Db × c.Db))
        → Kept w
        → Kept (merge_speakers f r c env caller token e w).1
    unfolding merge_speakers
    merge_speakers-Kept token e w h =
        bind-Kept (cached f r c env caller e w) _ (cache-Kept e w h) (speakers_if-Kept token e)

    reply_to-Kept :
        (token : Token) (include : List String) (reply : Reply f.Num)
        (w : World f.Num (r.Db × c.Db))
        → Kept w
        → Kept (reply_to f r c env caller token include reply w).1
    reply_to-Kept token include (job_accepted a) w h = h
    reply_to-Kept token include (transcript t) w h =
        bind-Kept _ _
          (bind-Kept (chapters_asked f r c env caller include (plain t) w) _
            (chapters (plain t) w h) speakers)
          (λ e w1 h1. h1)
      where
        chapters :
            (e : Enriched f.Num) (w : World f.Num (r.Db × c.Db))
            → Kept w
            → Kept (chapters_asked f r c env caller include e w).1
        chapters e w h = elim (Bool-cases (has_scope "chapters" include)) [
          | inl a ↦ rw (a, chapters_asked) (merge_chapters-Kept e w h)
          | inr a ↦ rw (a, chapters_asked) h
        ]

        speakers :
            (e : Enriched f.Num) (w : World f.Num (r.Db × c.Db))
            → Kept w
            → Kept (speakers_asked f r c env caller token include e w).1
        speakers e w h = elim (Bool-cases (has_scope "speakers" include)) [
          | inl a ↦ rw (a, speakers_asked) (merge_speakers-Kept token e w h)
          | inr a ↦ rw (a, speakers_asked) h
        ]

    pub handle_transcript-Kept :
        (q : TranscriptQuery) (token : Token) (w : World f.Num (r.Db × c.Db))
        → Kept w
        → Kept (handle_transcript f r c env caller q token w).1
    unfolding handle_transcript
    handle_transcript-Kept q token w h =
        bind-Kept (parse_video_id env.urls.parser q.v, w) _ h
          (λ v w1 h1.
            bind-Kept (spend f r c env caller token "read" w1) _ (spend-Kept token "read" w1 h1)
              (λ u w2 h2.
                bind-Kept (fetch_for f r c env caller token (query_request f r c env caller q v) w2)
                  _ (fetch_for-Kept token (query_request f r c env caller q v) w2 h2)
                  (reply_to-Kept token (parse_include q.include))))
