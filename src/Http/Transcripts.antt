-- ===== src/Http/Transcripts.antt =====
-- src/app/main.py: `GET /v1/transcript` with its enrichments. The forms `text` and `srt` of an answer are not told from `json`.
use yt_service.Prelude.{
  ℕ, String, Bool, true, false, Option, none, some, List, [], ◌∷◌, Outcome, ok, raise, Float,
  is_empty, if◌then◌else◌,
}
use yt_service.Errors.{Error, Kind, exception, job_in_progress}
use yt_service.Domain.{
  Force, Source, youtube_captions, Chapter, TranscriptRecord, TranscriptRequest,
}
use yt_service.Domain.Json.{ReadError}
use yt_service.World.{Redis, World, Job}
use yt_service.Jobs.Enqueuing.{enqueue_diarization}
use yt_service.Auth.{Token, has_scope}
use yt_service.Middleware.{Counters}
use yt_service.Cache.{get_transcript}
use yt_service.Chapters.{get_or_compute_chapters}
use yt_service.Parsing.{parse_video_id}
use yt_service.Service.{TranscriptResponse, JobAcceptedResponse, Reply, transcript, job_accepted}
use yt_service.Service.Fetching.{get_or_fetch}
use yt_service.Worker.Diarize.{read_failure}
use yt_service.Http.{
  joined, App, Caller, HttpEnv, ErrorResponse, Act, ◌>>>◌, parse_include, spend, service_for, route,
}

-- The response, with the fields that `include=speakers` sets.
pub record Enriched (N : Type 0) : Type 0 where
  pub response : TranscriptResponse N
  pub has_diarization : Option Bool
  pub diarization_status : Option String
  pub diarization_job_id : Option String

pub data HttpResponse (N : Type 0) : Type 0 where
  ok_200 : Enriched N → HttpResponse N
  accepted_202 : JobAcceptedResponse → HttpResponse N

-- The query of `GET /v1/transcript`.
pub record TranscriptQuery : Type 0 where
  pub v : String
  pub lang : String
  pub force : Option Force
  pub wait : ℕ
  pub include : Option String

abbrev pub of_read : ReadError → Error
of_read e = exception (read_failure e).0 (read_failure e).1

abbrev pub plain : {N : Type 0} → TranscriptResponse N → Enriched N
plain response = record {
  response = response;
  has_diarization = none;
  diarization_status = none;
  diarization_job_id = none;
}

module _ {N : Type 0} where
  abbrev pub diarized : Bool → Option String → Option String → Enriched N → Enriched N
  diarized done status job_id e = record e {
    has_diarization = some done;
    diarization_status = status;
    diarization_job_id = job_id;
  }

  -- A job that is running already is named; any other failure leaves the status unset.
  abbrev pub on_refusal : Kind → Error → Enriched N → Enriched N
  on_refusal job_in_progress exc e =
      if is_empty exc.existing_job_id
      then diarized false none none e
      else diarized false (some "queued") (some exc.existing_job_id) e
  on_refusal _ exc e = diarized false none none e

  abbrev pub after_diarization : Outcome Error Job → Enriched N → Enriched N
  after_diarization (ok job) e = diarized false (some "queued") (some job.job_id) e
  after_diarization (raise exc) e = on_refusal exc.kind exc e

module _ (f : Float) (r : Redis) (c : Counters) (env : HttpEnv f.Num (World f.Num (r.Db × c.Db)))
    (caller : Caller) where
  abbrev pub Handler : Type 0 → Type 0
  Handler A = Act (World f.Num (r.Db × c.Db)) A

  abbrev pub of_cache :
      {A : Type 0}
      → Outcome ReadError A × World f.Num (r.Db × c.Db)
      → Outcome Error A × World f.Num (r.Db × c.Db)
  of_cache (ok a, w) = (ok a, w)
  of_cache (raise e, w) = (raise (of_read e), w)

  abbrev pub return : {A : Type 0} → A → Handler A
  return a w = (ok a, w)

  abbrev pub cached : Enriched f.Num → Handler (Option (TranscriptRecord f.Num))
  cached e w = of_cache (get_transcript f env.now e.response.video_id e.response.language w)

  abbrev pub chapters_merged : Enriched f.Num → List (Chapter f.Num) → Enriched f.Num
  chapters_merged e cs = record e { response = record e.response { chapters = some cs } }

  abbrev pub chapters_if :
      Enriched f.Num → Option (TranscriptRecord f.Num) → Handler (Enriched f.Num)
  chapters_if e none w = (ok e, w)
  chapters_if e (some rec) w =
      get_or_compute_chapters f env.chapters rec w >>> λ cs. return (chapters_merged e cs)

  unfoldable pub merge_chapters : Enriched f.Num → Handler (Enriched f.Num)
  unfolding get_transcript get_or_compute_chapters
  merge_chapters e w = cached e w >>> chapters_if e

  abbrev pub enqueued :
      Enriched f.Num
      → Outcome Error Job × World f.Num (r.Db × c.Db)
      → Outcome Error (Enriched f.Num) × World f.Num (r.Db × c.Db)
  enqueued e (o, w) = (ok (after_diarization o e), w)

  abbrev pub speakers_by_source : Token → Enriched f.Num → Source → Handler (Enriched f.Num)
  speakers_by_source token e youtube_captions w =
      (ok (diarized false (some "captions_source_unsupported") none e), w)
  speakers_by_source token e _ w = enqueued e (
      enqueue_diarization (joined r c) env.service.contention e.response.video_id token.id
        e.response.language w)

  abbrev pub speakers_if :
      Token → Enriched f.Num → Option (TranscriptRecord f.Num) → Handler (Enriched f.Num)
  speakers_if token e none w = (ok e, w)
  speakers_if token e (some rec) w = elim rec.has_diarization [
    | true ↦ (ok (record e { has_diarization = some true }), w)
    | false ↦ speakers_by_source token e rec.source w
  ]

  unfoldable pub merge_speakers : Token → Enriched f.Num → Handler (Enriched f.Num)
  unfolding get_transcript enqueue_diarization
  merge_speakers token e w = cached e w >>> speakers_if token e

  abbrev pub chapters_asked : List String → Enriched f.Num → Handler (Enriched f.Num)
  chapters_asked include e w = elim (has_scope "chapters" include) [
    | true ↦ merge_chapters e w
    | false ↦ (ok e, w)
  ]

  abbrev pub speakers_asked : Token → List String → Enriched f.Num → Handler (Enriched f.Num)
  speakers_asked token include e w = elim (has_scope "speakers" include) [
    | true ↦ merge_speakers token e w
    | false ↦ (ok e, w)
  ]

  abbrev pub reply_to : Token → List String → Reply f.Num → Handler (HttpResponse f.Num)
  reply_to token include (job_accepted a) w = (ok (accepted_202 a), w)
  reply_to token include (transcript t) w =
      chapters_asked include (plain t) w >>> speakers_asked token include >>> λ e. return (ok_200 e)

  abbrev pub query_request : TranscriptQuery → String → TranscriptRequest
  query_request q video_id = record {
    video_id = video_id;
    language = q.lang;
    force = q.force;
    wait_seconds = some q.wait;
    include = parse_include q.include;
    callback_url = none;
  }

  unfoldable pub fetch_for : Token → TranscriptRequest → Handler (Reply f.Num)
  unfolding get_or_fetch spend
  fetch_for token request =
      get_or_fetch f (joined r c) (service_for f r c env caller token) request token.id

  -- The id is parsed before the bucket is charged.
  unfoldable pub handle_transcript : TranscriptQuery → Token → Handler (HttpResponse f.Num)
  unfolding fetch_for merge_chapters merge_speakers parse_video_id parse_include spend
  handle_transcript q token w = (parse_video_id env.urls.parser q.v, w) >>> λ video_id w1.
      spend f r c env caller token "read" w1 >>> λ u w2.
      fetch_for token (query_request q video_id) w2 >>> reply_to token (parse_include q.include)

  -- `GET /v1/transcript`
  unfoldable pub get_transcript_route :
      TranscriptQuery
      → App f.Num (r.Db × c.Db)
      → Outcome ErrorResponse (HttpResponse f.Num) × App f.Num (r.Db × c.Db)
  unfolding handle_transcript route
  get_transcript_route q = route f r c env caller ("read" ∷ []) (handle_transcript q)
