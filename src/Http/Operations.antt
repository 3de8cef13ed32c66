-- ===== src/Http/Operations.antt =====
-- src/app/main.py: the status of a job, the purge and the statistics of the cache, and the probe
-- of readiness.
use yt_service.Prelude.{ℕ, String, Option, none, some, [], ◌∷◌, Outcome, ok, raise, Float, str_cat}
use yt_service.Errors.{Error, error, not_found}
use yt_service.World.{Redis, World, Job, Status, complete}
use yt_service.Jobs.Ledger.{get_job}
use yt_service.Cache.{purge_transcript}
use yt_service.Cache.Stats.{CacheStats, stats}
use yt_service.Auth.{Token}
use yt_service.Middleware.{Counters}
use yt_service.Parsing.{parse_video_id}
use yt_service.Http.{App, Caller, HttpEnv, ErrorResponse, Act, ◌>>>◌, spend, route}

pub record JobStatusResponse : Type 0 where
  pub job_id : String
  pub video_id : String
  pub job_type : String
  pub status : Status
  pub started_at : Option ℕ
  pub finished_at : Option ℕ
  pub error : Option String
  pub video_id_resolved : String
  pub transcript_url : Option String

pub record CachePurgeResponse : Type 0 where
  pub video_id : String
  pub rows_deleted : ℕ

abbrev pub transcript_url : String → Status → Option String
transcript_url video_id complete = some (str_cat "/v1/transcript?v=" video_id)
transcript_url video_id _ = none

abbrev pub job_status : Job → JobStatusResponse
job_status job = record {
  job_id = job.job_id;
  video_id = job.video_id;
  job_type = job.job_type;
  status = job.status;
  started_at = job.started_at;
  finished_at = job.finished_at;
  error = job.error;
  video_id_resolved = job.video_id;
  transcript_url = transcript_url job.video_id job.status;
}

abbrev pub job_or_404 : String → Option Job → Outcome Error JobStatusResponse
job_or_404 job_id none = raise (error not_found (str_cat "job '" (str_cat job_id "' not found")))
job_or_404 job_id (some job) = ok (job_status job)

module _ (f : Float) (r : Redis) (c : Counters) (env : HttpEnv f.Num (World f.Num (r.Db × c.Db)))
    (caller : Caller) where
  abbrev pub status_found : String → Token → Act (World f.Num (r.Db × c.Db)) JobStatusResponse
  status_found job_id token w = spend f r c env caller token "read" w >>> λ u w1.
      (job_or_404 job_id (get_job w1.jobs job_id), w1)

  -- `GET /v1/jobs/{job_id}`, of an id that its `repr` puts between plain quotes.
  unfoldable pub get_job_status :
      String
      → App f.Num (r.Db × c.Db)
      → Outcome ErrorResponse JobStatusResponse × App f.Num (r.Db × c.Db)
  unfolding route spend get_job error
  get_job_status job_id = route f r c env caller ("read" ∷ []) (status_found job_id)

  abbrev pub purge_parsed : String → Act (World f.Num (r.Db × c.Db)) CachePurgeResponse
  purge_parsed parsed w =
      let out = purge_transcript parsed w in
      (ok (record { video_id = parsed; rows_deleted = out.0 }), out.1)

  abbrev pub purging : String → Token → Act (World f.Num (r.Db × c.Db)) CachePurgeResponse
  purging video_id token w = spend f r c env caller token "read" w >>> λ u w1.
      (parse_video_id env.urls.parser video_id, w1) >>> purge_parsed

  -- `DELETE /v1/cache/{video_id}`
  unfoldable pub delete_cache :
      String
      → App f.Num (r.Db × c.Db)
      → Outcome ErrorResponse CachePurgeResponse × App f.Num (r.Db × c.Db)
  unfolding route spend parse_video_id purge_transcript
  delete_cache video_id = route f r c env caller ("admin" ∷ []) (purging video_id)

  abbrev pub stats_read : Token → Act (World f.Num (r.Db × c.Db)) CacheStats
  stats_read token w = spend f r c env caller token "read" w >>> λ u w1. (ok (stats w1), w1)

  -- `GET /v1/cache/stats`
  unfoldable pub get_cache_stats :
      App f.Num (r.Db × c.Db) → Outcome ErrorResponse CacheStats × App f.Num (r.Db × c.Db)
  unfolding route spend stats
  get_cache_stats = route f r c env caller ("read" ∷ []) stats_read
