-- ===== src/Tests/Http.antt =====
-- The theorems on src/app/main.py at concrete requests.
use yt_service.Prelude.{
  ℕ, String, Bool, true, false, none, some, Option, [], ◌∷◌, ◌≡◌, refl, ok, is_empty, strip, lstrip,
  rstrip, split_all,
}
use yt_service.World.{World}
use yt_service.Jobs.Exclusion.{IsCovered}
use yt_service.Jobs.Enqueuing.{Contention}
use yt_service.Cache.{new_row}
use yt_service.Chapters.{ChapterEnv}
use yt_service.Service.{ServiceEnv}
use yt_service.Service.Fetching.{get_or_fetch}
use yt_service.Service.About.{IsAbout}
use yt_service.Service.Named.{KeepsRows, NamesJob, get_or_fetch-NamesJob}
use yt_service.Http.{joined, App, Caller, HttpEnv}
use yt_service.Http.Transcripts.{TranscriptQuery, get_transcript_route}
use yt_service.Http.Batch.{BatchBody}
use yt_service.Http.Operations.{delete_cache}
use yt_service.Http.Loopback.{
  Peer, first_hop, host_is_loopback, forwarded_candidate, client_host_is_loopback, metrics,
  metrics-loopback,
}
use yt_service.Http.Covered.{IsFairApp}
use yt_service.Http.Guarded.{Guarded, get_transcript_route-Guarded}
use yt_service.Http.Purging.{Removes, delete_cache-Removes}
use yt_service.Tests.Auth.{plainly, reader}
use yt_service.Tests.Fixtures.{hundredths, memory, empty, transcript_record, service_env}
use yt_service.Tests.Middleware.{counters, fresh}
use yt_service.Tests.Service.{forcing}
use yt_service.Tests.UrlSafety.{internet}

abbrev Shared : Type 0
Shared = World ℕ ((String → Option String) × (String → ℕ))

abbrev quiet : Contention Shared
quiet = record {
  job_id = "job-2";
  now = 10;
  sleeping = λ w. w;
  before_steal = λ w. w;
  after_steal = λ w. w;
  rq_error = none;
}

abbrev shared_service : ServiceEnv ℕ Shared
shared_service = record {
  now = 10;
  cache_ttl_days = 1;
  max_video_duration_seconds = 1000;
  fetch_captions = λ v l. ok none;
  fetch_video_metadata = λ v. ok none;
  whisper_rate_limit_hook = none;
  contention = quiet;
  pause = λ n w. w;
}

abbrev no_chapters : ChapterEnv ℕ
no_chapters = record {
  fetch_video_metadata = λ v. none;
  llm_execute = λ rec. ok "[]";
  loads = λ s. none;
  show = λ j. "";
  len = λ s. 0;
}

abbrev http_env : HttpEnv ℕ Shared
http_env = record {
  now = 10;
  verify = plainly;
  limit = λ category. 3;
  window = λ category. 60;
  urls = internet;
  service = shared_service;
  chapters = no_chapters;
}

abbrev caller : Caller
caller = record { authorization = some "Bearer yt_abc"; client_host = some "203.0.113.9" }

-- No job, one row of the cache, one token with every scope of the tests.
abbrev app : App ℕ ((String → Option String) × (String → ℕ))
app = record {
  world = record {
    jobs = [];
    transcripts = new_row 10 1 transcript_record ∷ [];
    redis = (empty.redis, fresh);
    tasks = [];
    cache_hits = 0;
    cache_misses = 0;
  };
  tokens = record reader { scopes = "read" ∷ "batch" ∷ "admin" ∷ [] } ∷ [];
}

fair : IsFairApp hundredths memory counters http_env caller
fair = record {
  fair = record { sleeping = λ w h. h; before_steal = λ w. refl; after_steal = λ w h. h };
  pause = λ n w h. h;
}

app-IsCovered : IsCovered (joined memory counters) app.world
app-IsCovered = record { locks = tt }

abbrev query : TranscriptQuery
query = record {
  v = "dQw4w9WgXcQ";
  lang = "en";
  force = none;
  wait = 0;
  include = some "chapters, speakers";
}

abbrev body : BatchBody
body = record {
  videos = "dQw4w9WgXcQ" ∷ "?" ∷ [];
  lang = "en";
  include = [];
  callback_url = some "https://example.org/hook";
}

get_transcript_route-Guarded_example :
    Guarded hundredths memory counters http_env caller
      ("read" ∷ [])
      app
      (get_transcript_route hundredths memory counters http_env caller query app)
    × IsCovered
        (joined memory counters)
        (get_transcript_route hundredths memory counters http_env caller query app).1.world
get_transcript_route-Guarded_example =
    get_transcript_route-Guarded hundredths memory counters http_env caller query app fair
      app-IsCovered

delete_cache-Removes_example :
    Removes app.world.transcripts
      (delete_cache hundredths memory counters http_env caller "dQw4w9WgXcQ" app).0
      (delete_cache hundredths memory counters http_env caller "dQw4w9WgXcQ"
        app).1.world.transcripts
    × Guarded hundredths memory counters http_env caller
        ("admin" ∷ [])
        app
        (delete_cache hundredths memory counters http_env caller "dQw4w9WgXcQ" app)
delete_cache-Removes_example =
    delete_cache-Removes hundredths memory counters http_env caller "dQw4w9WgXcQ" app

others_keep_rows : KeepsRows hundredths memory service_env
others_keep_rows = record { kept = λ n w v t id h. h }

get_or_fetch-NamesJob_example :
    IsAbout "v1" (get_or_fetch hundredths memory service_env forcing "token" empty).0
    × NamesJob "v1" (get_or_fetch hundredths memory service_env forcing "token" empty)
get_or_fetch-NamesJob_example =
    get_or_fetch-NamesJob hundredths memory service_env others_keep_rows forcing "token" empty

-- A proxy on the same host, for a caller on the same host.
abbrev proxied : Peer
proxied = record { host = some "::1"; forwarded_for = some "127.0.0.1, 10.0.0.1"; real_ip = none }

abbrev not_an_address : String → Option Bool
not_an_address s = none

answered_body : metrics not_an_address "up 1" proxied ≡ ok "up 1"
unfolding metrics client_host_is_loopback host_is_loopback forwarded_candidate first_hop split_all
    strip lstrip rstrip
answered_body = refl

metrics-loopback_example :
    (host_is_loopback not_an_address proxied.host ≡ true)
    × (is_empty (first_hop proxied.forwarded_for) ≡ false
        → host_is_loopback not_an_address (some (first_hop proxied.forwarded_for)) ≡ true)
metrics-loopback_example = metrics-loopback not_an_address "up 1" "up 1" proxied answered_body
