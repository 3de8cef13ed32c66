-- ===== src/Tests/Fixtures.antt =====
-- A Redis, floats, a clock, and rows, concrete, for the tests.
use text.Mathlib.Text.{◌==◌}
use yt_service.Prelude.{
  ℕ, ◌+◌, ◌-◌, String, true, false, ◌&&◌, Option, none, some, [], ◌∷◌, ◌≡◌, refl, ap, arith, ltb,
  leb, ltb→lt, lt→ltb, ok, Float, if◌then◌else◌,
}
use yt_service.Domain.{
  Snippet, CaptionsResult, WhisperResult, TranscriptRecord, TranscriptRequest, JobPayload,
  whisper_openai, whisper_local,
}
use yt_service.Worker.Whisper.{WhisperEnv}
use yt_service.Service.{ServiceEnv}
use yt_service.World.{Redis, World, Job, is_none, queued}
use mathlib.Core.Path.{subst}
use yt_service.Jobs.Ledger.{JobEntry, job_registry}
use yt_service.Jobs.Locks.{lock_key}
use yt_service.Jobs.Exclusion.{HoldsLock, IsCovered}
use yt_service.Jobs.Enqueuing.{Contention, Submission}

-- A store of keys that never expire.
abbrev pub memory : Redis
memory = record {
  Db = String → Option String;
  get = λ d k. d k;
  set_nx_ex = λ d k v t. (is_none (d k), λ j. if is_none (d k) && k == j then some v else d j);
  delete = λ d k j. if k == j then none else d j;
  set_done = λ d k v t. refl;
  get-set = λ d k v t j. refl;
  get-delete = λ d k j. refl;
}

pub ltb_irrefl : (a : ℕ) → ltb a a ≡ false
ltb_irrefl a = ground arith

pub ltb_trans : (a b c : ℕ) → ltb a b ≡ true → ltb b c ≡ true → ltb a c ≡ true
ltb_trans a b c h k = ground (arith, ltb→lt a b h, ltb→lt b c k, lt→ltb a c)

-- Hundredths of a second, without the negative numbers.
abbrev pub hundredths : Float
hundredths = record {
  Num = ℕ;
  lt = ltb;
  le = leb;
  add = λ a b. a + b;
  sub = λ a b. a - b;
  lit = λ n. n;
  neg = λ n. 0;
  truthy = λ n. ltb 0 n;
  int_text = λ n. "0";
  parse = λ s. none;
  lt_irrefl = ltb_irrefl;
  lt_trans = ltb_trans;
}

abbrev pub Place : Type 0
Place = World ℕ (String → Option String)

abbrev pub unlocked : String → Option String
unlocked k = none

-- The Whisper lock of the video is the job's.
abbrev pub locked : String → Option String
locked k = if k == "lock:whisper:v1" then some "job-1" else none

abbrev pub payload : JobPayload
payload = record {
  video_id = "v1";
  language = "en";
  force_whisper = true;
  include = [];
  callback_url = some "https://example.org/hook";
}

abbrev pub active_job : Job
active_job = record {
  job_id = "job-1";
  video_id = "v1";
  job_type = "whisper";
  status = queued;
  started_at = none;
  finished_at = none;
  error = none;
  token_id = "token";
  callback_url = some "https://example.org/hook";
  payload = some payload;
  created_at = 5;
}

abbrev pub empty : Place
empty = record {
  jobs = [];
  transcripts = [];
  redis = unlocked;
  tasks = [];
  cache_hits = 0;
  cache_misses = 0;
}

-- One job is queued and owns its lock.
abbrev pub busy : Place
busy = record empty { jobs = active_job ∷ []; redis = locked }

abbrev pub alone : Contention Place
alone = record {
  job_id = "job-2";
  now = 10;
  sleeping = λ w. w;
  before_steal = λ w. w;
  after_steal = λ w. w;
  rq_error = none;
}

abbrev pub whisper_submission : Submission
whisper_submission = record {
  video_id = "v1";
  job_type = "whisper";
  payload = payload;
  token_id = "token";
}

abbrev pub snippet : Snippet ℕ
snippet = record { start = 100; duration = 200; text = "hello"; speaker = none; deep_link = "" }

abbrev pub transcript_record : TranscriptRecord ℕ
transcript_record = record {
  video_id = "v1";
  language = "en";
  source = whisper_local;
  is_generated = true;
  duration_seconds = some 300;
  snippet_count = 1;
  cached_at = 10;
  snippets = snippet ∷ [];
  full_text = "hello";
  chapters = none;
  has_diarization = false;
}

abbrev pub french_result : WhisperResult ℕ
french_result = record {
  video_id = "v1";
  source = whisper_openai;
  language = "french";
  snippets = snippet ∷ [];
  duration_seconds = 300;
  full_text = "hello";
}

-- A download and a transcription that succeed.
abbrev pub whisper_env : WhisperEnv ℕ Place
whisper_env = record {
  now = 10;
  cache_ttl_days = 1;
  download_audio = λ v. ok "/tmp/v1.m4a";
  transcribe = λ p v. ok french_result;
  token_secret = λ t. some (some "secret");
  webhook_refusal = none;
  downloading = λ w. w;
  transcribing = λ w. w;
}

abbrev pub captions : CaptionsResult ℕ
captions = record {
  video_id = "v1";
  language = "en";
  is_generated = true;
  snippets = snippet ∷ [];
  duration_seconds = some 300;
  full_text = "hello";
}

abbrev pub service_env : ServiceEnv ℕ Place
service_env = record {
  now = 10;
  cache_ttl_days = 1;
  max_video_duration_seconds = 1000;
  fetch_captions = λ v l. ok (some captions);
  fetch_video_metadata = λ v. ok none;
  whisper_rate_limit_hook = none;
  contention = alone;
  pause = λ n w. w;
}

abbrev pub request : TranscriptRequest
request = record {
  video_id = "v1";
  language = "en";
  force = none;
  wait_seconds = some 0;
  include = [];
  callback_url = none;
}

abbrev lock_op_of : Option JobEntry → String
lock_op_of none = ""
lock_op_of (some e) = e.lock_op

busy-HoldsLock : HoldsLock memory locked active_job
unfolding job_registry lock_key
busy-HoldsLock e he hp =
    subst (λ op. locked (lock_key "v1" op) ≡ some "job-1") (ap lock_op_of he) refl

pub busy-IsCovered : IsCovered memory busy
busy-IsCovered = record { locks = (busy-HoldsLock, tt) }
