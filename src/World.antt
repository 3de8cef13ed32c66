-- ===== src/World.antt =====
-- The shared state of the processes: the tables of src/app/models.py that are modelled, Redis, and
-- the RQ queues. A table is the list of its rows, and a statement does to it what its SQL says.
use Prim.Native.Nat.{ℕ}
use yt_service.Prelude.{
  String, Bool, true, false, Option, none, some, List, ◌≡◌, ◌&&◌, str_eq, if◌then◌else◌,
}
use yt_service.Domain.{Source, JobPayload}
use yt_service.Domain.Json.{Dict}

abbrev pub is_none {ℓ} : {A : Type ℓ} → Option A → Bool
is_none none = true
is_none (some a) = false

-- Redis, a service: the commands that the locks use. `set_nx_ex d k v t` is `SET k v NX EX t`.
-- That the server drops an expired key is an act of another process (`Contention` of Jobs).
pub record Redis : Type 1 where
  pub Db : Type 0
  pub get : Db → String → Option String
  pub set_nx_ex : Db → String → String → ℕ → Bool × Db
  pub delete : Db → String → Db
  -- `NX`: set exactly when the key is free
  pub set_done : (d : Db) (k v : String) (t : ℕ) → (set_nx_ex d k v t).0 ≡ is_none (get d k)
  pub get-set :
      (d : Db) (k v : String) (t : ℕ) (j : String)
      → get (set_nx_ex d k v t).1 j ≡ (if is_none (get d k) && str_eq k j then some v else get d j)
  pub get-delete :
      (d : Db) (k j : String) → get (delete d k) j ≡ (if str_eq k j then none else get d j)

pub data Status : Type 0 where
  queued running complete failed : Status

-- A row of `jobs`.
pub record Job : Type 0 where
  pub job_id : String
  pub video_id : String
  pub job_type : String
  pub status : Status
  pub started_at : Option ℕ
  pub finished_at : Option ℕ
  pub error : Option String
  pub token_id : String
  pub callback_url : Option String
  pub payload : Option JobPayload
  pub created_at : ℕ

-- A row of `transcripts`. The generated search column and the embedding are not read here.
pub record Transcript (N : Type 0) : Type 0 where
  pub video_id : String
  pub language : String
  pub source : Source
  pub is_generated : Bool
  pub duration_seconds : Option N
  pub snippets_jsonb : List (Dict N)
  pub full_text : String
  pub chapters_jsonb : Option (List (Dict N))
  pub has_diarization : Bool
  pub fetched_at : ℕ
  pub expires_at : ℕ

-- What a completion webhook carries.
pub record Delivery : Type 0 where
  pub callback_url : String
  pub event : String
  pub job_id : String
  pub video_id : String
  pub status : String
  pub source : Source
  pub poll_url : String
  pub secret : String
  pub attempt : ℕ

-- An entry of an RQ queue: the queue's name, and the task with its arguments.
pub data Task : Type 0 where
  run_job : String → String → String → Task
  deliver : String → Delivery → Task
  -- the webhook of a monitor: url, monitor, video and secret
  notify_monitor : String → String → String → String → Task
  -- `enqueue_in`: after that many seconds
  deliver_in : String → ℕ → Delivery → Task

pub record World (N Db : Type 0) : Type 0 where
  pub jobs : List Job
  pub transcripts : List (Transcript N)
  pub redis : Db
  pub tasks : List Task
  pub cache_hits : ℕ
  pub cache_misses : ℕ
