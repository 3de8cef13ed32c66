-- ===== src/Monitors.antt =====
-- src/app/monitor_scheduler.py and src/app/monitors.py: one poll of a channel's feed, on the monitor's
-- row. The feed is the video ids of its entries, newest first, empty where an entry has none.
pub mod Collecting
pub mod Progress
pub mod Covered
pub mod Registry
pub mod Schedule
use text.Mathlib.Text.{◌==◌}
use yt_service.Prelude.{
  ℕ, String, Bool, true, false, not, ◌&&◌, Option, none, some, List, [], ◌∷◌, ◌++◌, Outcome, ok,
  raise, is_empty, Float, if◌then◌else◌,
}
use yt_service.Errors.{Error}
use yt_service.Domain.{TranscriptRequest}
use yt_service.World.{Redis, World, Task, notify_monitor}
use yt_service.Service.{Reply, transcript, job_accepted, ServiceEnv}
use yt_service.Service.Fetching.{get_or_fetch}

-- A row of `monitors`.
pub record Monitor : Type 0 where
  pub id : String
  pub channel_id : String
  pub channel_url : String
  pub poll_interval_minutes : ℕ
  pub include : List String
  pub callback_url : String
  pub notes : Option String
  pub last_polled_at : Option ℕ
  pub last_video_id : Option String
  pub created_by : String
  pub created_at : ℕ
  pub paused : Bool

-- The clock, the feed, the secret of the monitor's token, what RQ raises for the webhook of a video, and
-- what each request meets.
pub record MonitorEnv (N W : Type 0) : Type 0 where
  pub now : ℕ
  pub feed : Outcome Error (List String)
  pub secret : String
  pub webhook_refusal : String → Option Error
  pub service : String → ServiceEnv N W

abbrev pub seen : Option String → String → Bool
seen none video_id = false
seen (some last) video_id = not (is_empty last) && video_id == last

-- The new videos: those before the last that was seen.
unfoldable pub collect : Option String → List String → List String
collect last [] = []
collect last (v ∷ vs) =
    let rest = collect last vs in if is_empty v then rest else if seen last v then [] else v ∷ rest

-- `mark_polled`
unfoldable pub mark_polled : ℕ → Option String → Monitor → Monitor
mark_polled now none m = record m { last_polled_at = some now }
mark_polled now (some video_id) m = record m {
  last_polled_at = some now;
  last_video_id = some video_id;
}

-- How far the loop came: the newest video that succeeded, and whether it goes on.
pub record Dispatched (W : Type 0) : Type 0 where
  pub newest : Option String
  pub going : Bool
  pub world : W

module _ (f : Float) (r : Redis) (env : MonitorEnv f.Num (World f.Num r.Db)) (m : Monitor) where
  abbrev pub request_for : String → TranscriptRequest
  request_for video_id = record {
    video_id = video_id;
    language = "en";
    force = none;
    wait_seconds = some 0;
    include = m.include;
    callback_url = some m.callback_url;
  }

  abbrev pub send :
      Option Error → String → World f.Num r.Db → Outcome Error (Unit {0}) × World f.Num r.Db
  send (some e) video_id w = (raise e, w)
  send none video_id w = (
    ok tt,
    record w { tasks = w.tasks ++ notify_monitor m.callback_url m.id video_id env.secret ∷ [] },
  )

  -- A transcript is announced here; of a job the worker tells.
  abbrev pub announce :
      String
      → Outcome Error (Reply f.Num) × World f.Num r.Db
      → Outcome Error (Unit {0}) × World f.Num r.Db
  announce video_id (raise e, w) = (raise e, w)
  announce video_id (ok (job_accepted a), w) = (ok tt, w)
  announce video_id (ok (transcript t), w) = send (env.webhook_refusal video_id) video_id w

  unfoldable pub dispatch_video :
      String → World f.Num r.Db → Outcome Error (Unit {0}) × World f.Num r.Db
  unfolding get_or_fetch
  dispatch_video video_id w =
      announce video_id
        (get_or_fetch f r (env.service video_id) (request_for video_id) m.created_by w)

  abbrev pub advance :
      String
      → Option String
      → Outcome Error (Unit {0}) × World f.Num r.Db
      → Dispatched (World f.Num r.Db)
  advance video_id newest (ok u, w) = record { newest = some video_id; going = true; world = w }
  advance video_id newest (raise e, w) = record { newest = newest; going = false; world = w }

  -- Oldest first: the rest of the list, which is older, goes before its head.
  unfoldable pub dispatch_all : List String → World f.Num r.Db → Dispatched (World f.Num r.Db)
  unfolding dispatch_video
  dispatch_all [] w = record { newest = none; going = true; world = w }
  dispatch_all (v ∷ vs) w =
      let older = dispatch_all vs w in
      if older.going then advance v older.newest (dispatch_video v older.world) else older

  abbrev pub poll_new : List String → World f.Num r.Db → Monitor × World f.Num r.Db
  poll_new [] w = (mark_polled env.now none m, w)
  poll_new (v ∷ vs) w =
      let out = dispatch_all (v ∷ vs) w in (mark_polled env.now out.newest m, out.world)

  -- A feed without entries, like one that cannot be fetched, changes nothing.
  abbrev pub poll_feed : Outcome Error (List String) → World f.Num r.Db → Monitor × World f.Num r.Db
  poll_feed (raise e) w = (m, w)
  poll_feed (ok []) w = (m, w)
  poll_feed (ok (v ∷ vs)) w = poll_new (collect m.last_video_id (v ∷ vs)) w

  unfoldable pub poll_one : World f.Num r.Db → Monitor × World f.Num r.Db
  unfolding dispatch_all mark_polled collect
  poll_one w = poll_feed env.feed w
