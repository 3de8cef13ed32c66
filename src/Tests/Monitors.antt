-- ===== src/Tests/Monitors.antt =====
-- The theorems on src/app/monitor_scheduler.py at concrete inputs.
use yt_service.Prelude.{
  ℕ, ◌≤◌, ◌*◌, arith, String, true, false, none, some, [], ◌∷◌, ◌≡◌, ◌≢◌, refl, ap, str_eq, ok,
  List,
}
use yt_service.Monitors.{Monitor, MonitorEnv, collect, poll_one}
use yt_service.Monitors.Registry.{get_monitor, delete_monitor, set_paused}
use yt_service.Monitors.Registry.Lookups.{get_monitor-writes}
use yt_service.Monitors.Schedule.{Schedule, Tick, poll_loop}
use yt_service.Monitors.Schedule.Spacing.{polls_of, Spaced, poll_loop-Spaced}
use yt_service.Monitors.Progress.{IsDistinct, pending, poll_one-pending}
use yt_service.Tests.Fixtures.{hundredths, memory, Place, empty, service_env}

abbrev monitor : Monitor
monitor = record {
  id = "monitor";
  channel_id = "UCxxxxxxxxxxxxxxxxxxxxxx";
  channel_url = "https://www.youtube.com/@handle";
  poll_interval_minutes = 5;
  notes = none;
  created_at = 0;
  paused = false;
  include = [];
  callback_url = "https://example.org/hook";
  created_by = "token";
  last_polled_at = none;
  last_video_id = some "v0";
}

abbrev entries : List String
entries = "v2" ∷ "v1" ∷ "v0" ∷ []

abbrev monitor_env : MonitorEnv ℕ Place
monitor_env = record {
  now = 10;
  feed = ok entries;
  secret = "secret";
  webhook_refusal = λ v. none;
  service = λ v. service_env;
}

tested : false ≡ true → ⊥
tested h = cc

apart : ◌≢◌ {A = String} "v2" "v1"
apart e = tested (ap (λ s. str_eq s "v1") e)

distinct : IsDistinct (collect (some "v0") entries)
unfolding collect
distinct = ((apart, tt), (tt, tt))

poll_one-pending_example :
    collect (poll_one hundredths memory monitor_env monitor empty).0.last_video_id entries
    ≡ pending hundredths memory monitor_env monitor (collect (some "v0") entries) empty
poll_one-pending_example =
    poll_one-pending hundredths memory monitor_env monitor entries empty refl distinct

abbrev hourly : Monitor
hourly = record monitor { id = "hourly"; poll_interval_minutes = 60 }

abbrev idle : Schedule
idle = record { next_runs = []; last_reload = 0; monitors_cache = [] }

-- Every poll takes 200 seconds.
abbrev tick_at : ℕ → List Monitor → Tick
tick_at now rows = record { now = now; loading = 1; took = λ id. 200; rows = rows }

-- The table gains a row, and loses one.
abbrev ticks : List Tick
ticks =
    tick_at 1000 (hourly ∷ monitor ∷ [])
    ∷ tick_at 1411 (monitor ∷ hourly ∷ [])
    ∷ tick_at 1621 (hourly ∷ [])
    ∷ []

rows_long : (1 ≤ 5) × (5 ≤ 5) × (5 ≤ 60)
rows_long = (ground arith, ground arith, ground arith)

poll_loop-Spaced_example : Spaced (5 * 60) 0 (polls_of "monitor" (poll_loop ticks idle))
poll_loop-Spaced_example =
    poll_loop-Spaced "monitor" 5 0 ticks idle
      (
        (rows_long.2, (rows_long.1, tt)),
        ((rows_long.1, (rows_long.2, tt)), ((rows_long.2, tt), tt)),
      )
      tt (ground arith)

get_monitor-writes_example :
    (get_monitor "hourly" (delete_monitor "monitor" (monitor ∷ hourly ∷ [])).1
      ≡ get_monitor "hourly" (monitor ∷ hourly ∷ []))
    × (get_monitor "hourly" (set_paused "monitor" true (monitor ∷ hourly ∷ [])).1
        ≡ get_monitor "hourly" (monitor ∷ hourly ∷ []))
get_monitor-writes_example = get_monitor-writes "monitor" "hourly" true (monitor ∷ hourly ∷ [])
