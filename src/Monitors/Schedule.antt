-- ===== src/Monitors/Schedule.antt =====
-- `_poll_loop` of src/app/monitor_scheduler.py: when each monitor is polled. A poll that raises is caught,
-- and no poll changes the schedule. The polls of a tick are awaited one after the other, while the
-- schedule goes by the one reading of the clock, in whole seconds, at the start of the tick.
pub mod Spacing
use text.Mathlib.Text.{◌==◌}
use yt_service.Prelude.{
  ℕ, ◌+◌, ◌-◌, ◌*◌, String, Bool, true, false, List, [], ◌∷◌, ◌++◌, ltb, leb, if◌then◌else◌,
}
use yt_service.Monitors.{Monitor}
use yt_service.Monitors.Registry.{list_monitors}

abbrev pub reload_seconds : ℕ
reload_seconds = 300

-- `next_runs.get(id, 0)`: the latest entry of a key stands first.
abbrev pub next_run : String → List (String × ℕ) → ℕ
next_run id [] = 0
next_run id ((key, at) ∷ runs) = if key == id then at else next_run id runs

abbrev pub has_run : String → List (String × ℕ) → Bool
has_run id [] = false
has_run id ((key, at) ∷ runs) = if key == id then true else has_run id runs

abbrev pub set_default : String → ℕ → List (String × ℕ) → List (String × ℕ)
set_default id at runs = if has_run id runs then runs else (id, at) ∷ runs

pub record Schedule : Type 0 where
  pub next_runs : List (String × ℕ)
  pub last_reload : ℕ
  pub monitors_cache : List Monitor

abbrev pub set_defaults : ℕ → List Monitor → List (String × ℕ) → List (String × ℕ)
set_defaults now [] runs = runs
set_defaults now (m ∷ ms) runs = set_defaults now ms (set_default m.id now runs)

-- The rows are those of the table when the tick reads them.
unfoldable pub reload : ℕ → List Monitor → Schedule → Schedule
unfolding list_monitors
reload now rows s =
    if ltb reload_seconds (now - s.last_reload)
    then record {
      monitors_cache = list_monitors false rows;
      last_reload = now;
      next_runs = set_defaults now (list_monitors false rows) s.next_runs;
    }
    else s

abbrev pub is_due : ℕ → Monitor → List (String × ℕ) → Bool
is_due now m runs = leb (next_run m.id runs) now

-- A poll: the reading of the clock at the start of its tick, and when it is itself begun.
pub record Poll : Type 0 where
  pub id : String
  pub tick_time : ℕ
  pub begun : ℕ

-- The polls, of which the first that is due is begun at the given time and each takes what the
-- argument says, and the next runs.
unfoldable pub poll_due :
    (now : ℕ) (took : String → ℕ) (at : ℕ)
    → List Monitor
    → List (String × ℕ)
    → List Poll × List (String × ℕ)
poll_due now took at [] runs = ([], runs)
poll_due now took at (m ∷ ms) runs =
    let due = is_due now m runs in
    let out =
      poll_due now took (if due then at + took m.id else at) ms
        (if due then (m.id, now + m.poll_interval_minutes * 60) ∷ runs else runs) in
    (if due then record { id = m.id; tick_time = now; begun = at } ∷ out.0 else out.0, out.1)

-- The clock at the start of a tick, how long it then takes to load the rows and to poll each monitor,
-- and the rows of the table.
pub record Tick : Type 0 where
  pub now : ℕ
  pub loading : ℕ
  pub took : String → ℕ
  pub rows : List Monitor

unfoldable pub tick : Tick → Schedule → List Poll × Schedule
unfolding reload poll_due
tick k s =
    let loaded = reload k.now k.rows s in
    let out = poll_due k.now k.took (k.now + k.loading) loaded.monitors_cache loaded.next_runs in
    (out.0, record loaded { next_runs = out.1 })

-- The loop, through its ticks.
unfoldable pub poll_loop : List Tick → Schedule → List Poll
unfolding tick
poll_loop [] s = []
poll_loop (k ∷ ticks) s = let out = tick k s in let later = poll_loop ticks out.1 in out.0 ++ later
