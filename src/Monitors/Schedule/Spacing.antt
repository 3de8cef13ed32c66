-- ===== src/Monitors/Schedule/Spacing.antt =====
-- Between two ticks of src/app/monitor_scheduler.py that poll a monitor lies its interval.
use text.Mathlib.Text.{◌==◌}
use text.Mathlib.TextEquality.{eq_iff}
use mathlib.Core.Path.{subst}
use yt_service.Prelude.{
  ℕ, ◌+◌, ◌-◌, ◌*◌, ◌≤◌, String, Bool, true, false, Bool-cases, not, List, [], ◌∷◌, ◌++◌, ◌≡◌, refl,
  inl, inr, arith, All, ltb, select, if◌then◌else◌,
}
use yt_service.Monitors.{Monitor}
use yt_service.Monitors.Registry.{list_monitors, newest_first, insert_newest}
use yt_service.Monitors.Schedule.{
  reload_seconds, next_run, has_run, set_default, set_defaults, Schedule, Poll, Tick, reload,
  is_due, poll_due, tick, poll_loop,
}

-- The polls of one monitor.
abbrev pub polls_of : String → List Poll → List Poll
polls_of id [] = []
polls_of id (p ∷ polls) = let rest = polls_of id polls in if p.id == id then p ∷ rest else rest

-- The tick of the first is at least the bound, each is begun no earlier than its tick, and the tick of
-- the next is at least the gap after it.
abbrev pub Spaced : ℕ → ℕ → List Poll → Type 0
Spaced gap b [] = Unit {0}
Spaced gap b (p ∷ ps) =
    (b ≤ p.tick_time) × (p.tick_time ≤ p.begun) × Spaced gap (p.tick_time + gap) ps

-- Every row has at least that interval.
abbrev pub HasInterval : ℕ → List Monitor → Type 0
HasInterval minutes = All (λ m. minutes ≤ m.poll_interval_minutes)

insert-HasInterval :
    (d : ℕ) (m : Monitor) (ms : List Monitor)
    → d ≤ m.poll_interval_minutes
    → HasInterval d ms
    → HasInterval d (insert_newest m ms)
unfolding insert_newest
insert-HasInterval d m [] h hs = (h, tt)
insert-HasInterval d m (x ∷ xs) h hs = elim (Bool-cases (ltb m.created_at x.created_at)) [
  | inl e ↦ rw e (hs.0, insert-HasInterval d m xs h hs.1)
  | inr e ↦ rw e (h, hs)
]

newest-HasInterval :
    (d : ℕ) (ms : List Monitor) → HasInterval d ms → HasInterval d (newest_first ms)
unfolding newest_first
newest-HasInterval d [] h = tt
newest-HasInterval d (m ∷ ms) h =
    insert-HasInterval d m (newest_first ms) h.0 (newest-HasInterval d ms h.1)

select-HasInterval :
    (d : ℕ) (p : Monitor → Bool) (ms : List Monitor)
    → HasInterval d ms
    → HasInterval d (select p ms)
select-HasInterval d p [] h = tt
select-HasInterval d p (m ∷ ms) h = elim (Bool-cases (p m)) [
  | inl e ↦ rw e (h.0, select-HasInterval d p ms h.1)
  | inr e ↦ rw e (select-HasInterval d p ms h.1)
]

list-HasInterval :
    (d : ℕ) (rows : List Monitor) → HasInterval d rows → HasInterval d (list_monitors false rows)
unfolding list_monitors
list-HasInterval d rows h =
    newest-HasInterval d (select (λ m. not m.paused) rows)
      (select-HasInterval d (λ m. not m.paused) rows h)

module _ (id : String) where
  next-absent : (runs : List (String × ℕ)) → has_run id runs ≡ false → next_run id runs ≡ 0
  next-absent [] h = refl
  next-absent ((k, t) ∷ runs) h = ground (arith, h, next-absent runs)

  -- A default never makes a run earlier.
  set_default-later :
      (b : ℕ) (key : String) (at : ℕ) (runs : List (String × ℕ))
      → b ≤ next_run id runs
      → b ≤ next_run id (set_default key at runs)
  set_default-later b key at runs h = elim (Bool-cases (has_run key runs)) [
    | inl e ↦ rw e h
    | inr e ↦ elim (Bool-cases (key == id)) [
      | inl same ↦ rw (e, same) (ground (arith, h, absent same e))
      | inr apart ↦ rw (e, apart) h
    ]
  ]
    where
      absent : key == id ≡ true → has_run key runs ≡ false → next_run id runs ≡ 0
      absent same e =
          next-absent runs
            (subst (λ k. has_run k runs ≡ false) (ground (arith, same, eq_iff key id)) e)

  set_defaults-later :
      (b now : ℕ) (ms : List Monitor) (runs : List (String × ℕ))
      → b ≤ next_run id runs
      → b ≤ next_run id (set_defaults now ms runs)
  set_defaults-later b now [] runs h = h
  set_defaults-later b now (m ∷ ms) runs h =
      set_defaults-later b now ms (set_default m.id now runs) (set_default-later b m.id now runs h)

  module _ (d now : ℕ) (took : String → ℕ) (later : List Poll) where
    -- What holds of the polls after the bound that the next run gives.
    abbrev Continues : List (String × ℕ) → Type 0
    Continues runs = (b : ℕ) → b ≤ next_run id runs → Spaced (d * 60) b (polls_of id later)

    abbrev runs_after : Monitor → List (String × ℕ) → List (String × ℕ)
    runs_after m runs = (m.id, now + m.poll_interval_minutes * 60) ∷ runs

    abbrev poll_at : ℕ → Monitor → Poll
    poll_at at m = record { id = m.id; tick_time = now; begun = at }

    polled-Spaced :
        (m : Monitor) (runs : List (String × ℕ)) (at b : ℕ) (rest : List Poll)
        → d ≤ m.poll_interval_minutes
        → now ≤ at
        → b ≤ next_run id runs
        → is_due now m runs ≡ true
        → ((b1 : ℕ) → b1 ≤ next_run id (runs_after m runs) → Spaced (d * 60) b1 (polls_of id rest))
        → Spaced (d * 60) b (polls_of id (poll_at at m ∷ rest))
    polled-Spaced m runs at b rest long late h due again = elim (Bool-cases (m.id == id)) [
      | inl same ↦
          rw same (in_time same, late, again (now + d * 60) (rw same (ground (arith, long))))
      | inr apart ↦ rw apart (again b (rw apart h))
    ]
      where
        in_time : m.id == id ≡ true → b ≤ now
        in_time same =
            let began : b ≤ next_run m.id runs =
              subst (λ k. b ≤ next_run k runs) (ground (arith, same, eq_iff m.id id)) h in
            ground (arith, began, due)

    poll_due-Spaced :
        (ms : List Monitor) (runs : List (String × ℕ)) (at b : ℕ)
        → HasInterval d ms
        → now ≤ at
        → b ≤ next_run id runs
        → Continues (poll_due now took at ms runs).1
        → Spaced (d * 60) b (polls_of id ((poll_due now took at ms runs).0 ++ later))
    unfolding poll_due
    poll_due-Spaced [] runs at b long late h rest = rest b h
    poll_due-Spaced (m ∷ ms) runs at b long late h rest = elim (Bool-cases (is_due now m runs)) [
      | inl due ↦ rw due (
          polled-Spaced m runs at b
            ((poll_due now took (at + took m.id) ms (runs_after m runs)).0 ++ later) long.0 late h
            due
            (λ b1 h1.
              poll_due-Spaced ms (runs_after m runs) (at + took m.id) b1 long.1
                (omega (arith, late)) h1 (rw due at rest)))
      | inr due ↦ rw due (poll_due-Spaced ms runs at b long.1 late h (rw due at rest))
    ]

  module _ (d now : ℕ) (rows : List Monitor) (s : Schedule) where
    reload-later :
        (b : ℕ) → b ≤ next_run id s.next_runs → b ≤ next_run id (reload now rows s).next_runs
    unfolding reload
    reload-later b h = elim (Bool-cases (ltb reload_seconds (now - s.last_reload))) [
      | inl e ↦ rw e (set_defaults-later b now (list_monitors false rows) s.next_runs h)
      | inr e ↦ rw e h
    ]

    reload-HasInterval :
        HasInterval d rows
        → HasInterval d s.monitors_cache
        → HasInterval d (reload now rows s).monitors_cache
    unfolding reload
    reload-HasInterval fresh old = elim (Bool-cases (ltb reload_seconds (now - s.last_reload))) [
      | inl e ↦ rw e (list-HasInterval d rows fresh)
      | inr e ↦ rw e old
    ]

  -- Whatever rows the ticks of the loop read, at whatever times, however long the polls take, and
  -- whichever monitors come and go: if no row has an interval below the given minutes, as the validator
  -- holds them to five, then the ticks in which a monitor is polled begin no earlier than its next run
  -- and lie at least so many minutes apart, and each poll is begun no earlier than its tick. How late it
  -- is begun in its tick, after the polls of others, the next one may be earlier.
  pub poll_loop-Spaced :
      (d b : ℕ) (ticks : List Tick) (s : Schedule)
      → All (λ k. HasInterval d k.rows) ticks
      → HasInterval d s.monitors_cache
      → b ≤ next_run id s.next_runs
      → Spaced (d * 60) b (polls_of id (poll_loop ticks s))
  unfolding poll_loop tick
  poll_loop-Spaced d b [] s fresh old h = _
  poll_loop-Spaced d b (k ∷ ticks) s fresh old h =
      let loaded = reload k.now k.rows s in
      let kept = reload-HasInterval d k.now k.rows s fresh.0 old in
      poll_due-Spaced d k.now k.took (poll_loop ticks (tick k s).1) loaded.monitors_cache
        loaded.next_runs (k.now + k.loading) b kept (omega arith)
        (reload-later d k.now k.rows s b h)
        (λ b1 h1. poll_loop-Spaced d b1 ticks (tick k s).1 fresh.1 kept h1)
