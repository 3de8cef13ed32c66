-- ===== src/Monitors/Registry/Lookups.antt =====
-- What a look-up of src/app/monitors.py answers after a deletion or a pause.
use text.Mathlib.Text.{◌==◌}
use text.Mathlib.TextEquality.{eq_iff}
use mathlib.Core.Path.{subst}
use yt_service.Prelude.{
  String, Bool, true, false, Bool-cases, not, none, some, Option-cases, List, ◌≡◌, refl, ap, inl,
  inr, arith, Outcome, ok, raise, find, select, update, find-select, find-select-none,
  find-update_other, find-update_self, if◌then◌else◌,
}
use yt_service.Errors.{Error, error}
use yt_service.Monitors.{Monitor}
use yt_service.Monitors.Registry.{
  found_or_404, get_monitor, delete_monitor, with_paused, set_paused,
}

abbrev pub mapped : (Monitor → Monitor) → Outcome Error Monitor → Outcome Error Monitor
mapped f (ok m) = ok (f m)
mapped f (raise e) = raise e

abbrev is_id : String → Monitor → Bool
is_id id m = m.id == id

find-deleted :
    (id other : String) (rows : List Monitor)
    → find (is_id other) (select (λ m. not (m.id == id)) rows)
      ≡ (if id == other then none else find (is_id other) rows)
find-deleted id other rows = elim (Bool-cases (id == other)) [
  | inl e ↦ rw e (
      find-select-none (λ m. not (m.id == id)) (is_id other) rows
        (λ m h. ground (arith, e, h, eq_iff m.id id, eq_iff m.id other, eq_iff id other)))
  | inr e ↦ rw e (
      find-select (λ m. not (m.id == id)) (is_id other) rows
        (λ m h. ground (arith, e, h, eq_iff m.id id, eq_iff m.id other, eq_iff id other)))
]

find-paused_other :
    (id other : String) (paused : Bool) (rows : List Monitor)
    → id == other ≡ false
    → find (is_id other) (update (is_id id) (with_paused paused) rows) ≡ find (is_id other) rows
find-paused_other id other paused rows e =
    find-update_other (is_id id) (is_id other) (with_paused paused) rows
      (λ m h. ground (arith, e, h, eq_iff m.id id, eq_iff m.id other, eq_iff id other))
      (λ m h. ground (arith, e, h, eq_iff m.id id, eq_iff m.id other, eq_iff id other))

same_id : (id other : String) → id == other ≡ true → id ≡ other
same_id id other e = ground (arith, e, eq_iff id other)

get-absent :
    (id other : String) (rows : List Monitor)
    → find (is_id id) rows ≡ none
    → id == other ≡ true
    → find (is_id other) rows ≡ none
get-absent id other rows none_found e =
    subst (λ k. find (is_id k) rows ≡ none) (same_id id other e) none_found

get-delete_monitor :
    (id other : String) (rows : List Monitor)
    → get_monitor other (delete_monitor id rows).1
      ≡ (if id == other then found_or_404 other none else get_monitor other rows)
unfolding get_monitor delete_monitor
get-delete_monitor id other rows = elim (Option-cases (find (is_id id) rows)) [
  | inl n ↦ elim (Bool-cases (id == other)) [
    | inl e ↦ rw (n, e, get-absent id other rows n e) refl
    | inr e ↦ rw (n, e) refl
  ]
  | inr (m, s) ↦ elim (Bool-cases (id == other)) [
    | inl e ↦ rw (s, e) (ap (found_or_404 other) (rw e at (find-deleted id other rows)))
    | inr e ↦ rw (s, e) (ap (found_or_404 other) (rw e at (find-deleted id other rows)))
  ]
]

found-paused :
    (id : String) (paused : Bool) (rows : List Monitor) (m : Monitor)
    → find (is_id id) rows ≡ some m
    → find (is_id id) (update (is_id id) (with_paused paused) rows) ≡ some (with_paused paused m)
found-paused id paused rows m s =
    find-update_self (is_id id) (with_paused paused) rows m (λ a h. h) s

get-set_paused :
    (id other : String) (paused : Bool) (rows : List Monitor)
    → get_monitor other (set_paused id paused rows).1 ≡ (
        if id == other
        then mapped (with_paused paused) (get_monitor other rows)
        else get_monitor other rows)
unfolding get_monitor set_paused error
get-set_paused id other paused rows = elim (Option-cases (find (is_id id) rows)) [
  | inl n ↦ elim (Bool-cases (id == other)) [
    | inl e ↦ rw (n, e, get-absent id other rows n e) refl
    | inr e ↦ rw (n, e) refl
  ]
  | inr (m, s) ↦ elim (Bool-cases (id == other)) [
    | inl e ↦ rw (s, e) (own m s e)
    | inr e ↦ rw (s, e) (ap (found_or_404 other) (find-paused_other id other paused rows e))
  ]
]
  where
    own :
        (m : Monitor)
        → find (is_id id) rows ≡ some m
        → id == other ≡ true
        → found_or_404 other (find (is_id other) (update (is_id id) (with_paused paused) rows))
          ≡ mapped (with_paused paused) (found_or_404 other (find (is_id other) rows))
    own m s e =
        subst
          (λ k.
            found_or_404 other (find (is_id k) (update (is_id id) (with_paused paused) rows))
            ≡ mapped (with_paused paused) (found_or_404 other (find (is_id k) rows)))
          (same_id id other e) (rw (found-paused id paused rows m s, s) refl)

-- After a deletion of an id the look-up of it is the 404, and after a pause or its end the look-up of
-- it answers the row with that flag, or fails as before. Either way, and when the write fails, the
-- look-up of every other id answers as before.
pub get_monitor-writes :
    (id other : String) (paused : Bool) (rows : List Monitor)
    → (get_monitor other (delete_monitor id rows).1
        ≡ (if id == other then found_or_404 other none else get_monitor other rows))
      × (get_monitor other (set_paused id paused rows).1 ≡ (
          if id == other
          then mapped (with_paused paused) (get_monitor other rows)
          else get_monitor other rows))
get_monitor-writes id other paused rows =
    (get-delete_monitor id other rows, get-set_paused id other paused rows)
