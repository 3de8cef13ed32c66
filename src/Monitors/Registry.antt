-- ===== src/Monitors/Registry.antt =====
-- src/app/monitors.py: the rows of monitors.
pub mod Lookups
use text.Mathlib.Text.{◌==◌}
use yt_service.Prelude.{
  ℕ, String, Bool, true, false, not, Option, none, some, List, [], ◌∷◌, Outcome, ok, raise, ltb,
  find, select, update, str_cat, if◌then◌else◌,
}
use yt_service.Errors.{Error, error, not_found}
use yt_service.Monitors.{Monitor}

-- The arguments of `create_monitor`.
pub record NewMonitor : Type 0 where
  pub channel_id : String
  pub channel_url : String
  pub poll_interval_minutes : ℕ
  pub include : List String
  pub callback_url : String
  pub notes : Option String
  pub created_by : String

-- The fresh ULID and the database's clock are arguments.
unfoldable pub create_monitor : String → ℕ → NewMonitor → List Monitor → Monitor × List Monitor
create_monitor ulid now a rows =
    let monitor : Monitor = record {
      id = str_cat "mon_" ulid;
      channel_id = a.channel_id;
      channel_url = a.channel_url;
      poll_interval_minutes = a.poll_interval_minutes;
      include = a.include;
      callback_url = a.callback_url;
      notes = a.notes;
      last_polled_at = none;
      last_video_id = none;
      created_by = a.created_by;
      created_at = now;
      paused = false;
    } in
    (monitor, monitor ∷ rows)

-- `ORDER BY created_at DESC`
unfoldable pub insert_newest : Monitor → List Monitor → List Monitor
insert_newest m [] = m ∷ []
insert_newest m (x ∷ xs) =
    let rest = insert_newest m xs in if ltb m.created_at x.created_at then x ∷ rest else m ∷ x ∷ xs

unfoldable pub newest_first : List Monitor → List Monitor
unfolding insert_newest
newest_first [] = []
newest_first (m ∷ ms) = insert_newest m (newest_first ms)

unfoldable pub list_monitors : Bool → List Monitor → List Monitor
unfolding newest_first
list_monitors include_paused rows =
    newest_first (if include_paused then rows else select (λ m. not m.paused) rows)

abbrev pub found_or_404 : String → Option Monitor → Outcome Error Monitor
found_or_404 monitor_id none =
    raise (error not_found (str_cat "monitor '" (str_cat monitor_id "' not found")))
found_or_404 monitor_id (some m) = ok m

unfoldable pub get_monitor : String → List Monitor → Outcome Error Monitor
unfolding error
get_monitor monitor_id rows = found_or_404 monitor_id (find (λ m. m.id == monitor_id) rows)

abbrev pub then_write :
    {A : Type 0}
    → Outcome Error Monitor
    → (Monitor → A)
    → List Monitor
    → List Monitor
    → Outcome Error A × List Monitor
then_write (raise e) value written rows = (raise e, rows)
then_write (ok m) value written rows = (ok (value m), written)

unfoldable pub delete_monitor : String → List Monitor → Outcome Error (Unit {0}) × List Monitor
unfolding get_monitor
delete_monitor monitor_id rows =
    then_write (get_monitor monitor_id rows) (λ m. _) (select (λ m. not (m.id == monitor_id)) rows)
      rows

abbrev pub with_paused : Bool → Monitor → Monitor
with_paused paused m = record m { paused = paused }

unfoldable pub set_paused : String → Bool → List Monitor → Outcome Error Monitor × List Monitor
unfolding get_monitor
set_paused monitor_id paused rows =
    then_write (get_monitor monitor_id rows) (with_paused paused)
      (update (λ m. m.id == monitor_id) (with_paused paused) rows) rows
