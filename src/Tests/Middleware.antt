-- ===== src/Tests/Middleware.antt =====
-- The theorem on src/app/middleware.py at a concrete input.
use text.Mathlib.Text.{◌==◌}
use yt_service.Prelude.{ℕ, suc, ◌-◌, ◌≡◌, ◌≢◌, ◌⊎◌, true, String, none, refl, min, if◌then◌else◌}
use yt_service.Middleware.{Counters, rate_limit_key}
use yt_service.Middleware.Bursts.{burst, burst_passes}
use yt_service.Middleware.Keys.{is_plain}

-- Counters without expiry.
abbrev pub counters : Counters
counters = record {
  Db = String → ℕ;
  value = λ d k. d k;
  ttl = λ d k. none;
  incr = λ d k. (suc (d k), λ j. if k == j then suc (d k) else d j);
  expire = λ d k t. d;
  incr-count = λ d k. refl;
  value-incr = λ d k j. refl;
  value-expire = λ d k t j. refl;
}

abbrev pub fresh : String → ℕ
fresh k = 0

burst_passes_example :
    ((burst counters 3 60 "read" "tok_1" 5 fresh).0 ≡ min 5 (3 - 0))
    × ((other stranger : String)
        → is_plain other ≡ true
        → ("read" ≢ other) ⊎ ("tok_1" ≢ stranger)
        → (burst counters 3 60 "read" "tok_1" 5 fresh).1 (rate_limit_key other stranger) ≡ 0)
burst_passes_example = burst_passes counters 3 60 "read" "tok_1" 5 fresh refl
