-- ===== src/Middleware.antt =====
-- src/app/middleware.py: `enforce_rate_limit`, on the limit and the window that the settings give the
-- category.
pub mod Keys
pub mod Bursts
use yt_service.Prelude.{
  ℕ, suc, ◌≡◌, String, Bool, true, false, Option, none, some, Outcome, ok, raise, ltb, ◌==◌,
  is_empty, str_cat, str_eq, if◌then◌else◌,
}
use yt_service.Errors.{Error, error, rate_limited}

-- The counters of Redis. `ttl` is none for the answers -1 and -2. That a counter is dropped when its
-- time is over is an act of Redis between the commands.
pub record Counters : Type 1 where
  pub Db : Type 0
  pub value : Db → String → ℕ
  pub ttl : Db → String → Option ℕ
  pub incr : Db → String → ℕ × Db
  pub expire : Db → String → ℕ → Db
  pub incr-count : (d : Db) (k : String) → (incr d k).0 ≡ suc (value d k)
  pub value-incr :
      (d : Db) (k j : String)
      → value (incr d k).1 j ≡ (if str_eq k j then suc (value d k) else value d j)
  pub value-expire : (d : Db) (k : String) (t : ℕ) (j : String) → value (expire d k t) j ≡ value d j

abbrev pub client_host : Option String → String
client_host none = "anonymous"
client_host (some host) = host

-- The id of the request's token if it has one, else the client's address, if it is known.
abbrev pub principal_of : Option String → Option String → String
principal_of none client = client_host client
principal_of (some token_id) client = if is_empty token_id then client_host client else token_id

unfoldable pub rate_limit_key : String → String → String
rate_limit_key category principal = str_cat "rl:" (str_cat category (str_cat ":" principal))

module _ (c : Counters) (limit window : ℕ) where
  -- `int(ttl) if ttl and ttl > 0 else window`
  abbrev pub retry_after : Option ℕ → ℕ
  retry_after none = window
  retry_after (some t) = if ltb 0 t then t else window

  abbrev pub limit_error : String → ℕ → Error
  limit_error category seconds =
      record (error rate_limited (str_cat "rate limit exceeded for " category)) {
        retry_after = some seconds;
      }

  unfoldable pub enforce_rate_limit : String → String → c.Db → Outcome Error (Unit {0}) × c.Db
  unfolding rate_limit_key error
  enforce_rate_limit category principal d =
      let key = rate_limit_key category principal in
      let count = (c.incr d key).0 in
      let d1 = (c.incr d key).1 in
      let d2 = if count == 1 then c.expire d1 key window else d1 in
      if ltb limit count
      then (raise (limit_error category (retry_after (c.ttl d2 key))), d2)
      else (ok tt, d2)
