-- ===== src/Http.antt =====
-- src/app/main.py: the handlers of the API on the tokens and the shared state. One Redis serves the locks
-- of the jobs and the counters of the rate limit, whose keys begin differently.
pub mod Transcripts
pub mod Batch
pub mod Operations
pub mod Loopback
pub mod Covered
pub mod Guarded
pub mod Fitting
pub mod Batched
pub mod Purging
use text.Mathlib.Text.{◌==◌}
use yt_service.Prelude.{
  ℕ, String, Bool, true, false, Option, none, some, List, [], ◌∷◌, ◌≡◌, Outcome, ok, raise, Float,
  select, map, not, is_empty, strip, split_all, if◌then◌else◌,
}
use yt_service.Errors.{
  Error, Envelope, Kind, status_code, to_error_envelope, rate_limited, daily_cost_cap, other,
}
use yt_service.World.{Redis, World}
use yt_service.Auth.{Token, require_scopes}
use yt_service.Middleware.{Counters, principal_of, enforce_rate_limit}
use yt_service.Service.{ServiceEnv}
use yt_service.Chapters.{ChapterEnv}
use yt_service.UrlSafety.{UrlEnv}

-- The locks on the left, the counters on the right.
abbrev pub joined : Redis → Counters → Redis
joined r c = record {
  Db = r.Db × c.Db;
  get = λ d k. r.get d.0 k;
  set_nx_ex = λ d k v t. ((r.set_nx_ex d.0 k v t).0, ((r.set_nx_ex d.0 k v t).1, d.1));
  delete = λ d k. (r.delete d.0 k, d.1);
  set_done = λ d k v t. r.set_done d.0 k v t;
  get-set = λ d k v t j. r.get-set d.0 k v t j;
  get-delete = λ d k j. r.get-delete d.0 k j;
}

pub record App (N Db : Type 0) : Type 0 where
  pub world : World N Db
  pub tokens : List Token

-- The `Authorization` header and the address of a request.
pub record Caller : Type 0 where
  pub authorization : Option String
  pub client_host : Option String

-- The clock, argon2's check, the limit and the window of each category, and what the parts meet.
pub record HttpEnv (N W : Type 0) : Type 0 where
  pub now : ℕ
  pub verify : String → String → Bool
  pub limit : String → ℕ
  pub window : String → ℕ
  pub urls : UrlEnv
  pub service : ServiceEnv N W
  pub chapters : ChapterEnv N

pub record ErrorResponse : Type 0 where
  pub status : ℕ
  pub envelope : Envelope
  pub retry_after : Option ℕ

-- The header stands on the answers of the rate limit and of the cost cap.
abbrev pub retry_header : Kind → Option ℕ → Option ℕ
retry_header rate_limited s = s
retry_header daily_cost_cap s = s
retry_header _ s = none

-- The handler of exceptions that the program does not declare tells nothing of them.
abbrev pub internal_envelope : Envelope
internal_envelope = record {
  error_field = "internal_error";
  message = "internal error";
  job_id = none;
  poll_url = none;
}

abbrev pub envelope_of : Kind → Error → Envelope
envelope_of (other name) exc = internal_envelope
envelope_of _ exc = to_error_envelope exc

unfoldable pub error_response : Error → ErrorResponse
unfolding to_error_envelope
error_response exc = record {
  status = status_code exc.kind;
  envelope = envelope_of exc.kind exc;
  retry_after = retry_header exc.kind exc.retry_after;
}

-- `_parse_include`
unfoldable pub parse_include : Option String → List String
unfolding split_all strip
parse_include none = []
parse_include (some raw) =
    if is_empty raw then [] else select (λ s. not (is_empty s)) (map strip (split_all "," raw))

-- What a handler returns or raises, and the state that it leaves.
abbrev pub Act : Type 0 → Type 0 → Type 0
Act W A = W → Outcome Error A × W

infixl 5 ◌>>>◌
abbrev pub ◌>>>◌ : {W A B : Type 0} → Outcome Error A × W → (A → Act W B) → Outcome Error B × W
(ok a, w) >>> k = k a w
(raise e, w) >>> k = (raise e, w)

module _ (f : Float) (r : Redis) (c : Counters) (env : HttpEnv f.Num (World f.Num (r.Db × c.Db)))
    (caller : Caller) where
  abbrev pub authorized :
      List String → App f.Num (r.Db × c.Db) → Outcome Error Token × App f.Num (r.Db × c.Db)
  authorized scopes app =
      let out = require_scopes env.verify env.now scopes caller.authorization app.tokens in
      (out.0, record app { tokens = out.1 })

  -- `enforce_rate_limit` on the shared Redis, for the token's owner.
  unfoldable pub spend :
      Token
      → String
      → World f.Num (r.Db × c.Db)
      → Outcome Error (Unit {0}) × World f.Num (r.Db × c.Db)
  unfolding enforce_rate_limit
  spend token category w =
      let out =
        enforce_rate_limit c (env.limit category) (env.window category) category
          (principal_of (some token.id) caller.client_host) w.redis.1 in
      (out.0, record w { redis = (w.redis.0, out.1) })

  -- The orchestrator's environment, with the hook that spends of the Whisper bucket.
  abbrev pub service_for : Token → ServiceEnv f.Num (World f.Num (r.Db × c.Db))
  service_for token = record env.service { whisper_rate_limit_hook = some (spend token "whisper") }

  -- An exception rolls the request's session back, but each write was committed at once.
  abbrev pub session_end :
      {A : Type 0}
      → App f.Num (r.Db × c.Db)
      → Outcome Error A × World f.Num (r.Db × c.Db)
      → Outcome ErrorResponse A × App f.Num (r.Db × c.Db)
  session_end app (ok response, w) = (ok response, record app { world = w })
  session_end app (raise e, w) = (raise (error_response e), record app { world = w })

  -- A refusal keeps the time of the token's last use, which its look-up has committed.
  abbrev pub with_token :
      {A : Type 0}
      → (Token → Act (World f.Num (r.Db × c.Db)) A)
      → Outcome Error Token × App f.Num (r.Db × c.Db)
      → Outcome ErrorResponse A × App f.Num (r.Db × c.Db)
  with_token handler (raise e, app) = (raise (error_response e), app)
  with_token handler (ok token, app) = session_end app (handler token app.world)

  -- The scopes are checked before the handler runs.
  unfoldable pub route :
      {A : Type 0}
      → List String
      → (Token → Act (World f.Num (r.Db × c.Db)) A)
      → App f.Num (r.Db × c.Db)
      → Outcome ErrorResponse A × App f.Num (r.Db × c.Db)
  unfolding error_response
  route scopes handler app = with_token handler (authorized scopes app)
