-- ===== src/Auth.antt =====
-- src/app/auth.py: the lookup of a bearer token, the scopes of a route, and the bootstrap of the first
-- admin. `verify` is argon2's check of a hash, which answers false where the code catches. A header
-- has no line break.
pub mod Granting
pub mod Bootstrap
use Prim.Native.Char.{Char, code}
use Prim.Native.String
use text.Mathlib.Text.{◌==◌}
use yt_service.Prelude.{
  ℕ, String, Bool, true, false, Option, none, some, List, [], ◌∷◌, not, ◌||◌, ◌&&◌, ◌+◌, Outcome,
  ok, raise, find, update, select, is_empty, is_space, strip, str_cat, if◌then◌else◌,
}
use yt_service.Prelude.{◌==◌ as eqb}
use yt_service.Errors.{Error, error, unauthorized, insufficient_scope}

-- A row of `tokens`. The overrides of rates are carried along only.
pub record Token : Type 0 where
  pub id : String
  pub name : String
  pub token_hash : String
  pub scopes : List String
  pub webhook_secret : Option String
  pub last_used_at : Option ℕ
  pub revoked_at : Option ℕ

abbrev pub is_live_token : Token → Bool
is_live_token t = elim t.revoked_at [ none ↦ true | some at ↦ false ]

-- `scope in scopes`
abbrev pub has_scope : String → List String → Bool
has_scope scope [] = false
has_scope scope (s ∷ ss) = s == scope || has_scope scope ss

-- The snapshot is the row as it was read.
abbrev pub found_token : ℕ → Option Token → List Token → Option Token × List Token
found_token now none rows = (none, rows)
found_token now (some token) rows =
    (some token, update (λ t. t.id == token.id) (λ t. record t { last_used_at = some now }) rows)

module _ (verify : String → String → Bool) where
  abbrev pub matches : String → Token → Bool
  matches plain t = is_live_token t && verify t.token_hash plain

  unfoldable pub lookup_token : ℕ → String → List Token → Option Token × List Token
  lookup_token now plain rows = found_token now (find (matches plain) rows) rows

  -- One letter of a text matches a small letter whatever its case.
  abbrev same_letter : Char → Char → Bool
  same_letter small c = eqb (code small) (code c) || eqb (code small) (code c + 32)

  abbrev after_scheme : String → String → Option String
  after_scheme String.[] s = some s
  after_scheme (String.◌∷◌ c cs) String.[] = none
  after_scheme (String.◌∷◌ c cs) (String.◌∷◌ d s) =
      let rest = after_scheme cs s in if same_letter c d then rest else none

  -- What stands after the scheme and a blank, stripped; an empty credential is none.
  abbrev credential_in : Option String → Option String
  credential_in none = none
  credential_in (some String.[]) = none
  credential_in (some (String.◌∷◌ c s)) =
      if is_space c then (if is_empty (strip s) then none else some (strip s)) else none

  -- `BEARER_RE` and the trimming of its group
  unfoldable pub credential : String → Option String
  unfolding strip
  credential header = credential_in (after_scheme "bearer" header)

  -- The first scope that is missing.
  abbrev pub missing_scope : List String → List String → Option String
  missing_scope [] scopes = none
  missing_scope (r ∷ rs) scopes = if has_scope r scopes then missing_scope rs scopes else some r

  abbrev pub lacking : List String → List String → Option String
  lacking required scopes = if has_scope "admin" scopes then none else missing_scope required scopes

  abbrev pub grant : Token → Option String → Outcome Error Token
  grant token none = ok token
  grant token (some scope) = raise (error insufficient_scope (str_cat "token lacks scope: " scope))

  abbrev pub granted : List String → Option Token × List Token → Outcome Error Token × List Token
  granted required (none, rows) = (raise (error unauthorized "invalid token"), rows)
  granted required (some token, rows) = (grant token (lacking required token.scopes), rows)

  abbrev pub with_credential :
      ℕ → List String → Option String → List Token → Outcome Error Token × List Token
  with_credential now required none rows =
      (raise (error unauthorized "missing or malformed Authorization header"), rows)
  with_credential now required (some plain) rows = granted required (lookup_token now plain rows)

  abbrev pub credential_of : Option String → Option String
  credential_of none = none
  credential_of (some header) = credential header

  -- The dependency that `require_scopes` returns, on a request with that `Authorization` header.
  unfoldable pub require_scopes :
      ℕ → List String → Option String → List Token → Outcome Error Token × List Token
  unfolding lookup_token credential error
  require_scopes now required header rows = with_credential now required (credential_of header) rows

abbrev pub bootstrap_row : String → String → Token
bootstrap_row id hash = record {
  id = id;
  name = "bootstrap-admin";
  token_hash = hash;
  scopes = "admin" ∷ "read" ∷ "batch" ∷ "summarize" ∷ "intelligence" ∷ "monitor" ∷ [];
  webhook_secret = none;
  last_used_at = none;
  revoked_at = none;
}

abbrev pub is_admin : Token → Bool
is_admin t = is_live_token t && has_scope "admin" t.scopes

-- `if plain` and no live admin: insert one. The advisory lock makes the two steps one.
unfoldable pub bootstrap_admin_token :
    String → String → Option String → List Token → Option String × List Token
bootstrap_admin_token id hash none rows = (none, rows)
bootstrap_admin_token id hash (some plain) rows =
    if is_empty plain then (none, rows) else elim (find is_admin rows) [
      | some admin ↦ (none, rows)
      | none ↦ (some plain, bootstrap_row id hash ∷ rows)
    ]
