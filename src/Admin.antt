-- ===== src/Admin.antt =====
-- src/app/admin.py: the tokens that the command line creates and revokes. The fresh token, its hash, its
-- id and the webhook secret are arguments.
pub mod Scopes
pub mod Revoking
use text.Mathlib.Text.{◌==◌}
use yt_service.Prelude.{
  ℕ, String, Bool, true, false, Option, none, some, List, [], ◌∷◌, Outcome, ok, raise, ◌>>=◌, find,
  update, is_empty, strip, split_all, str_cat, if◌then◌else◌,
}
use yt_service.Errors.{Error, exception}
use yt_service.Auth.{Token, has_scope}

abbrev pub allowed_scopes : List String
allowed_scopes = "read" ∷ "batch" ∷ "summarize" ∷ "intelligence" ∷ "monitor" ∷ "admin" ∷ []

abbrev unknown_scope : String → Error
unknown_scope scope = exception "BadParameter" (
    str_cat "unknown scope "
      (str_cat scope "; allowed: [admin, batch, intelligence, monitor, read, summarize]"))

-- The loop, on the scopes that were taken before.
unfoldable pub take_scopes : List String → List String → Outcome Error (List String)
unfolding strip exception
take_scopes seen [] = ok []
take_scopes seen (piece ∷ pieces) =
    let scope = strip piece in
    let skip = take_scopes seen pieces in
    let keep = take_scopes (scope ∷ seen) pieces in
    if is_empty scope
    then skip
    else if has_scope scope seen
    then skip
    else if has_scope scope allowed_scopes
    then (keep >>= λ out. ok (scope ∷ out))
    else raise (unknown_scope scope)

abbrev not_empty : List String → Outcome Error (List String)
not_empty [] = raise (exception "BadParameter" "--scopes must contain at least one non-empty scope")
not_empty (scope ∷ scopes) = ok (scope ∷ scopes)

unfoldable pub parse_scopes : String → Outcome Error (List String)
unfolding take_scopes split_all exception
parse_scopes raw = take_scopes [] (split_all "," raw) >>= not_empty

abbrev pub created : String → String → String → String → List String → Token
created id hash secret name scopes = record {
  id = id;
  name = name;
  token_hash = hash;
  scopes = scopes;
  webhook_secret = some secret;
  last_used_at = none;
  revoked_at = none;
}

-- `tokens create`: the row is inserted if the scopes parse.
unfoldable pub create_token :
    String → String → String → String → String → List Token → Outcome Error Token × List Token
unfolding parse_scopes
create_token id hash secret name raw rows = elim (parse_scopes raw) [
  | raise e ↦ (raise e, rows)
  | ok scopes ↦ (ok (created id hash secret name scopes), created id hash secret name scopes ∷ rows)
]

abbrev is_named : String → Token → Bool
is_named id t = t.id == id

abbrev revoked_once : ℕ → Token → List Token → List Token
revoked_once now token rows = elim token.revoked_at [
  | some at ↦ rows
  | none ↦ update (is_named token.id) (λ t. record t { revoked_at = some now }) rows
]

abbrev revoke_found : ℕ → Option Token → List Token → Bool × List Token
revoke_found now none rows = (false, rows)
revoke_found now (some token) rows = (true, revoked_once now token rows)

-- `tokens revoke`: whether the token was there, and the rows.
unfoldable pub revoke_token : ℕ → String → List Token → Bool × List Token
revoke_token now id rows = revoke_found now (find (is_named id) rows) rows
