-- ===== src/Tests/Auth.antt =====
-- The theorems on src/app/auth.py at concrete inputs.
use text.Mathlib.Text.{◌==◌}
use yt_service.Prelude.{String, Bool, none, some, [], ◌∷◌, ◌≡◌, refl, ok, strip}
use yt_service.Auth.{Token, credential, lookup_token, require_scopes}
use yt_service.Auth.Granting.{IsGranted, require_scopes-IsGranted}

-- A hash that is the token itself.
abbrev pub plainly : String → String → Bool
plainly stored plain = stored == plain

abbrev pub reader : Token
reader = record {
  id = "tok_1";
  name = "reader";
  token_hash = "yt_abc";
  scopes = "read" ∷ [];
  webhook_secret = none;
  last_used_at = none;
  revoked_at = none;
}

allowed :
    (require_scopes plainly 5 ("read" ∷ []) (some "Bearer yt_abc") (reader ∷ [])).0 ≡ ok reader
unfolding require_scopes lookup_token credential strip
allowed = refl

require_scopes-IsGranted_example :
    IsGranted plainly 5 ("read" ∷ []) (some "Bearer yt_abc") (reader ∷ []) reader
require_scopes-IsGranted_example =
    require_scopes-IsGranted plainly 5 ("read" ∷ []) (some "Bearer yt_abc") (reader ∷ []) reader
      allowed
