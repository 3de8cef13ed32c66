-- ===== src/Tests/Admin.antt =====
-- The theorems on src/app/admin.py at concrete inputs.
use text.Mathlib.Text.{◌==◌}
use yt_service.Prelude.{true, false, some, [], ◌∷◌, ◌≡◌, ◌≢◌, refl, ap, ok, strip, split_all}
use yt_service.Auth.{Token, credential, lookup_token, require_scopes}
use yt_service.Admin.{parse_scopes, revoke_token, take_scopes}
use yt_service.Admin.Revoking.{IsKeyed, require_scopes-revoke_token}
use yt_service.Tests.Auth.{plainly, reader}

parsed : parse_scopes " read, batch,read," ≡ ok ("read" ∷ "batch" ∷ [])
unfolding parse_scopes take_scopes split_all strip
parsed = refl

abbrev batcher : Token
batcher = record reader { id = "tok_2"; token_hash = "yt_def"; scopes = "batch" ∷ [] }

tested : false ≡ true → ⊥
tested h = cc

distinct : IsKeyed (reader ∷ batcher ∷ [])
distinct = ((λ e. tested (ap (λ s. s == "tok_1") e), tt), (tt, tt))

revoked : (revoke_token 7 "tok_1" (reader ∷ batcher ∷ [])).0 ≡ true
unfolding revoke_token
revoked = refl

still_in :
    (require_scopes plainly 8
      ("batch" ∷ [])
      (some "Bearer yt_def")
      (revoke_token 7 "tok_1" (reader ∷ batcher ∷ [])).1).0
    ≡ ok batcher
unfolding require_scopes lookup_token credential strip revoke_token
still_in = refl

require_scopes-revoke_token_example : batcher.id ≢ "tok_1"
require_scopes-revoke_token_example =
    require_scopes-revoke_token 7 "tok_1" (reader ∷ batcher ∷ []) distinct plainly 8 ("batch" ∷ [])
      (some "Bearer yt_def") batcher revoked still_in
