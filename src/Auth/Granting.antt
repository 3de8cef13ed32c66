-- ===== src/Auth/Granting.antt =====
-- Whom the scopes of src/app/auth.py let in.
use yt_service.Prelude.{
  ℕ, String, Bool, true, Bool-cases, Option, none, some, Option-cases, List, [], ◌∷◌, ◌≡◌, ◌⊎◌,
  refl, inl, inr, arith, All, Outcome, ok, raise, find, find_sound,
}
use mathlib.Core.Path.{subst}
use yt_service.Errors.{Error}
use yt_service.Auth.{
  Token, is_live_token, has_scope, matches, lookup_token, missing_scope, lacking, grant,
  credential_of, require_scopes,
}

module _ (verify : String → String → Bool) (now : ℕ) (required : List String) where
  -- The token is of a row that is not revoked and whose hash verifies the credential, and it is an
  -- admin's or has every required scope.
  pub record IsGranted (header : Option String) (rows : List Token) (token : Token) : Type 0 where
    pub plain : String
    pub credential_read : credential_of verify header ≡ some plain
    pub row : find (matches verify plain) rows ≡ some token
    pub live : is_live_token token ≡ true
    pub verified : verify token.token_hash plain ≡ true
    pub scoped :
        (has_scope "admin" token.scopes ≡ true)
        ⊎ All (λ scope. has_scope scope token.scopes ≡ true) required

  missing-none :
      (rs scopes : List String)
      → missing_scope verify rs scopes ≡ none
      → All (λ scope. has_scope scope scopes ≡ true) rs
  missing-none [] scopes h = tt
  missing-none (r ∷ rs) scopes h = elim (Bool-cases (has_scope r scopes)) [
    | inl e ↦ (e, missing-none rs scopes (rw e at h))
    | inr e ↦ absurd (some-ne_none r (rw e at h))
  ]
    where
      some-ne_none : (s : String) → ◌≡◌ {A = Option String} (some s) none → ⊥
      some-ne_none s e = cc

  raise-ne_ok : (e : Error) (t : Token) → ◌≡◌ {A = Outcome Error Token} (raise e) (ok t) → ⊥
  raise-ne_ok e t h = cc

  ok_eq : (a b : Token) → ◌≡◌ {A = Outcome Error Token} (ok a) (ok b) → a ≡ b
  ok_eq a b e = cc

  grant-ok :
      (token t : Token) (o : Option String) → grant verify token o ≡ ok t → (o ≡ none) × (token ≡ t)
  grant-ok token t none h = (refl, ok_eq token t h)
  grant-ok token t (some s) h = absurd (raise-ne_ok _ t h)

  lacking-none :
      (scopes : List String)
      → lacking verify required scopes ≡ none
      → (has_scope "admin" scopes ≡ true) ⊎ All (λ scope. has_scope scope scopes ≡ true) required
  lacking-none scopes h = elim (Bool-cases (has_scope "admin" scopes)) [
    | inl e ↦ inl e
    | inr e ↦ inr (missing-none required scopes (rw e at h))
  ]

  found-IsGranted :
      (header : Option String) (plain : String) (rows : List Token) (t token : Token)
      → credential_of verify header ≡ some plain
      → find (matches verify plain) rows ≡ some t
      → grant verify t (lacking verify required t.scopes) ≡ ok token
      → IsGranted header rows token
  found-IsGranted header plain rows t token read found h =
      let (allowed, same) = grant-ok t token (lacking verify required t.scopes) h in
      let checked = find_sound (matches verify plain) rows t found in
      subst (IsGranted header rows) same (record {
        plain = plain;
        credential_read = read;
        row = found;
        live = ground (arith, checked);
        verified = ground (arith, checked);
        scoped = lacking-none t.scopes allowed;
      })

  -- Whoever is let in has a token in the rows that is not revoked and whose hash verifies the
  -- credential of the header, and that is an admin's or has every required scope.
  pub require_scopes-IsGranted :
      (header : Option String) (rows : List Token) (token : Token)
      → (require_scopes verify now required header rows).0 ≡ ok token
      → IsGranted header rows token
  unfolding require_scopes lookup_token
  require_scopes-IsGranted header rows token h = elim (Option-cases (credential_of verify header)) [
    | inl e ↦ absurd (raise-ne_ok _ token (rw (e, require_scopes) at h))
    | inr (plain, e) ↦ elim (Option-cases (find (matches verify plain) rows)) [
      | inl n ↦ absurd (raise-ne_ok _ token (rw (e, require_scopes, n) at h))
      | inr (t, n) ↦ found-IsGranted header plain rows t token e n (rw (e, require_scopes, n) at h)
    ]
  ]
