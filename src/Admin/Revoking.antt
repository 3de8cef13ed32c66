-- ===== src/Admin/Revoking.antt =====
-- A token that src/app/admin.py has revoked opens no route of src/app/auth.py.
use text.Mathlib.Text.{◌==◌}
use text.Mathlib.TextEquality.{eq_iff}
use mathlib.Core.Path.{subst}
use yt_service.Prelude.{
  ℕ, String, Bool, true, false, Bool-cases, Option, none, some, Option-cases, List, [], ◌∷◌, ◌≡◌,
  ◌≢◌, refl, sym, ◌∙◌, inl, inr, All, All-map, ok, find, find_sound, update, if◌then◌else◌,
}
use yt_service.Auth.{Token, is_live_token, require_scopes}
use yt_service.Auth.Granting.{require_scopes-IsGranted}
use yt_service.Admin.{is_named, revoked_once, revoke_token}

-- The primary key of `tokens`.
abbrev pub IsKeyed : List Token → Type 0
IsKeyed [] = Unit
IsKeyed (t ∷ ts) = All (λ u. u.id ≢ t.id) ts × IsKeyed ts

-- The row is not that of a live token of that id.
abbrev IsOut : String → Token → Type 0
IsOut id t = t.id ≡ id → is_live_token t ≡ false

found-All {κ} :
    (P : Token → Type κ) (p : Token → Bool) (ts : List Token) (t : Token)
    → All P ts
    → find p ts ≡ some t
    → P t
found-All P p [] t h e = absurd (none-ne_some e)
  where
    none-ne_some : {u : Token} → none ≡ some u → ⊥
    none-ne_some k = cc
found-All P p (u ∷ ts) t h e = elim (Bool-cases (p u)) [
  | inl c ↦ subst P (some_eq (rw c at e)) h.0
  | inr c ↦ found-All P p ts t h.1 (rw c at e)
]
  where
    some_eq : {a b : Token} → some a ≡ some b → a ≡ b
    some_eq k = cc

updated-IsOut :
    (now : ℕ) (id : String) (ts : List Token)
    → All (IsOut id) (update (is_named id) (λ t. record t { revoked_at = some now }) ts)
updated-IsOut now id [] = tt
updated-IsOut now id (t ∷ ts) = (one, updated-IsOut now id ts)
  where
    one : IsOut id (if t.id == id then record t { revoked_at = some now } else t)
    one = elim (Bool-cases (t.id == id)) [
      | inl e ↦ rw e (λ h. refl)
      | inr e ↦ rw e (λ h. absurd (false-ne_true e ((eq_iff t.id id).1 h)))
    ]
      where
        false-ne_true : {b : Bool} → b ≡ false → b ≡ true → ⊥
        false-ne_true p q = cc

-- The row that is found is revoked already, and no other has its id.
kept-IsOut :
    (id : String) (ts : List Token) (t : Token)
    → IsKeyed ts
    → find (is_named id) ts ≡ some t
    → is_live_token t ≡ false
    → All (IsOut id) ts
kept-IsOut id [] t keyed e out = tt
kept-IsOut id (u ∷ ts) t keyed e out = elim (Bool-cases (u.id == id)) [
  | inl c ↦ (
    λ h. subst (λ a. is_live_token a ≡ false) (sym (some_eq (rw c at e))) out,
    All-map ts (λ v other same. absurd (other (same ∙ sym ((eq_iff u.id id).0 c)))) keyed.0,
  )
  | inr c ↦
      (λ h. absurd (apart c ((eq_iff u.id id).1 h)), kept-IsOut id ts t keyed.1 (rw c at e) out)
]
  where
    some_eq : {a b : Token} → some a ≡ some b → a ≡ b
    some_eq k = cc

    apart : {b : Bool} → b ≡ false → b ≡ true → ⊥
    apart p q = cc

module _ (now : ℕ) (id : String) (rows : List Token) (keyed : IsKeyed rows) where
  revoked-IsOut : (revoke_token now id rows).0 ≡ true → All (IsOut id) (revoke_token now id rows).1
  unfolding revoke_token
  revoked-IsOut h = elim (Option-cases (find (is_named id) rows)) [
    | inl e ↦ absurd (apart (rw e at h))
    | inr (t, e) ↦ rw e (once t e (t.revoked_at) refl)
  ]
    where
      apart : false ≡ true → ⊥
      apart p = cc

      once :
          (t : Token)
          → find (is_named id) rows ≡ some t
          → (o : Option ℕ) → t.revoked_at ≡ o
          → All (IsOut id) (revoked_once now t rows)
      once t e none eq =
          let same : t.id ≡ id = (eq_iff t.id id).0 (find_sound (is_named id) rows t e) in
          rw eq (
            subst
              (λ a.
                All (IsOut id) (update (is_named a) (λ u. record u { revoked_at = some now }) rows))
              (sym same) (updated-IsOut now id rows))
      once t e (some at) eq = rw eq (kept-IsOut id rows t keyed e (rw eq refl))

  -- Once a token is revoked, by this call or before it, no request is let in as that token: the ids of
  -- the rows are distinct.
  pub require_scopes-revoke_token :
      (verify : String → String → Bool) (later : ℕ) (required : List String)
      (header : Option String) (token : Token)
      → (revoke_token now id rows).0 ≡ true
      → (require_scopes verify later required header (revoke_token now id rows).1).0 ≡ ok token
      → token.id ≢ id
  require_scopes-revoke_token verify later required header token revoked granted same =
      let g = require_scopes-IsGranted verify later required header _ token granted in
      apart (found-All (IsOut id) _ _ token (revoked-IsOut revoked) g.row same) g.live
    where
      apart : {b : Bool} → b ≡ false → b ≡ true → ⊥
      apart p q = cc
