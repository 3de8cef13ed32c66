-- ===== src/Admin/Scopes.antt =====
-- The scopes that src/app/admin.py takes.
use mathlib.Core.Path.{subst}
use yt_service.Prelude.{
  String, true, false, Bool-cases, List, [], ◌∷◌, ◌≡◌, ◌≢◌, refl, inl, inr, Outcome, ok, raise,
  ◌>>=◌, is_empty, strip, split_all,
}
use yt_service.Errors.{Error}
use yt_service.Auth.{has_scope}
use yt_service.Admin.{allowed_scopes, not_empty, take_scopes, parse_scopes}

-- Each scope is one of the six, and neither among those seen before nor earlier in the list.
abbrev pub AreScopes : List String → List String → Type 0
AreScopes seen [] = Unit
AreScopes seen (scope ∷ scopes) =
    (has_scope scope allowed_scopes ≡ true)
    × (has_scope scope seen ≡ false)
    × AreScopes (scope ∷ seen) scopes

raise-ne_ok : {A : Type 0} (e : Error) (a : A) → ◌≡◌ {A = Outcome Error A} (raise e) (ok a) → ⊥
raise-ne_ok e a h = cc

ok_eq : {A : Type 0} {a b : A} → ◌≡◌ {A = Outcome Error A} (ok a) (ok b) → a ≡ b
ok_eq h = cc

kept :
    (seen : List String) (scope : String) (rest : Outcome Error (List String)) (out : List String)
    → has_scope scope allowed_scopes ≡ true
    → has_scope scope seen ≡ false
    → ((scopes : List String) → rest ≡ ok scopes → AreScopes (scope ∷ seen) scopes)
    → (rest >>= λ scopes. ok (scope ∷ scopes)) ≡ ok out
    → AreScopes seen out
kept seen scope (raise e) out allowed unseen ih h = absurd (raise-ne_ok e out h)
kept seen scope (ok scopes) out allowed unseen ih h =
    subst (AreScopes seen) (ok_eq h) (allowed, unseen, ih scopes refl)

taken : (seen pieces out : List String) → take_scopes seen pieces ≡ ok out → AreScopes seen out
unfolding take_scopes
taken seen [] out h = subst (AreScopes seen) (ok_eq h) tt
taken seen (piece ∷ pieces) out h = elim (Bool-cases (is_empty (strip piece))) [
  | inl e ↦ taken seen pieces out (rw e at h)
  | inr e ↦ elim (Bool-cases (has_scope (strip piece) seen)) [
    | inl s ↦ taken seen pieces out (rw (e, s) at h)
    | inr s ↦ elim (Bool-cases (has_scope (strip piece) allowed_scopes)) [
      | inl a ↦
          kept seen (strip piece) (take_scopes (strip piece ∷ seen) pieces) out a s
            (λ scopes. taken (strip piece ∷ seen) pieces scopes) (rw (e, s, a) at h)
      | inr a ↦ absurd (raise-ne_ok _ out (rw (e, s, a) at h))
    ]
  ]
]

-- What the command line accepts as `--scopes` is not empty, names none but the six scopes, and names
-- none twice.
pub parse_scopes-AreScopes :
    (raw : String) (scopes : List String)
    → parse_scopes raw ≡ ok scopes
    → (scopes ≢ []) × AreScopes [] scopes
unfolding parse_scopes
parse_scopes-AreScopes raw scopes h = go (take_scopes [] (split_all "," raw)) refl h
  where
    go :
        (o : Outcome Error (List String))
        → take_scopes [] (split_all "," raw) ≡ o
        → (o >>= not_empty) ≡ ok scopes
        → (scopes ≢ []) × AreScopes [] scopes
    go (raise e) eq k = absurd (raise-ne_ok e scopes k)
    go (ok []) eq k = absurd (raise-ne_ok _ scopes k)
    go (ok (s ∷ ss)) eq k =
        subst (λ out. (out ≢ []) × AreScopes [] out) (ok_eq k)
          (λ n. cons-ne_nil n, taken [] (split_all "," raw) (s ∷ ss) eq)
      where
        cons-ne_nil : (s ∷ ss) ≡ [] → ⊥
        cons-ne_nil n = cc
