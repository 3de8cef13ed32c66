-- ===== src/Http/Guarded.antt =====
-- Whom the routes of src/app/main.py let in, and what they leave of the state.
use text.Mathlib.Text.{◌==◌}
use yt_service.Prelude.{
  ℕ, String, Bool, Option, none, some, List, [], ◌∷◌, ◌≡◌, ◌⊎◌, inl, inr, refl, Outcome, ok, raise,
  Float, ap, map, Bool-cases, find, update,
}
use yt_service.Errors.{Error, error, status_code}
use yt_service.World.{Redis, World}
use yt_service.Jobs.Exclusion.{IsCovered}
use yt_service.Auth.{
  Token, matches, found_token, lookup_token, lacking, grant, granted, with_credential,
  credential_of, require_scopes,
}
use yt_service.Auth.Granting.{IsGranted, require_scopes-IsGranted}
use yt_service.Middleware.{Counters}
use yt_service.Http.{
  joined, App, Caller, HttpEnv, ErrorResponse, error_response, Act, route, with_token, session_end,
}
use yt_service.Http.Transcripts.{TranscriptQuery, handle_transcript, get_transcript_route}
use yt_service.Http.Covered.{IsFairApp, handle_transcript-Kept}

-- The answer is a failure of that status.
abbrev pub HasStatus : {A : Type 0} → ℕ → Outcome ErrorResponse A → Type 0
HasStatus n (ok a) = ⊥
HasStatus n (raise e) = e.status ≡ n

-- A row of a token but for the time of its last use.
abbrev pub without_use : Token → Token
without_use t = record t { last_used_at = none }

-- What `require_scopes` leaves when it raises: of a status 401 the rows, of a status 403 the rows but
-- for the time of a last use.
abbrev Denies : List Token → Outcome Error Token × List Token → Type 0
Denies rows (ok token, after) = Unit {0}
Denies rows (raise e, after) =
    ((status_code e.kind ≡ 401) × (after ≡ rows))
    ⊎ ((status_code e.kind ≡ 403) × (map without_use after ≡ map without_use rows))

uses-update :
    (p : Token → Bool) (now : ℕ) (rows : List Token)
    → map without_use (update p (λ t. record t { last_used_at = some now }) rows)
      ≡ map without_use rows
uses-update p now [] = refl
uses-update p now (t ∷ ts) = elim (Bool-cases (p t)) [
  | inl e ↦ rw e (ap (λ us. without_use t ∷ us) (uses-update p now ts))
  | inr e ↦ rw e (ap (λ us. without_use t ∷ us) (uses-update p now ts))
]

module _ (verify : String → String → Bool) (now : ℕ) (required : List String) where
  grant-Denies :
      (rows after : List Token) (token : Token) (o : Option String)
      → map without_use after ≡ map without_use rows
      → Denies rows (grant verify token o, after)
  unfolding error status_code
  grant-Denies rows after token none h = _
  grant-Denies rows after token (some scope) h = inr (refl, h)

  granted-Denies :
      (rows : List Token) (o : Option Token)
      → Denies rows (granted verify required (found_token now o rows))
  unfolding error status_code
  granted-Denies rows none = inl (refl, refl)
  granted-Denies rows (some token) =
      grant-Denies rows _ token (lacking verify required token.scopes)
        (uses-update (λ t. t.id == token.id) now rows)

  require_scopes-Denies :
      (header : Option String) (rows : List Token)
      → Denies rows (require_scopes verify now required header rows)
  unfolding require_scopes lookup_token error status_code
  require_scopes-Denies header rows = read (credential_of verify header)
    where
      read : (o : Option String) → Denies rows (with_credential verify now required o rows)
      read none = inl (refl, refl)
      read (some plain) = granted-Denies rows (find (matches verify plain) rows)

module _ (f : Float) (r : Redis) (c : Counters) (env : HttpEnv f.Num (World f.Num (r.Db × c.Db)))
    (caller : Caller) where
  -- The caller was let in by a token of the rows; or the answer is 401 and nothing has changed, or 403
  -- and nothing but the time of a token's last use.
  abbrev pub Guarded :
      {A : Type 0}
      → List String
      → App f.Num (r.Db × c.Db)
      → Outcome ErrorResponse A × App f.Num (r.Db × c.Db)
      → Type 0
  Guarded scopes app (o, after) =
      ((token : Token) × IsGranted env.verify env.now scopes caller.authorization app.tokens token)
      ⊎ (HasStatus 401 o × (after ≡ app))
      ⊎ (HasStatus 403 o
          × (after.world ≡ app.world)
          × (map without_use after.tokens ≡ map without_use app.tokens))

  pub route-Guarded :
      {A : Type 0} (scopes : List String) (handler : Token → Act (World f.Num (r.Db × c.Db)) A)
      (app : App f.Num (r.Db × c.Db))
      → Guarded scopes app (route f r c env caller scopes handler app)
  unfolding route error_response
  route-Guarded scopes handler app =
      by (require_scopes env.verify env.now scopes caller.authorization app.tokens) refl
        (require_scopes-Denies env.verify env.now scopes caller.authorization app.tokens)
    where
      by :
          (out : Outcome Error Token × List Token)
          → require_scopes env.verify env.now scopes caller.authorization app.tokens ≡ out
          → Denies app.tokens out
          → Guarded scopes app
              (with_token f r c env caller handler (out.0, record app { tokens = out.1 }))
      by (raise e, rows) same (inl (status, kept)) =
          inr (inl (status, ap (λ ts. record app { tokens = ts }) kept))
      by (raise e, rows) same (inr (status, kept)) = inr (inr (status, refl, kept))
      by (ok token, rows) same h = inl (
        token,
        require_scopes-IsGranted env.verify env.now scopes caller.authorization app.tokens token
            (ap (λ o. o.0) same),
      )

  -- What holds of the handler's outcome, and of a refusal, holds of the route's.
  pub route-holds :
      {A : Type 0} (P : Outcome Error A → World f.Num (r.Db × c.Db) → Type 0)
      (Q : Outcome ErrorResponse A → World f.Num (r.Db × c.Db) → Type 0) (scopes : List String)
      (handler : Token → Act (World f.Num (r.Db × c.Db)) A) (app : App f.Num (r.Db × c.Db))
      → ((a : A) (w : World f.Num (r.Db × c.Db)) → P (ok a) w → Q (ok a) w)
      → ((e : Error) (w : World f.Num (r.Db × c.Db))
          → P (raise e) w
          → Q (raise (error_response e)) w)
      → ((e : ErrorResponse) → Q (raise e) app.world)
      → ((token : Token) → P (handler token app.world).0 (handler token app.world).1)
      → Q
          (route f r c env caller scopes handler app).0
          (route f r c env caller scopes handler app).1.world
  unfolding route
  route-holds {A = A} P Q scopes handler app served failed denied handled =
      by (require_scopes env.verify env.now scopes caller.authorization app.tokens)
    where
      ended :
          (left : App f.Num (r.Db × c.Db)) (m : Outcome Error A × World f.Num (r.Db × c.Db))
          → P m.0 m.1
          → Q (session_end f r c env caller left m).0 (session_end f r c env caller left m).1.world
      ended left (ok a, w) h = served a w h
      ended left (raise e, w) h = failed e w h

      by :
          (out : Outcome Error Token × List Token)
          → (let end : Outcome ErrorResponse A × App f.Num (r.Db × c.Db) =
                with_token f r c env caller handler (out.0, record app { tokens = out.1 }) in
              Q end.0 end.1.world)
      by (raise e, rows) = denied (error_response e)
      by (ok token, rows) =
          ended (record app { tokens = rows }) (handler token app.world) (handled token)

  pub route-Kept :
      {A : Type 0} (scopes : List String) (handler : Token → Act (World f.Num (r.Db × c.Db)) A)
      (app : App f.Num (r.Db × c.Db))
      → ((token : Token) (w : World f.Num (r.Db × c.Db))
          → IsCovered (joined r c) w
          → IsCovered (joined r c) (handler token w).1)
      → IsCovered (joined r c) app.world
      → IsCovered (joined r c) (route f r c env caller scopes handler app).1.world
  route-Kept scopes handler app kept h =
      route-holds (λ o w. IsCovered (joined r c) w) (λ o w. IsCovered (joined r c) w) scopes handler
        app (λ a w k. k) (λ e w k. k) (λ e. h) (λ token. kept token app.world h)

  -- If every job in progress owns its lock, the other processes keep it so, and none of them acts
  -- between the second look for a job and the theft of its lock, then whatever `GET /v1/transcript` is
  -- asked, with its chapters and speakers: the caller has a token that is not revoked, verifies the
  -- credential and has the scope `read` or `admin`; or the answer is 401 and the state is what it was,
  -- or 403 and only the time of a token's last use may differ. And every job in progress owns its lock
  -- afterwards.
  pub get_transcript_route-Guarded :
      (q : TranscriptQuery) (app : App f.Num (r.Db × c.Db))
      → IsFairApp f r c env caller
      → IsCovered (joined r c) app.world
      → Guarded ("read" ∷ []) app (get_transcript_route f r c env caller q app)
        × IsCovered (joined r c) (get_transcript_route f r c env caller q app).1.world
  unfolding get_transcript_route
  get_transcript_route-Guarded q app fair h = (
    route-Guarded ("read" ∷ []) (handle_transcript f r c env caller q) app,
    route-Kept ("read" ∷ []) (handle_transcript f r c env caller q) app
        (handle_transcript-Kept f r c env caller fair q) h,
  )
