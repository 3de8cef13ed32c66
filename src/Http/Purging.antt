-- ===== src/Http/Purging.antt =====
-- `DELETE /v1/cache/{video_id}` of src/app/main.py removes one video and reports it.
use text.Mathlib.Text.{◌==◌}
use text.Mathlib.TextEquality.{eq_iff}
use mathlib.Core.Path.{subst}
use yt_service.Prelude.{
  ℕ, ◌+◌, String, Bool-cases, not, List, [], ◌∷◌, ◌≡◌, ◌≢◌, inl, inr, refl, arith, Outcome, ok,
  raise, Float, All, length, count, select,
}
use yt_service.Errors.{Error}
use yt_service.World.{Redis, World, Transcript}
use yt_service.Auth.{Token}
use yt_service.Middleware.{Counters}
use yt_service.Parsing.{parse_video_id}
use yt_service.Cache.{purge_transcript}
use yt_service.Http.{App, Caller, HttpEnv, ◌>>>◌, spend}
use yt_service.Http.Operations.{CachePurgeResponse, purge_parsed, purging, delete_cache}
use yt_service.Http.Guarded.{Guarded, route-Guarded, route-holds}

module _ {N : Type 0} (v : String) where
  abbrev rows_of : List (Transcript N) → ℕ
  rows_of = count (λ t. t.video_id == v)

  abbrev others : List (Transcript N) → List (Transcript N)
  others = select (λ t. not (t.video_id == v))

  others-All : (ts : List (Transcript N)) → All (λ t. t.video_id ≢ v) (others ts)
  others-All [] = tt
  others-All (t ∷ ts) = elim (Bool-cases (t.video_id == v)) [
    | inl e ↦ rw e (others-All ts)
    | inr e ↦ rw e ((λ same. ground (arith, e, same, eq_iff t.video_id v)), others-All ts)
  ]

  length-others : (ts : List (Transcript N)) → rows_of ts + length (others ts) ≡ length ts
  length-others [] = refl
  length-others (t ∷ ts) = ground (arith, length-others ts)

  count-others :
      (other : String) (ts : List (Transcript N))
      → other ≢ v
      → count (λ t. t.video_id == other) (others ts) ≡ count (λ t. t.video_id == other) ts
  count-others other [] apart = refl
  count-others other (t ∷ ts) apart =
      ground
        (arith, count-others other ts apart, apart, eq_iff t.video_id v, eq_iff t.video_id other)

-- A failure removes nothing. An answer names a video that no row is left of, tells how many there
-- were, and the rows of every other video are as many as before.
abbrev pub Removes :
    {E N : Type 0}
    → List (Transcript N)
    → Outcome E CachePurgeResponse
    → List (Transcript N)
    → Type 0
Removes before (raise e) after = after ≡ before
Removes before (ok answer) after =
    All (λ t. t.video_id ≢ answer.video_id) after
    × (answer.rows_deleted + length after ≡ length before)
    × ((other : String)
        → other ≢ answer.video_id
        → count (λ t. t.video_id == other) after ≡ count (λ t. t.video_id == other) before)

module _ (f : Float) (r : Redis) (c : Counters) (env : HttpEnv f.Num (World f.Num (r.Db × c.Db)))
    (caller : Caller) where
  purge_parsed-Removes :
      (o : Outcome Error String) (w : World f.Num (r.Db × c.Db))
      → Removes w.transcripts
          ((o, w) >>> purge_parsed f r c env caller).0
          ((o, w) >>> purge_parsed f r c env caller).1.transcripts
  unfolding purge_transcript
  purge_parsed-Removes (raise e) w = refl
  purge_parsed-Removes (ok v) w = (
    others-All v w.transcripts,
    length-others v w.transcripts,
    λ other. count-others v other w.transcripts,
  )

  purging-Removes :
      (video_id : String) (token : Token) (w : World f.Num (r.Db × c.Db))
      → Removes w.transcripts
          (purging f r c env caller video_id token w).0
          (purging f r c env caller video_id token w).1.transcripts
  unfolding spend
  purging-Removes video_id token w = after (spend f r c env caller token "read" w) refl
    where
      after :
          (m : Outcome Error (Unit {0}) × World f.Num (r.Db × c.Db))
          → m.1.transcripts ≡ w.transcripts
          → Removes w.transcripts
              (m >>> λ u w1.
                (parse_video_id env.urls.parser video_id, w1) >>> purge_parsed f r c env caller).0
              (m >>> λ u w1.
                (parse_video_id env.urls.parser video_id, w1)
                >>> purge_parsed f r c env caller).1.transcripts
      after (raise e, w1) h = h
      after (ok u, w1) h =
          let out : Outcome Error CachePurgeResponse × World f.Num (r.Db × c.Db) =
            (parse_video_id env.urls.parser video_id, w1) >>> purge_parsed f r c env caller in
          subst (λ ts. Removes ts out.0 out.1.transcripts) h
            (purge_parsed-Removes (parse_video_id env.urls.parser video_id) w1)

  -- Whatever id is sent to `DELETE /v1/cache/{video_id}`: a failure removes no row, and an answer of
  -- status 200 names a video that no row is left of, with the number of the rows that went, while the
  -- rows of every other video are as many as before. The caller has a token that verifies the
  -- credential and has the scope `admin`; or the answer is 401 and the state is what it was, or 403
  -- and only the time of a token's last use may differ.
  pub delete_cache-Removes :
      (video_id : String) (app : App f.Num (r.Db × c.Db))
      → Removes app.world.transcripts
          (delete_cache f r c env caller video_id app).0
          (delete_cache f r c env caller video_id app).1.world.transcripts
        × Guarded f r c env caller ("admin" ∷ []) app (delete_cache f r c env caller video_id app)
  unfolding delete_cache
  delete_cache-Removes video_id app = (
    route-holds f r c env caller (λ o w. Removes app.world.transcripts o w.transcripts)
        (λ o w. Removes app.world.transcripts o w.transcripts) ("admin" ∷ [])
        (purging f r c env caller video_id) app (λ a w h. h) (λ e w h. h) (λ e. refl)
        (λ token. purging-Removes video_id token app.world),
    route-Guarded f r c env caller ("admin" ∷ []) (purging f r c env caller video_id) app,
  )
