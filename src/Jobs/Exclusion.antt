-- ===== src/Jobs/Exclusion.antt =====
-- The locks of src/app/jobs.py keep at most one job of a type in progress for a video.
use text.Mathlib.Text.{◌==◌}
use text.Mathlib.TextEquality.{eq_iff}
use mathlib.Core.Path.{subst}
use yt_service.Prelude.{
  ltb, Option-cases, ◌∙◌, ℕ, String, true, Bool-cases, none, some, List, [], ◌∷◌, ◌≡◌, ◌≢◌, refl,
  inl, inr, arith, All, select,
}
use yt_service.World.{Redis, World, Job}
use yt_service.Jobs.Ledger.{JobEntry, job_registry, is_in_progress, latest, find_in_progress_job}
use yt_service.Jobs.Locks.{lock_key, acquire_lock}

-- A job that is queued or running owns the lock of its video and type.
abbrev pub HoldsLock : (r : Redis) → r.Db → Job → Type 0
HoldsLock r db j =
    (e : JobEntry)
    → job_registry j.job_type ≡ some e
    → is_in_progress j.status ≡ true
    → r.get db (lock_key j.video_id e.lock_op) ≡ some j.job_id

pub record IsCovered {N : Type 0} (r : Redis) (w : World N r.Db) : Type 0 where
  pub locks : All (HoldsLock r w.redis) w.jobs

-- The job belongs to the video and type, and is in progress.
abbrev pub Occupies : String → String → Job → Type 0
Occupies video_id job_type j =
    (j.video_id ≡ video_id) × (j.job_type ≡ job_type) × (is_in_progress j.status ≡ true)

latest-none : (js : List Job) → latest js ≡ none → js ≡ []
unfolding latest
latest-none [] h = refl
latest-none (j ∷ js) h = ground arith

-- The rows that the three clauses of the query select.
abbrev pub rows : String → String → List Job → List Job
rows v t js =
    select (λ j. is_in_progress j.status)
      (select (λ j. j.job_type == t) (select (λ j. j.video_id == v) js))

rows-nil_head : (v t : String) (j : Job) (js : List Job) → rows v t (j ∷ js) ≡ [] → ¬ Occupies v t j
rows-nil_head v t j js h o = ground (arith, eq_iff j.video_id v, eq_iff j.job_type t, o.0, o.1, o.2)

rows-nil_tail : (v t : String) (j : Job) (js : List Job) → rows v t (j ∷ js) ≡ [] → rows v t js ≡ []
rows-nil_tail v t j js h = ground arith

rows-nil : (v t : String) (js : List Job) → rows v t js ≡ [] → All (λ j. ¬ Occupies v t j) js
rows-nil v t [] h = tt
rows-nil v t (j ∷ js) h = (rows-nil_head v t j js h, rows-nil v t js (rows-nil_tail v t j js h))

-- What a failed look-up says of every row.
pub find-none :
    (v t : String) (js : List Job)
    → find_in_progress_job js v t ≡ none
    → All (λ j. ¬ Occupies v t j) js
unfolding find_in_progress_job
find-none v t js h = rows-nil v t js (latest-none (rows v t js) h)

some_eq : {i j : Job} → some i ≡ some j → i ≡ j
some_eq h = cc

pub latest-All : (P : Job → Type 0) (js : List Job) (j : Job) → All P js → latest js ≡ some j → P j
unfolding latest
latest-All P [] j h e = absurd (none-ne j e)
  where
    none-ne : (x : Job) → none ≡ some x → ⊥
    none-ne x e = cc
latest-All P (x ∷ js) j h e = elim (Option-cases (latest js)) [
  | inl e' ↦ subst P (some_eq (rw e' at e)) h.0
  | inr (k, e') ↦ elim (Bool-cases (ltb x.created_at k.created_at)) [
    | inl c ↦ latest-All P js j h.1 (e' ∙ (rw (e', c) at e))
    | inr c ↦ subst P (some_eq (rw (e', c) at e)) h.0
  ]
]

rows-All : (v t : String) (js : List Job) → All (Occupies v t) (rows v t js)
rows-All v t [] = tt
rows-All v t (j ∷ js) = elim (Bool-cases (j.video_id == v)) [
  | inr a ↦ rw a (rows-All v t js)
  | inl a ↦ elim (Bool-cases (j.job_type == t)) [
    | inr b ↦ rw (a, b) (rows-All v t js)
    | inl b ↦ elim (Bool-cases (is_in_progress j.status)) [
      | inr c ↦ rw (a, b, c) (rows-All v t js)
      | inl c ↦
          rw (a, b, c) (((eq_iff j.video_id v).0 a, (eq_iff j.job_type t).0 b, c), rows-All v t js)
    ]
  ]
]

-- What a successful look-up says of the row that it finds.
pub find-some :
    (v t : String) (js : List Job) (j : Job) → find_in_progress_job js v t ≡ some j → Occupies v t j
unfolding find_in_progress_job
find-some v t js j e = latest-All (Occupies v t) (rows v t js) j (rows-All v t js) e

module _ (r : Redis) where
  -- Taking a free lock, or failing to, leaves every held lock as it was.
  pub HoldsLock-acquire :
      (db : r.Db) (v op id : String) (ttl : ℕ) (j : Job)
      → HoldsLock r db j
      → HoldsLock r (acquire_lock r db v op id ttl).1 j
  unfolding acquire_lock
  HoldsLock-acquire db v op id ttl j h e he hp =
      let k = lock_key v op in
      let k' = lock_key j.video_id e.lock_op in
      ground (arith, r.get-set db k id ttl k', h e he hp, eq_iff k k')

  pub HoldsLock-delete :
      (db : r.Db) (k : String) (j : Job)
      → ((e : JobEntry)
          → job_registry j.job_type ≡ some e
          → is_in_progress j.status ≡ true
          → k ≢ lock_key j.video_id e.lock_op)
      → HoldsLock r db j
      → HoldsLock r (r.delete db k) j
  HoldsLock-delete db k j other h e he hp =
      let k' = lock_key j.video_id e.lock_op in
      ground (arith, r.get-delete db k k', h e he hp, eq_iff k k', other e he hp)

  -- The caller that took the lock owns it.
  pub get-acquire :
      (db : r.Db) (v op id : String) (ttl : ℕ)
      → (acquire_lock r db v op id ttl).0 ≡ true
      → r.get (acquire_lock r db v op id ttl).1 (lock_key v op) ≡ some id
  unfolding acquire_lock
  get-acquire db v op id ttl h =
      let k = lock_key v op in
      ground (arith, r.get-set db k id ttl k, r.set_done db k id ttl, eq_iff k k)
