-- ===== src/Jobs/Named.antt =====
-- The job that `enqueue_job` of src/app/jobs.py returns, or that its error names, is of the video and
-- type that were asked for, and has its row.
use text.Mathlib.Text.{◌==◌}
use text.Mathlib.TextEquality.{eq_iff}
use yt_service.Prelude.{
  String, Bool, true, false, Bool-cases, Option, none, some, Option-cases, List, [], ◌∷◌, ◌≡◌, ◌⊎◌,
  refl, inl, inr, All, All-map, Outcome, ok, raise, is_empty,
}
use yt_service.Errors.{Error, exception, job_in_progress_error}
use yt_service.World.{Redis, World, Job}
use yt_service.Jobs.Ledger.{JobEntry, job_registry, is_in_progress, find_in_progress_job}
use yt_service.Jobs.Locks.{default_lock_ttl_seconds, acquire_lock, steal_stale_lock}
use yt_service.Jobs.Enqueuing.{
  Contention, Submission, hand_to_rq, insert_and_enqueue, steal_and_retry, contend, enqueue_job,
}
use yt_service.Jobs.Exclusion.{rows, latest-All}

-- A row of the video and type has that id.
abbrev pub HasJob : String → String → String → List Job → Type 0
HasJob v t id [] = ⊥
HasJob v t id (j ∷ js) = ((j.video_id ≡ v) × (j.job_type ≡ t) × (j.job_id ≡ id)) ⊎ HasJob v t id js

rows-HasJob : (v t : String) (js : List Job) → All (λ j. HasJob v t j.job_id js) (rows v t js)
rows-HasJob v t [] = tt
rows-HasJob v t (j ∷ js) =
    let others : All (λ k. HasJob v t k.job_id (j ∷ js)) (rows v t js) =
      All-map (rows v t js) (λ k h. inr h) (rows-HasJob v t js) in
    elim (Bool-cases (j.video_id == v)) [
      | inr a ↦ rw a others
      | inl a ↦ elim (Bool-cases (j.job_type == t)) [
        | inr b ↦ rw (a, b) others
        | inl b ↦ elim (Bool-cases (is_in_progress j.status)) [
          | inr c ↦ rw (a, b, c) others
          | inl c ↦
              rw (a, b, c)
                (inl ((eq_iff j.video_id v).0 a, (eq_iff j.job_type t).0 b, refl), others)
        ]
      ]
    ]

find-HasJob :
    (v t : String) (js : List Job) (j : Job)
    → find_in_progress_job js v t ≡ some j
    → HasJob v t j.job_id js
unfolding find_in_progress_job
find-HasJob v t js j e =
    latest-All (λ k. HasJob v t k.job_id js) (rows v t js) j (rows-HasJob v t js) e

-- The job that is returned, or that the error names if it names one, is there.
abbrev pub Names : {N Db : Type 0} → String → String → Outcome Error Job × World N Db → Type 0
Names v t (ok j, w) = HasJob v t j.job_id w.jobs
Names v t (raise e, w) = is_empty e.existing_job_id ≡ false → HasJob v t e.existing_job_id w.jobs

module _ {N : Type 0} (r : Redis) (env : Contention (World N r.Db)) (s : Submission) where
  unnamed : {A : Type 0} → true ≡ false → A
  unnamed h = absurd (apart h)
    where
      apart : ◌≡◌ {A = Bool} true false → ⊥
      apart e = cc

  hand_to_rq-Names :
      (refusal : Option (String × String)) (entry : JobEntry) (w : World N r.Db)
      → HasJob s.video_id s.job_type env.job_id w.jobs
      → Names s.video_id s.job_type (hand_to_rq r refusal env s entry w)
  unfolding hand_to_rq exception
  hand_to_rq-Names none entry w h = h
  hand_to_rq-Names (some (name, text)) entry w h = λ named. unnamed named

  insert-Names :
      (entry : JobEntry) (w : World N r.Db)
      → Names s.video_id s.job_type (insert_and_enqueue r env s entry w)
  unfolding insert_and_enqueue
  insert-Names entry w = hand_to_rq-Names env.rq_error entry _ (inl (refl, refl, refl))

  steal-Names :
      (entry : JobEntry) (w : World N r.Db)
      → Names s.video_id s.job_type (steal_and_retry r env s entry w)
  unfolding steal_and_retry job_in_progress_error
  steal-Names entry w =
      let w1 = env.before_steal w in
      let w2 =
        env.after_steal
          (record w1 { redis = steal_stale_lock r w1.redis s.video_id entry.lock_op }) in
      elim (Bool-cases
        (acquire_lock r w2.redis s.video_id entry.lock_op env.job_id default_lock_ttl_seconds).0) [
          | inl e ↦ rw e (insert-Names entry _)
          | inr e ↦ rw e (λ named. unnamed named)
        ]

  contend-Names :
      (entry : JobEntry) (w : World N r.Db) → Names s.video_id s.job_type (contend r env s entry w)
  unfolding contend job_in_progress_error
  contend-Names entry w = elim (Option-cases (find_in_progress_job w.jobs s.video_id s.job_type)) [
    | inr (j, e) ↦ rw (e, contend) (λ named. find-HasJob s.video_id s.job_type w.jobs j e)
    | inl e ↦
        let w1 = env.sleeping w in
        elim (Option-cases (find_in_progress_job w1.jobs s.video_id s.job_type)) [
          | inr (j, e1) ↦
              rw (e, e1, contend) (λ named. find-HasJob s.video_id s.job_type w1.jobs j e1)
          | inl e1 ↦ rw (e, e1, contend) (steal-Names entry w1)
        ]
  ]

  -- Whichever way the call takes.
  pub enqueue_job-Names : (w : World N r.Db) → Names s.video_id s.job_type (enqueue_job r env s w)
  unfolding enqueue_job exception
  enqueue_job-Names w = elim (Option-cases (job_registry s.job_type)) [
    | inl e ↦ rw (e, enqueue_job) (λ named. unnamed named)
    | inr (entry, e) ↦
        elim (Bool-cases
          (acquire_lock r w.redis s.video_id entry.lock_op env.job_id default_lock_ttl_seconds).0) [
            | inl a ↦ rw (e, a, enqueue_job) (insert-Names entry _)
            | inr a ↦ rw (e, a, enqueue_job) (contend-Names entry _)
          ]
  ]
