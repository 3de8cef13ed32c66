-- ===== src/Jobs/Rows.antt =====
-- No step of `enqueue_job` of src/app/jobs.py deletes the row of a job.
use text.Mathlib.Text.{◌==◌}
use yt_service.Prelude.{
  String, Bool, Bool-cases, Option, none, some, Option-cases, List, [], ◌∷◌, ◌≡◌, inl, inr, update,
}
use yt_service.World.{Redis, World, Job}
use yt_service.Jobs.Ledger.{JobEntry, job_registry, find_in_progress_job, get_job, mark_failed}
use yt_service.Jobs.Locks.{default_lock_ttl_seconds, acquire_lock, steal_stale_lock}
use yt_service.Jobs.Enqueuing.{
  Contention, Submission, hand_to_rq, insert_and_enqueue, steal_and_retry, contend, enqueue_job,
}
use yt_service.Jobs.Named.{HasJob}

-- What other processes do meanwhile deletes no row of a job.
pub record LeavesRows {N Db : Type 0} (env : Contention (World N Db)) : Type 0 where
  pub sleeping :
      (w : World N Db) (v t id : String)
      → HasJob v t id w.jobs
      → HasJob v t id (env.sleeping w).jobs
  pub before_steal :
      (w : World N Db) (v t id : String)
      → HasJob v t id w.jobs
      → HasJob v t id (env.before_steal w).jobs
  pub after_steal :
      (w : World N Db) (v t id : String)
      → HasJob v t id w.jobs
      → HasJob v t id (env.after_steal w).jobs

module _ (v t id : String) where
  -- A change of some rows that leaves what names them.
  HasJob-update :
      (p : Job → Bool) (g : Job → Job) (js : List Job)
      → ((j : Job)
          → (j.video_id ≡ v) × (j.job_type ≡ t) × (j.job_id ≡ id)
          → ((g j).video_id ≡ v) × ((g j).job_type ≡ t) × ((g j).job_id ≡ id))
      → HasJob v t id js
      → HasJob v t id (update p g js)
  HasJob-update p g [] same h = absurd h
  HasJob-update p g (j ∷ js) same (inr h) = inr (HasJob-update p g js same h)
  HasJob-update p g (j ∷ js) same (inl h) = elim (Bool-cases (p j)) [
    | inl e ↦ rw e (inl (same j h))
    | inr e ↦ rw e (inl h)
  ]

  mark_failed-HasJob :
      {N Db : Type 0} (now : _) (job_id message : String) (w : World N Db)
      → HasJob v t id w.jobs
      → HasJob v t id (mark_failed now job_id message w).jobs
  unfolding mark_failed
  mark_failed-HasJob now job_id message w h = elim (Option-cases (get_job w.jobs job_id)) [
    | inl e ↦ rw e h
    | inr (j, e) ↦ rw e (HasJob-update (λ k. k.job_id == job_id) _ w.jobs (λ k named. named) h)
  ]

  module _ {N : Type 0} (r : Redis) (env : Contention (World N r.Db)) (s : Submission) where
    hand_to_rq-HasJob :
        (refusal : Option (String × String)) (entry : JobEntry) (w : World N r.Db)
        → HasJob v t id w.jobs
        → HasJob v t id (hand_to_rq r refusal env s entry w).1.jobs
    unfolding hand_to_rq
    hand_to_rq-HasJob none entry w h = h
    hand_to_rq-HasJob (some (name, text)) entry w h = mark_failed-HasJob env.now env.job_id _ w h

    insert-HasJob :
        (entry : JobEntry) (w : World N r.Db)
        → HasJob v t id w.jobs
        → HasJob v t id (insert_and_enqueue r env s entry w).1.jobs
    unfolding insert_and_enqueue
    insert-HasJob entry w h = hand_to_rq-HasJob env.rq_error entry _ (inr h)

    module _ (leaves : LeavesRows env) where
      steal-HasJob :
          (entry : JobEntry) (w : World N r.Db)
          → HasJob v t id w.jobs
          → HasJob v t id (steal_and_retry r env s entry w).1.jobs
      unfolding steal_and_retry
      steal-HasJob entry w h =
          let w1 = env.before_steal w in
          let w2 =
            env.after_steal
              (record w1 { redis = steal_stale_lock r w1.redis s.video_id entry.lock_op }) in
          let kept = leaves.after_steal _ v t id (leaves.before_steal w v t id h) in
          elim (Bool-cases
            (acquire_lock r w2.redis s.video_id entry.lock_op env.job_id
              default_lock_ttl_seconds).0) [
                | inl e ↦ rw e (insert-HasJob entry _ kept)
                | inr e ↦ rw e kept
              ]

      contend-HasJob :
          (entry : JobEntry) (w : World N r.Db)
          → HasJob v t id w.jobs
          → HasJob v t id (contend r env s entry w).1.jobs
      unfolding contend
      contend-HasJob entry w h =
          elim (Option-cases (find_in_progress_job w.jobs s.video_id s.job_type)) [
            | inr (j, e) ↦ rw (e, contend) h
            | inl e ↦
                let w1 = env.sleeping w in
                let kept = leaves.sleeping w v t id h in
                elim (Option-cases (find_in_progress_job w1.jobs s.video_id s.job_type)) [
                  | inr (j, e1) ↦ rw (e, e1, contend) kept
                  | inl e1 ↦ rw (e, e1, contend) (steal-HasJob entry w1 kept)
                ]
          ]

      pub enqueue_job-HasJob :
          (w : World N r.Db) → HasJob v t id w.jobs → HasJob v t id (enqueue_job r env s w).1.jobs
      unfolding enqueue_job
      enqueue_job-HasJob w h = elim (Option-cases (job_registry s.job_type)) [
        | inl e ↦ rw (e, enqueue_job) h
        | inr (entry, e) ↦
            elim (Bool-cases
              (acquire_lock r w.redis s.video_id entry.lock_op env.job_id
                default_lock_ttl_seconds).0) [
                  | inl a ↦ rw (e, a, enqueue_job) (insert-HasJob entry _ h)
                  | inr a ↦ rw (e, a, enqueue_job) (contend-HasJob entry _ h)
                ]
      ]
