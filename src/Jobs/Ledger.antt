-- ===== src/Jobs/Ledger.antt =====
-- src/app/jobs.py: the registry of job types and the rows of `jobs`.
use text.Mathlib.Text.{◌==◌}
use yt_service.Prelude.{
  ℕ, String, Bool, true, false, Option, none, some, List, [], ◌∷◌, ltb, select, find, update,
  str_cat, if◌then◌else◌,
}
use yt_service.World.{World, Job, Status, queued, running, complete, failed}

pub record JobEntry : Type 0 where
  pub queue : String
  pub task : String
  pub lock_op : String
  pub estimated_seconds : ℕ

-- `_JOB_REGISTRY`
unfoldable pub job_registry : String → Option JobEntry
job_registry job_type =
    if job_type == "whisper"
    then some (record {
      queue = "whisper";
      task = "app.worker.run_whisper_job";
      lock_op = "whisper";
      estimated_seconds = 90;
    })
    else if job_type == "enrichment"
    then some (record {
      queue = "enrichment";
      task = "app.worker.run_diarization_job";
      lock_op = "diarize";
      estimated_seconds = 60;
    })
    else none

unfoldable pub poll_url_for : String → String
poll_url_for job_id = str_cat "/v1/jobs/" job_id

abbrev pub is_in_progress : Status → Bool
is_in_progress queued = true
is_in_progress running = true
is_in_progress _ = false

-- `order_by(created_at.desc()).limit(1)`
unfoldable pub latest : List Job → Option Job
latest [] = none
latest (j ∷ js) = elim (latest js) [
  | none ↦ some j
  | some k ↦ some (if ltb j.created_at k.created_at then k else j)
]

unfoldable pub find_in_progress_job : List Job → String → String → Option Job
find_in_progress_job jobs video_id job_type = latest (
    select (λ j. is_in_progress j.status)
      (select (λ j. j.job_type == job_type) (select (λ j. j.video_id == video_id) jobs)))

unfoldable pub get_job : List Job → String → Option Job
get_job jobs job_id = find (λ j. j.job_id == job_id) jobs

module _ {N Db : Type 0} where
  -- `if job is None: return`
  abbrev pub if_found : Option Job → World N Db → World N Db → World N Db
  if_found none w w' = w
  if_found (some _) w w' = w'

  abbrev pub rewrite_job : String → (Job → Job) → World N Db → World N Db
  rewrite_job job_id f w =
      if_found (get_job w.jobs job_id) w
        (record w { jobs = update (λ j. j.job_id == job_id) f w.jobs })

  unfoldable pub mark_running : ℕ → String → World N Db → World N Db
  unfolding get_job
  mark_running now job_id =
      rewrite_job job_id (λ j. record j { status = running; started_at = some now })

  unfoldable pub mark_complete : ℕ → String → World N Db → World N Db
  unfolding get_job
  mark_complete now job_id =
      rewrite_job job_id (λ j. record j { status = complete; finished_at = some now; error = none })

  unfoldable pub mark_failed : ℕ → String → String → World N Db → World N Db
  unfolding get_job
  mark_failed now job_id message =
      rewrite_job job_id
        (λ j. record j { status = failed; finished_at = some now; error = some message })
