-- ===== src/Tests/Jobs.antt =====
-- The theorems on src/app/jobs.py and src/app/exceptions.py at concrete inputs.
use yt_service.Prelude.{String, true, false, none, some, [], ◌∷◌, ◌≡◌, ◌≢◌, refl, ap, str_eq}
use yt_service.Jobs.Ledger.{JobEntry, job_registry, find_in_progress_job, latest}
use yt_service.Jobs.Locks.{lock_key}
use yt_service.Jobs.Enqueuing.{Contention, enqueue_job}
use yt_service.Jobs.Covered.{IsFair, IsExclusive}
use yt_service.Jobs.Outcomes.{IsRefused, enqueue_job-IsRefused}
use yt_service.Jobs.Race.{HolderCommits, enqueue_job-not-IsExclusive}
use yt_service.Tests.Fixtures.{
  memory, Place, locked, active_job, empty, busy, alone, whisper_submission,
}

abbrev whisper_entry : JobEntry
whisper_entry = record {
  queue = "whisper";
  task = "app.worker.run_whisper_job";
  lock_op = "whisper";
  estimated_seconds = 90;
}

registered : job_registry "whisper" ≡ some whisper_entry
unfolding job_registry
registered = refl

abbrev refusing : Contention Place
refusing = record alone { rq_error = some ("ConnectionError", "refused") }

fair : IsFair memory alone
fair = record { sleeping = λ w h. h; before_steal = λ w. refl; after_steal = λ w h. h }

enqueue_job-IsRefused_example :
    IsRefused memory refusing whisper_submission whisper_entry registered empty "ConnectionError"
      "refused"
      (enqueue_job memory refusing whisper_submission empty)
enqueue_job-IsRefused_example =
    enqueue_job-IsRefused memory refusing whisper_submission whisper_entry registered empty
      "ConnectionError" "refused" refl refl

found : find_in_progress_job busy.jobs "v1" "whisper" ≡ some active_job
unfolding find_in_progress_job latest
found = refl

lock_taken : locked (lock_key "v1" "whisper") ≡ some "job-1"
unfolding lock_key
lock_taken = refl

-- The holder of the lock commits its row just before the theft.
abbrev raced : Contention Place
raced = record alone { before_steal = λ w. record w { jobs = active_job ∷ w.jobs } }

tested : true ≡ false → ⊥
tested h = cc

commits : HolderCommits memory raced whisper_submission whisper_entry registered active_job
commits = record {
  waits = λ w. refl;
  commits = λ w. refl;
  quiet = λ w. refl;
  accepts = refl;
  video = refl;
  kind = refl;
  active = refl;
  another = λ e. other e;
}
  where
    other : ◌≢◌ {A = String} "job-1" "job-2"
    other e = tested (ap (λ s. str_eq s "job-1") e)

none_found : find_in_progress_job [] "v1" "whisper" ≡ none
unfolding find_in_progress_job latest
none_found = refl

enqueue_job-not-IsExclusive_example :
    ¬ IsExclusive
      (enqueue_job memory raced whisper_submission (record empty { redis = locked })).1.jobs
enqueue_job-not-IsExclusive_example =
    enqueue_job-not-IsExclusive memory raced whisper_submission whisper_entry registered active_job
      (record empty { redis = locked }) commits lock_taken none_found
