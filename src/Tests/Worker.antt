-- ===== src/Tests/Worker.antt =====
-- The theorems on src/app/worker.py at concrete inputs.
use yt_service.Prelude.{
  ℕ, [], ◌+◌, ◌*◌, ◌<◌, String, true, false, none, some, ◌≡◌, ◌≢◌, refl, arith, ok, str_eq, ap,
}
use yt_service.Jobs.Ledger.{get_job, mark_running}
use yt_service.Jobs.Locks.{lock_key}
use yt_service.Cache.{get_transcript}
use yt_service.Cache.RoundTrip.{stored_chapters, read_back}
use yt_service.Worker.Whisper.{whisper_record, run_whisper_job}
use yt_service.Worker.Ends.{IsOver, audio_of, run_whisper_job_ends}
use yt_service.Worker.Caches.{
  Succeeds, heard, written, get-run_whisper_job, get-run_whisper_job_other,
}
use yt_service.Worker.Diarize.{DiarizeEnv, run_diarization_job}
use yt_service.Worker.DiarizeEnds.{IsKept, run_diarization_job_ends}
use yt_service.Tests.Fixtures.{
  hundredths, memory, Place, active_job, busy, whisper_env, french_result,
}

there : get_job busy.jobs "job-1" ≡ some active_job
unfolding get_job
there = refl

run_whisper_job_ends_example :
    IsOver "job-1" (run_whisper_job hundredths memory whisper_env "job-1" busy).world
    × (memory.get
          (run_whisper_job hundredths memory whisper_env "job-1" busy).world.redis
          (lock_key "v1" "whisper")
        ≢ some "job-1")
    × ((run_whisper_job hundredths memory whisper_env "job-1" busy).removed
        ≡ audio_of (whisper_env.download_audio "v1"))
run_whisper_job_ends_example =
    run_whisper_job_ends hundredths memory whisper_env "job-1"
      (record { downloaded = λ w h. h; transcribed = λ w h. h }) busy active_job there

succeeds :
    Succeeds hundredths memory whisper_env "job-1" busy active_job "/tmp/v1.m4a" french_result
succeeds = record { found = there; audio = refl; speech = refl; webhook = refl }

soon : 20 < 10 + 1 * 86400
soon = omega arith

no_chapters :
    stored_chapters hundredths (heard hundredths memory whisper_env "job-1" busy) "v1" "french"
    ≡ ok none
unfolding stored_chapters mark_running get_job
no_chapters = refl

get-run_whisper_job_example :
    (get_transcript hundredths 20 "v1" "french"
      (run_whisper_job hundredths memory whisper_env "job-1" busy).world).0
    ≡ ok (
        some (
          read_back hundredths 10 20 1
            (written hundredths memory whisper_env "job-1" busy active_job "/tmp/v1.m4a"
              french_result succeeds)
            soon
            none))
unfolding whisper_record
get-run_whisper_job_example =
    get-run_whisper_job hundredths memory whisper_env "job-1" busy active_job "/tmp/v1.m4a"
      french_result succeeds 20 none soon no_chapters

tested : true ≡ false → ⊥
tested h = cc

other_language : ◌≢◌ {A = String} "french" "en"
other_language e = tested (ap (λ s. str_eq s "french") e)

abbrev diarize_env : DiarizeEnv ℕ Place
diarize_env = record {
  now = 10;
  is_available = true;
  download_audio = λ v. ok "/tmp/v1.m4a";
  pipeline = λ p. ok [];
  meanwhile = λ w. w;
}

kept : IsKept hundredths memory diarize_env "job-1"
kept = record { row = λ w h. h }

run_diarization_job_ends_example :
    IsOver "job-1" (run_diarization_job hundredths memory diarize_env "job-1" busy).world
    × (memory.get
          (run_diarization_job hundredths memory diarize_env "job-1" busy).world.redis
          (lock_key "v1" "diarize")
        ≢ some "job-1")
run_diarization_job_ends_example =
    run_diarization_job_ends hundredths memory diarize_env "job-1" kept busy active_job there

get-run_whisper_job_other_example :
    (get_transcript hundredths 20 "v1" "en"
      (run_whisper_job hundredths memory whisper_env "job-1" busy).world).0
    ≡ (get_transcript hundredths 20 "v1" "en" (heard hundredths memory whisper_env "job-1" busy)).0
get-run_whisper_job_other_example =
    get-run_whisper_job_other hundredths memory whisper_env "job-1" busy active_job "/tmp/v1.m4a"
      french_result succeeds 20 refl other_language
