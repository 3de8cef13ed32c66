-- ===== src/Tests/System.antt =====
-- The theorem on the whole service at a concrete history.
use yt_service.Prelude.{refl}
use yt_service.Jobs.Covered.{IsExclusive}
use yt_service.Service.Fetching.{get_or_fetch}
use yt_service.Worker.Whisper.{run_whisper_job}
use yt_service.System.{Reach, fetch, run_whisper, here, next}
use yt_service.System.Exclusive.{Reach-IsExclusive}
use yt_service.Tests.Fixtures.{hundredths, memory, Place, empty, service_env, whisper_env}
use yt_service.Tests.Service.{forcing, polite}

abbrev asked : Place
asked = (get_or_fetch hundredths memory service_env forcing "token" empty).1

abbrev asked_twice : Place
asked_twice = (get_or_fetch hundredths memory service_env forcing "token" asked).1

abbrev transcribed : Place
transcribed = (run_whisper_job hundredths memory whisper_env "job-2" asked_twice).world

history : Reach hundredths memory empty transcribed
history =
    next
      (next (next here (fetch empty service_env forcing "token" polite))
        (fetch asked service_env forcing "token" polite))
      (run_whisper asked_twice whisper_env "job-2"
        (record { downloaded = λ w h. h; transcribed = λ w h. h }))

Reach-IsExclusive_example : IsExclusive transcribed.jobs
Reach-IsExclusive_example = Reach-IsExclusive hundredths memory refl history
