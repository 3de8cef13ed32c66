-- ===== src/Tests/Service.antt =====
-- The theorems on src/app/transcript_service.py at concrete inputs.
use yt_service.Prelude.{
  ℕ, ◌+◌, ◌*◌, ◌<◌, true, false, none, some, [], ◌∷◌, ◌++◌, ◌≡◌, refl, arith, Outcome, ok,
}
use yt_service.Errors.{Error}
use yt_service.Domain.{TranscriptRequest, TranscriptRecord, whisper, refresh}
use yt_service.World.{run_job}
use yt_service.Jobs.Ledger.{find_in_progress_job, latest}
use yt_service.Jobs.Locks.{lock_key}
use yt_service.Jobs.Exclusion.{IsCovered}
use yt_service.Jobs.Enqueuing.{new_job}
use yt_service.Cache.{new_row, get_transcript}
use yt_service.Cache.Codec.{
  map_read, snippet_to_dict, dict_to_snippet, read_chapters, row_to_record,
}
use yt_service.Cache.RoundTrip.{stored_chapters, read_back}
use yt_service.Service.{
  ServiceEnv, transcript, job_accepted, job_accepted_response, record_to_response,
}
use yt_service.Service.Fetching.{get_or_fetch}
use yt_service.Service.Covered.{IsPolite}
use yt_service.Service.Answers.{IsFetched, get_or_fetch-IsFetched}
use yt_service.Service.Whispering.{
  AsksWhisper, submission, get_or_fetch_joins, get_or_fetch_enqueues,
}
use yt_service.Service.Again.{get_or_fetch_again}
use yt_service.Service.Captions.{FindsCaptions, caption_record, get_or_fetch_captioned}
use yt_service.Tests.Fixtures.{
  hundredths, memory, Place, active_job, empty, busy, transcript_record, captions, service_env,
  request,
}

abbrev pub forcing : TranscriptRequest
forcing = record request { force = some whisper }

pub polite : IsPolite hundredths memory service_env
polite = record {
  fair = record { sleeping = λ w h. h; before_steal = λ w. refl; after_steal = λ w h. h };
  hook = λ h w e covered. unlimited h w e;
  pause = λ n w h. h;
}
  where
    unlimited :
        (h : Place → Outcome Error (Unit {0}) × Place) (w : Place)
        → none ≡ some h
        → IsCovered memory (h w).1
    unlimited h w e = absurd (none-ne_some h e)
      where
        none-ne_some : (g : Place → Outcome Error (Unit {0}) × Place) → none ≡ some g → ⊥
        none-ne_some g e = cc

get_or_fetch-IsFetched_example :
    IsFetched
      (get_or_fetch hundredths memory service_env
        (record request { force = some refresh })
        "token"
        empty).0
get_or_fetch-IsFetched_example =
    get_or_fetch-IsFetched hundredths memory service_env (record request { force = some refresh })
      "token" empty refresh refl

abbrev stored : Place
stored = record empty { transcripts = new_row 10 1 transcript_record ∷ [] }

hit : (get_transcript hundredths 10 "v1" "en" stored).0 ≡ ok (some transcript_record)
unfolding get_transcript new_row row_to_record map_read dict_to_snippet snippet_to_dict
    read_chapters
hit = refl

-- A hook that counts in Redis and lets pass.
abbrev spent : Place → Place
spent w = record w { redis = (memory.set_nx_ex w.redis "rl:whisper:token" "1" 60).1 }

abbrev limited_env : ServiceEnv ℕ Place
limited_env = record service_env { whisper_rate_limit_hook = some (λ w. (ok tt, spent w)) }

asks : (w : Place) → AsksWhisper hundredths memory limited_env forcing "token" w (spent w) 0
asks w = record { waits = refl; forces = refl; short = refl; passes = refl }

lock_taken : (spent busy).redis (lock_key "v1" "whisper") ≡ some "job-1"
unfolding lock_key
lock_taken = refl

found : find_in_progress_job busy.jobs "v1" "whisper" ≡ some active_job
unfolding find_in_progress_job latest
found = refl

get_or_fetch_joins_example :
    ((get_or_fetch hundredths memory limited_env forcing "token" busy).0
      ≡ ok (job_accepted (job_accepted_response "job-1" "v1" "running")))
    × ((get_or_fetch hundredths memory limited_env forcing "token" busy).1.jobs ≡ busy.jobs)
    × ((get_or_fetch hundredths memory limited_env forcing "token" busy).1.tasks ≡ [])
get_or_fetch_joins_example =
    get_or_fetch_joins hundredths memory limited_env forcing "token" busy (spent busy) 0 "job-1"
      active_job (asks busy) lock_taken found refl

free : (spent empty).redis (lock_key "v1" "whisper") ≡ none
unfolding lock_key
free = refl

get_or_fetch_enqueues_example :
    ((get_or_fetch hundredths memory limited_env forcing "token" empty).0
      ≡ ok (job_accepted (job_accepted_response "job-2" "v1" "queued")))
    × ((get_or_fetch hundredths memory limited_env forcing "token" empty).1.jobs
        ≡ new_job limited_env.contention
            (submission hundredths memory limited_env forcing "token" empty (spent empty) 0)
          ∷ [])
    × ((get_or_fetch hundredths memory limited_env forcing "token" empty).1.tasks
        ≡ [] ++ run_job "whisper" "app.worker.run_whisper_job" "job-2" ∷ [])
    × ((get_or_fetch hundredths memory limited_env forcing "token" empty).1.redis
          (lock_key "v1" "whisper")
        ≡ some "job-2")
get_or_fetch_enqueues_example =
    get_or_fetch_enqueues hundredths memory limited_env forcing "token" empty (spent empty) 0
      (asks empty) refl free refl

missed : (get_transcript hundredths 10 "v1" "en" empty).0 ≡ ok none
unfolding get_transcript
missed = refl

soon : 20 < 10 + 1 * 86400
soon = omega arith

no_chapters : stored_chapters hundredths empty "v1" "en" ≡ ok none
unfolding stored_chapters
no_chapters = refl

finds : FindsCaptions hundredths memory service_env request "token" empty captions 0
finds = record { waits = refl; forces = refl; missed = missed; captioned = refl }

get_or_fetch_captioned_example :
    ((get_or_fetch hundredths memory service_env request "token" empty).0
      ≡ ok (
          transcript (
            record_to_response
              (caption_record hundredths memory service_env request "token" empty captions)
              false)))
    × ((get_transcript hundredths 20 "v1" "en"
          (get_or_fetch hundredths memory service_env request "token" empty).1).0
        ≡ ok (
            some (
              read_back hundredths 10 20 1
                (caption_record hundredths memory service_env request "token" empty captions)
                soon
                none)))
get_or_fetch_captioned_example =
    get_or_fetch_captioned hundredths memory service_env request "token" empty captions 0 20 none
      finds soon no_chapters

-- YouTube has gone away by the time of the second request.
abbrev gone_env : ServiceEnv ℕ Place
gone_env = record service_env { fetch_captions = λ v l. ok none }

abbrev held : TranscriptRecord ℕ
held = caption_record hundredths memory service_env request "token" empty captions

get_or_fetch_again_example :
    ((get_or_fetch hundredths memory service_env request "token" empty).0
      ≡ ok (transcript (record_to_response held false)))
    × (get_or_fetch hundredths memory
          (record gone_env { now = 20 })
          request
          "other"
          (get_or_fetch hundredths memory service_env request "token" empty).1
        ≡ (
          ok (transcript (record_to_response (read_back hundredths 10 20 1 held soon none) true)),
          record (get_or_fetch hundredths memory service_env request "token" empty).1 {
            cache_hits =
                (get_or_fetch hundredths memory service_env request "token" empty).1.cache_hits + 1;
          },
        ))
get_or_fetch_again_example =
    get_or_fetch_again hundredths memory service_env request "token" empty captions 0 20 none
      gone_env "other" finds refl soon no_chapters
