-- ===== src/Lib.antt =====
-- yt-service: transcripts of YouTube videos behind an HTTP API.
--
-- A request for a transcript goes through the orchestrator (src/app/transcript_service.py), which
-- reads the cache (src/app/cache.py), asks YouTube for captions, or enqueues a Whisper job
-- (src/app/jobs.py); an RQ worker (src/app/worker.py) runs the job and fills the cache. The parts
-- share one PostgreSQL database, one Redis and the RQ queues: `World` is that state, and every
-- operation is a function from it to its result and the new state.
--
--   Prelude     names that the files share: tests, lists, strings, outcomes, floats
--   Errors      src/app/exceptions.py: the errors, their codes and their envelope
--   Domain      src/app/domain.py: the values; Domain.Json: JSON as the tables hold it
--   World       src/app/models.py: rows of `transcripts` and `jobs`, Redis, the queues
--   Jobs        src/app/jobs.py. Ledger: the rows; Locks: the Redis locks; Enqueuing:
--               `enqueue_job`; Keys, Exclusion, Settling, Covered, Outcomes, Race, Named,
--               Rows: proofs
--   Cache       src/app/cache.py. Codec: JSON; Stats; RoundTrip, Frame, Keyed: proofs;
--               Abstract: the map that it implements; Refinement: that it does
--   DeepLinks   src/app/deep_links.py
--   Worker      src/app/worker.py. Whisper: `run_whisper_job`; Ends, Locks, Caches: proofs;
--               Diarize: `run_diarization_job`; DiarizeEnds, DiarizeLocks: proofs
--   Service     src/app/transcript_service.py. Waiting: the wait; Fetching: `get_or_fetch`;
--               Keeping, Covered, Answers, Again, About, Named, Rows,
--               Whispering, Captions: proofs
--   Llm         src/app/llm: routes, prices. Fallback: `execute`; Spending, Choosing, Routes:
--               proofs
--   Webhooks    src/app/webhooks.py. Retries: the attempts in turn; Bounds: proofs
--   Auth        src/app/auth.py. Granting and Bootstrap: proofs
--   Admin       src/app/admin.py: tokens are created and revoked; Scopes, Revoking: proofs
--   Parsing     src/app/parsing.py: video ids; VideoIds: proofs; Channels: references of channels
--               and playlists; Channels.Kinds: proofs
--   UrlSafety   src/app/url_safety.py: callback URLs; Public: proofs
--   Middleware  src/app/middleware.py: the rate limit; Keys, Bursts: proofs
--   Chapters    src/app/chapters.py. Parsing: metadata and answers; Ordered, Stored, Again: proofs
--   Diarization src/app/diarization.py: the alignment of speakers; Best: proofs
--   Analysis    src/app/tasks. Answers and Summaries: summarize.py; Repeats: proofs
--   Monitors    src/app/monitor_scheduler.py and monitors.py: one poll; Collecting,
--               Progress, Covered: proofs; Registry: the rows; Schedule: the loop; Lookups,
--               Spacing: proofs
--   Ingest      src/app/ingest.py: the videos of a channel; Reported: proofs
--   Http        src/app/main.py: the routes. Transcripts, Batch, Operations, Loopback: the handlers;
--               Covered, Guarded, Fitting, Batched, Purging: proofs
--   System      all of these as steps on one state; Exclusive: the invariant that every step keeps
--   Tests       concrete inputs
--
-- Code outside the repository is a parameter. Redis is the record `Redis` of World, with the laws
-- of GET, DEL and SET NX, and for the rate limit the record `Counters` of Middleware, with those
-- of INCR. Floats are the record `Float` of Prelude, with the laws of `<` on IEEE numbers.
-- YouTube, the audio download, the transcription, pyannote and RQ's acceptance of a task are
-- fields of the environments `ServiceEnv`, `WhisperEnv`, `DiarizeEnv` and `Contention`. The
-- clients of the LLM providers and the rounding of NUMERIC(10, 6) are fields of `LlmEnv`; HMAC,
-- JSON text and the HTTP client of `WebhookEnv`; `json.loads` and `str` of `ChapterEnv`; the
-- parsed feed of `MonitorEnv`; the list of a channel's videos, of `IngestEnv`. The standard
-- library's JSON, hashes and normal forms, and the texts of the prompts, are fields of
-- `AnalysisEnv`. `urllib.parse` is the record `UrlParser` of Prelude.Url; the resolver and
-- `ipaddress` are fields of `UrlEnv`; argon2 is the argument `verify` of Auth, and what it makes
-- of a fresh token is an argument of Admin.
--
-- A route of Http runs on one Redis, that holds the locks and the counters. Every write of a
-- request is committed at once, the last use of its token before the scopes are checked, so the
-- rollback of the session of a request that raises undoes nothing. The videos of a batch run one
-- after the other, where `asyncio.gather` interleaves them at their waits.
--
-- What other processes do while a coroutine sleeps, while `enqueue_job` is between two of its
-- steps, or while a worker downloads and transcribes or analyses audio, is a field of the
-- environments too: a function from the state to the state. A process is not interrupted
-- elsewhere. That Redis drops a lock when its time is over is an act of others in this sense.
--
-- The monitors of Monitors.Registry and the schedule of Monitors.Schedule stand beside `World`: a
-- tick of the loop reads the rows that are there, polls the monitors that are due one after the
-- other, each poll beginning when those before it in the tick are done, and sets their next times
-- by the clock of the tick's beginning. How long the reading and each poll take is given with the
-- tick.
--
-- Times are whole seconds, one reading of the clock to a call. Each statement is executed and
-- committed at once; failures of the database, metrics other than the cache's hits and misses, and
-- logs are not modelled. Messages leave out the quotes that repr adds and the amounts of the cost
-- cap, and of an error's details only `retry_after` is kept.
--
-- The wait of the orchestrator is structural recursion on the number of its pauses, two to a
-- second of at most 25. `sent` of Webhooks.Retries, the attempts of a webhook in turn, takes how
-- many the worker may run: the budget of attempts is enough. Every other loop is recursion on a
-- list or on a text.
pub mod Prelude
pub mod Errors
pub mod Domain
pub mod World
pub mod Jobs
pub mod Cache
pub mod DeepLinks
pub mod Llm
pub mod Webhooks
pub mod Auth
pub mod Parsing
pub mod UrlSafety
pub mod Admin
pub mod Middleware
pub mod Chapters
pub mod Diarization
pub mod Worker
pub mod Service
pub mod Analysis
pub mod Monitors
pub mod Ingest
pub mod Http
pub mod System
pub mod Tests
