-- ===== src/Service/Waiting.antt =====
-- src/app/transcript_service.py: `_wait_for_job_completion`. A pause is half a second, which floats
-- add exactly, so the loop makes two polls to a second of `wait_seconds`.
use yt_service.Prelude.{
  ℕ, zero, suc, ◌*◌, String, false, Option, none, some, Outcome, ok, raise, or_else, Float,
}
use yt_service.Errors.{Error, error, whisper_failed}
use yt_service.Domain.{TranscriptRecord}
use yt_service.Domain.Json.{ReadError}
use yt_service.World.{World, Job, Status, complete, failed}
use yt_service.Jobs.Ledger.{get_job}
use yt_service.Cache.{get_transcript}
use yt_service.Service.{Reply, transcript, ServiceEnv, record_to_response, undecodable}

module _ (f : Float) {Db : Type 0} (env : ServiceEnv f.Num (World f.Num Db)) where
  -- A complete job whose row is not found is polled again.
  abbrev pub if_cached :
      Outcome ReadError (Option (TranscriptRecord f.Num)) × World f.Num Db
      → Outcome Error (Option (Reply f.Num)) × World f.Num Db
  if_cached (raise e, w) = (raise (undecodable e), w)
  if_cached (ok none, w) = (ok none, w)
  if_cached (ok (some cached), w) = (ok (some (transcript (record_to_response cached false))), w)

  abbrev pub error_text : Option String → String
  error_text none = "whisper job failed"
  error_text (some s) = or_else s "whisper job failed"

  abbrev pub by_status :
      Status
      → Job
      → String
      → String
      → World f.Num Db
      → Outcome Error (Option (Reply f.Num)) × World f.Num Db
  by_status complete job video_id language w =
      if_cached (get_transcript f env.now video_id language w)
  by_status failed job video_id language w =
      (raise (error whisper_failed (error_text job.error)), w)
  by_status _ job video_id language w = (ok none, w)

  -- One poll of the job: `ok none` goes on.
  unfoldable pub look :
      Option Job
      → String
      → String
      → World f.Num Db
      → Outcome Error (Option (Reply f.Num)) × World f.Num Db
  unfolding record_to_response error get_transcript
  look none video_id language w = (ok none, w)
  look (some job) video_id language w = by_status job.status job video_id language w

  unfoldable pub poll :
      ℕ
      → String
      → String
      → String
      → World f.Num Db
      → Outcome Error (Option (Reply f.Num)) × World f.Num Db
  unfolding look
  poll zero video_id language job_id w = (ok none, w)
  poll (suc n) video_id language job_id w =
      let w1 = env.pause n w in
      let looked = look (get_job w1.jobs job_id) video_id language w1 in
      elim looked.0 [
        | ok none ↦ poll n video_id language job_id looked.1
        | ok (some reply) ↦ (ok (some reply), looked.1)
        | raise e ↦ (raise e, looked.1)
      ]

  unfoldable pub wait_for_job_completion :
      String
      → String
      → String
      → ℕ
      → World f.Num Db
      → Outcome Error (Option (Reply f.Num)) × World f.Num Db
  unfolding poll
  wait_for_job_completion video_id language job_id wait_seconds =
      poll (2 * wait_seconds) video_id language job_id
