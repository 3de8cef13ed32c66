-- ===== src/Worker/Caches.antt =====
-- What a Whisper job of src/app/worker.py that succeeds leaves in the cache, and under which language.
use yt_service.Prelude.{
  ℕ, ◌+◌, ◌*◌, ◌<◌, String, false, Bool-cases, Option, none, some, List, ◌≡◌, ◌≢◌, refl, sym, ap,
  ◌∙◌, inl, inr, ok, is_empty, or_else-ne_empty, find, Float,
}
use yt_service.Domain.{WhisperResult, TranscriptRecord, Chapter}
use yt_service.World.{Redis, World, Job}
use yt_service.Jobs.Ledger.{get_job, if_found, mark_running, mark_complete}
use yt_service.Cache.{put_transcript, get_transcript}
use yt_service.Cache.Frame.{get-put_transcript_other, same_answer}
use yt_service.Cache.RoundTrip.{stored_chapters, read_back, get-put_transcript}
use yt_service.Worker.Whisper.{
  WhisperEnv, payload_language, whisper_record, notify, finish, attempt, handle, run_found,
  run_whisper_job,
}

module _ {N Db : Type 0} (now : ℕ) (id : String) (w : World N Db) where
  transcripts-if_found :
      (o : Option Job) (w' : World N Db)
      → w'.transcripts ≡ w.transcripts
      → (if_found o w w').transcripts ≡ w.transcripts
  transcripts-if_found none w' h = refl
  transcripts-if_found (some j) w' h = h

  transcripts-mark_complete : (mark_complete now id w).transcripts ≡ w.transcripts
  unfolding mark_complete
  transcripts-mark_complete = transcripts-if_found (get_job w.jobs id) _ refl

module _ (f : Float) {Db : Type 0} (env : WhisperEnv f.Num (World f.Num Db)) (id : String) where
  -- The webhook changes no transcript.
  transcripts-notify :
      (callback : Option String) (job : Job) (result : WhisperResult f.Num) (w : World f.Num Db)
      → env.webhook_refusal ≡ none
      → (handle f env id (notify f env id callback job result w)).transcripts ≡ w.transcripts
  unfolding notify
  transcripts-notify none job result w h = refl
  transcripts-notify (some url) job result w h = elim (Bool-cases (is_empty url)) [
    | inl e ↦ rw e refl
    | inr e ↦ rw (e, h) refl
  ]

module _ (f : Float) (r : Redis) (env : WhisperEnv f.Num (World f.Num r.Db)) (id : String)
    (w : World f.Num r.Db) where
  -- The run finds its job, downloads, transcribes, and RQ takes the webhook.
  pub record Succeeds (job : Job) (path : String) (result : WhisperResult f.Num) : Type 0 where
    pub found : get_job w.jobs id ≡ some job
    pub audio : env.download_audio job.video_id ≡ ok path
    pub speech : env.transcribe path job.video_id ≡ ok result
    pub webhook : env.webhook_refusal ≡ none

  abbrev pub ran : World f.Num r.Db
  ran = (run_whisper_job f r env id w).world

  -- The state when the transcription ends, with what others did meanwhile.
  abbrev pub heard : World f.Num r.Db
  heard = env.transcribing (env.downloading (mark_running env.now id w))

  module _ (job : Job) (path : String) (result : WhisperResult f.Num)
      (s : Succeeds job path result) where
    -- The record that the run caches.
    abbrev pub written : TranscriptRecord f.Num
    written = whisper_record f env.now job result

    put : World f.Num r.Db → World f.Num r.Db
    put = put_transcript env.now env.cache_ttl_days written (some env.cache_ttl_days)

    transcripts-run_found :
        (run_found f r env id (some job) w).world.transcripts ≡ (put heard).transcripts
    unfolding run_found attempt finish put
    transcripts-run_found =
        rw (s.audio, s.speech)
          (transcripts-notify f env id job.callback_url job result _ s.webhook
            ∙ transcripts-mark_complete env.now id _)

    -- The transcripts after the run are those of the one put.
    transcripts-ran : ran.transcripts ≡ (put heard).transcripts
    unfolding run_whisper_job
    transcripts-ran = rw (ran, s.found) transcripts-run_found

    -- A run that succeeds leaves its record in the cache, under the language that the transcription
    -- names or else that of the payload: until it expires a lookup of that key reads it back, with
    -- the chapters that were stored when the transcription ended.
    pub get-run_whisper_job :
        (later : ℕ) (old : Option (List (Chapter f.Num)))
        → (fresh : later < env.now + env.cache_ttl_days * 86400)
        → stored_chapters f heard job.video_id written.language ≡ ok old
        → (get_transcript f later job.video_id written.language ran).0
          ≡ ok (some (read_back f env.now later env.cache_ttl_days written fresh old))
    unfolding put whisper_record
    get-run_whisper_job later old fresh h =
        same_answer f later job.video_id written.language heard ran (put heard)
          (ap (find _) transcripts-ran)
        ∙ get-put_transcript f env.now later env.cache_ttl_days written fresh env.cache_ttl_days
            heard old h

    -- But a lookup of the language that was asked for finds nothing new when the transcription names
    -- another: its answer is that of when the transcription ended.
    pub get-run_whisper_job_other :
        (later : ℕ)
        → is_empty result.language ≡ false
        → result.language ≢ payload_language job.payload
        → (get_transcript f later job.video_id (payload_language job.payload) ran).0
          ≡ (get_transcript f later job.video_id (payload_language job.payload) heard).0
    unfolding put whisper_record
    get-run_whisper_job_other later named other =
        same_answer f later job.video_id (payload_language job.payload) heard ran (put heard)
          (ap (find _) transcripts-ran)
        ∙ get-put_transcript_other f later job.video_id (payload_language job.payload) heard env.now
            env.cache_ttl_days written (some env.cache_ttl_days)
            (inr (λ e. other (named_language e)))
      where
        named_language :
            written.language ≡ payload_language job.payload
            → result.language ≡ payload_language job.payload
        named_language e =
            sym (or_else-ne_empty result.language (payload_language job.payload) named) ∙ e
