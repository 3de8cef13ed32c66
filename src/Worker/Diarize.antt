-- ===== src/Worker/Diarize.antt =====
-- src/app/worker.py: `run_diarization_job`. What the audio download and the pipeline answer is in
-- `DiarizeEnv`, and so is what other processes do while they run.
use yt_service.Prelude.{
  ℕ, zero, suc, String, Bool, true, Option, none, some, List, Outcome, ok, raise, str_cat, Float,
  if◌then◌else◌,
}
use yt_service.Domain.{Source, youtube_captions, TranscriptRecord}
use yt_service.Domain.Json.{ReadError, key_error, type_error, value_error}
use yt_service.World.{Redis, World, Job}
use yt_service.Jobs.Ledger.{get_job, mark_running, mark_complete, mark_failed}
use yt_service.Jobs.Locks.{release_lock}
use yt_service.Cache.{get_transcript, put_diarization}
use yt_service.Diarization.{Turn, align_speakers}
use yt_service.Worker.Whisper.{Run, payload_language}

-- An exception is its class's name and its text.
pub record DiarizeEnv (N W : Type 0) : Type 0 where
  pub now : ℕ
  pub is_available : Bool
  pub download_audio : String → Outcome (String × String) String
  pub pipeline : String → Outcome (String × String) (List (Turn N))
  pub meanwhile : W → W

abbrev pub read_failure : ReadError → String × String
read_failure key_error = ("KeyError", "")
read_failure type_error = ("TypeError", "")
read_failure value_error = ("ValueError", "")

abbrev pub exception_text : String × String → String
exception_text (name, text) = str_cat name (str_cat ": " text)

module _ (f : Float) {Db : Type 0} (env : DiarizeEnv f.Num (World f.Num Db)) (job_id : String) where
  abbrev pub fail : String → World f.Num Db → World f.Num Db
  fail message w = mark_failed env.now job_id message w

  -- The row may have been purged: then nothing was updated.
  abbrev pub store : ℕ × World f.Num Db → World f.Num Db → World f.Num Db
  store (zero, w') w = fail "transcript row missing or purged during diarization" w
  store (suc n, w') w = mark_complete env.now job_id w'

  abbrev pub after_pipeline :
      Outcome (String × String) (List (Turn f.Num))
      → String
      → String
      → TranscriptRecord f.Num
      → World f.Num Db
      → World f.Num Db
  after_pipeline (raise exc) v l rec w = fail (exception_text exc) w
  after_pipeline (ok turns) v l rec w =
      store (put_diarization v l (align_speakers f rec.snippets turns) true w) w

  -- The world after the download, and the path of the audio if there is one.
  abbrev pub after_download :
      Outcome (String × String) String
      → String
      → String
      → TranscriptRecord f.Num
      → World f.Num Db
      → World f.Num Db × Option String
  after_download (raise exc) v l rec w = (fail (exception_text exc) w, none)
  after_download (ok path) v l rec w = (after_pipeline (env.pipeline path) v l rec w, some path)

  abbrev pub after_source :
      Source
      → String
      → String
      → TranscriptRecord f.Num
      → World f.Num Db
      → World f.Num Db × Option String
  after_source youtube_captions v l rec w = (
    fail
        (str_cat "diarization not supported on captions-sourced transcripts; "
          "use force=whisper to re-transcribe via Whisper first")
        w,
    none,
  )
  after_source _ v l rec w =
      if env.is_available
      then after_download (env.download_audio v) v l rec (env.meanwhile w)
      else (
        fail
            (str_cat "diarization unavailable: HUGGINGFACE_TOKEN missing or "
              "pyannote model not accessible")
            w,
        none,
      )

  unfoldable pub after_lookup :
      Outcome ReadError (Option (TranscriptRecord f.Num)) × World f.Num Db
      → String
      → String
      → World f.Num Db × Option String
  unfolding mark_failed mark_complete put_diarization align_speakers
  after_lookup (raise e, w) v l = (fail (exception_text (read_failure e)) w, none)
  after_lookup (ok none, w) v l = (fail "transcript not cached; fetch /v1/transcript first" w, none)
  after_lookup (ok (some rec), w) v l = after_source rec.source v l rec w

module _ (f : Float) (r : Redis) (env : DiarizeEnv f.Num (World f.Num r.Db)) where
  unfoldable pub run_diarization_found :
      String → Option Job → World f.Num r.Db → Run (World f.Num r.Db)
  unfolding after_lookup mark_running get_transcript release_lock
  run_diarization_found job_id none w = record { world = w; removed = none }
  run_diarization_found job_id (some job) w =
      let language = payload_language job.payload in
      let looked = get_transcript f env.now job.video_id language (mark_running env.now job_id w) in
      let (w2, path) = after_lookup f env job_id looked job.video_id language in
      record {
        world = record w2 {
          redis = (release_lock r w2.redis job.video_id "diarize" (some job_id)).1;
        };
        removed = path;
      }

  unfoldable pub run_diarization_job : String → World f.Num r.Db → Run (World f.Num r.Db)
  unfolding run_diarization_found get_job
  run_diarization_job job_id w = run_diarization_found job_id (get_job w.jobs job_id) w
