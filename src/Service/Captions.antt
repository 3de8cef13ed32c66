-- ===== src/Service/Captions.antt =====
-- What `get_or_fetch` of src/app/transcript_service.py caches of captions.
use yt_service.Prelude.{
  ℕ, ◌+◌, ◌*◌, ◌<◌, String, false, Option, none, some, ◌≡◌, refl, ap, ◌∙◌, Outcome, ok, List, find,
  min, Float,
}
use yt_service.Domain.{CaptionsResult, Chapter, TranscriptRecord, TranscriptRequest}
use yt_service.Domain.Json.{ReadError}
use yt_service.World.{Redis, World, Transcript}
use yt_service.Cache.{get_transcript, put_transcript, respond}
use yt_service.Cache.Frame.{same_answer}
use yt_service.Cache.RoundTrip.{stored_chapters, read_back, get-put_transcript}
use yt_service.Service.{
  transcript, ServiceEnv, record_to_response, captions_to_record, max_wait_seconds,
}
use yt_service.Service.Fetching.{
  clamp_wait_seconds, forces_whisper, forces_refresh, after_captions, after_cache, resolve,
  get_or_fetch,
}

module _ (f : Float) (r : Redis) (env : ServiceEnv f.Num (World f.Num r.Db))
    (request : TranscriptRequest) (token : String) (w : World f.Num r.Db)
    (captions : CaptionsResult f.Num) where
  -- The request forces nothing, has no row, and YouTube has captions.
  pub record FindsCaptions (n : ℕ) : Type 0 where
    pub waits : request.wait_seconds ≡ some n
    pub forces : request.force ≡ none
    pub missed : (get_transcript f env.now request.video_id request.language w).0 ≡ ok none
    pub captioned : env.fetch_captions request.video_id request.language ≡ ok (some captions)

  abbrev pub caption_record : TranscriptRecord f.Num
  caption_record = captions_to_record f env.now captions request.video_id

  transcripts-respond :
      (o : Option (Transcript f.Num)) → (respond f o w).1.transcripts ≡ w.transcripts
  unfolding respond
  transcripts-respond none = refl
  transcripts-respond (some t) = refl

  put : World f.Num r.Db → World f.Num r.Db
  put = put_transcript env.now env.cache_ttl_days caption_record (some env.cache_ttl_days)

  answer-captions :
      (n : ℕ) (m : Outcome ReadError (Option (TranscriptRecord f.Num)) × World f.Num r.Db)
      → m.0 ≡ ok none
      → env.fetch_captions request.video_id request.language ≡ ok (some captions)
      → after_cache f r env n request token m
        ≡ (ok (transcript (record_to_response caption_record false)), put m.1)
  unfolding after_cache after_captions put
  answer-captions n (o, v) h captioned = rw (h, after_cache) (rw (captioned, after_captions) refl)

  get_or_fetch-captions :
      (n : ℕ)
      → FindsCaptions n
      → get_or_fetch f r env request token w ≡ (
        ok (transcript (record_to_response caption_record false)),
        put (get_transcript f env.now request.video_id request.language w).1,
      )
  unfolding get_or_fetch resolve
  get_or_fetch-captions n h =
      rw
        (
          ap clamp_wait_seconds h.waits,
          get_or_fetch,
          ap forces_whisper h.forces,
          ap forces_refresh h.forces,
        )
        (answer-captions (min n max_wait_seconds) _ h.missed h.captioned)

  -- A request whose wait is not negative, that forces nothing, has no row, and finds captions is
  -- answered with them, not marked as a cache hit, and until they expire a lookup of the video and of the captions' language reads
  -- them back, with the chapters stored before.
  pub get_or_fetch_captioned :
      (n later : ℕ) (old : Option (List (Chapter f.Num)))
      → FindsCaptions n
      → (fresh : later < env.now + env.cache_ttl_days * 86400)
      → stored_chapters f w request.video_id captions.language ≡ ok old
      → ((get_or_fetch f r env request token w).0
          ≡ ok (transcript (record_to_response caption_record false)))
        × ((get_transcript f later request.video_id captions.language
              (get_or_fetch f r env request token w).1).0
            ≡ ok (some (read_back f env.now later env.cache_ttl_days caption_record fresh old)))
  unfolding put captions_to_record put_transcript
  get_or_fetch_captioned n later old h fresh kept = rw (get_or_fetch-captions n h) (refl, read)
    where
      w1 : World f.Num r.Db
      w1 = (get_transcript f env.now request.video_id request.language w).1

      same : w1.transcripts ≡ w.transcripts
      same = unfold get_transcript in transcripts-respond _

      read :
          (get_transcript f later request.video_id captions.language (put w1)).0
          ≡ ok (some (read_back f env.now later env.cache_ttl_days caption_record fresh old))
      read =
          same_answer f later request.video_id captions.language w (put w1) (put w)
            (ap (find _) (ap (λ ts. (put (record w { transcripts = ts })).transcripts) same))
          ∙ get-put_transcript f env.now later env.cache_ttl_days caption_record fresh
              env.cache_ttl_days w old kept
