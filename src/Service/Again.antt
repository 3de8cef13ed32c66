-- ===== src/Service/Again.antt =====
-- The second request for a video with captions, in src/app/transcript_service.py.
use mathlib.Core.Path.{subst}
use yt_service.Prelude.{ℕ, ◌+◌, ◌*◌, ◌<◌, String, true, false, Option, some, ◌≡◌, ok, List, Float}
use yt_service.Domain.{CaptionsResult, Chapter, TranscriptRequest}
use yt_service.World.{Redis, World}
use yt_service.Cache.{get_transcript}
use yt_service.Cache.RoundTrip.{stored_chapters, read_back}
use yt_service.Service.{transcript, ServiceEnv, record_to_response}
use yt_service.Service.Fetching.{get_or_fetch}
use yt_service.Service.Answers.{get_or_fetch_cached}
use yt_service.Service.Captions.{FindsCaptions, caption_record, get_or_fetch_captioned}

module _ (f : Float) (r : Redis) (env : ServiceEnv f.Num (World f.Num r.Db))
    (request : TranscriptRequest) (token : String) (w : World f.Num r.Db)
    (captions : CaptionsResult f.Num) where
  -- A request whose wait is not negative, that forces nothing, has no row, and finds captions in the
  -- language that it asks for is answered with them, not marked as a cache hit. The same request of any token, whatever YouTube and
  -- Redis answer by then, gets the same captions until they expire, with the chapters stored before and
  -- marked as a cache hit; it enqueues nothing and changes nothing but the count of hits.
  pub get_or_fetch_again :
      (n later : ℕ) (old : Option (List (Chapter f.Num)))
      (env' : ServiceEnv f.Num (World f.Num r.Db)) (token' : String)
      → FindsCaptions f r env request token w captions n
      → captions.language ≡ request.language
      → (fresh : later < env.now + env.cache_ttl_days * 86400)
      → stored_chapters f w request.video_id captions.language ≡ ok old
      → (let first = get_or_fetch f r env request token w in
          let held = caption_record f r env request token w captions in
          (first.0 ≡ ok (transcript (record_to_response held false)))
          × (get_or_fetch f r (record env' { now = later }) request token' first.1 ≡ (
            ok (
                transcript (
                  record_to_response
                    (read_back f env.now later env.cache_ttl_days held fresh old)
                    true)),
            record first.1 { cache_hits = first.1.cache_hits + 1 },
          )))
  get_or_fetch_again n later old env' token' finds same fresh kept =
      let first =
        get_or_fetch_captioned f r env request token w captions n later old finds fresh kept in
      let held = caption_record f r env request token w captions in
      let after = (get_or_fetch f r env request token w).1 in
      (
        first.0,
        get_or_fetch_cached f r (record env' { now = later }) request token' after n
            (read_back f env.now later env.cache_ttl_days held fresh old) finds.waits finds.forces
            (subst
              (λ l.
                (get_transcript f later request.video_id l after).0
                ≡ ok (some (read_back f env.now later env.cache_ttl_days held fresh old)))
              same first.1),
      )
