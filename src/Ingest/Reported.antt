-- ===== src/Ingest/Reported.antt =====
-- src/app/ingest.py reports every video, and failures leave the locks of the jobs in progress.
use yt_service.Prelude.{
  String, List, [], ◌∷◌, ◌≡◌, refl, ap, map, Outcome, ok, raise, length, Float, suc,
}
use yt_service.Parsing.Channels.{parse_channel_or_playlist}
use yt_service.Errors.{Error}
use yt_service.World.{Redis, World}
use yt_service.Jobs.Exclusion.{IsCovered}
use yt_service.Service.{Reply, transcript, job_accepted}
use yt_service.Service.Fetching.{get_or_fetch}
use yt_service.Service.Covered.{IsPolite, get_or_fetch-IsCovered}
use yt_service.Domain.{ChannelRef}
use yt_service.Ingest.{
  IngestResult, IngestRequest, IngestEnv, ingest_request_for, outcome_of, ingest_videos,
  ingest_parsed, ingest_expanded, ingest_channel_or_playlist,
}

video_id-outcome_of :
    {N : Type 0}
    → (v : String) (reply : Outcome Error (Reply N)) → (outcome_of v reply).video_id ≡ v
unfolding outcome_of
video_id-outcome_of v (ok (transcript t)) = refl
video_id-outcome_of v (ok (job_accepted a)) = refl
video_id-outcome_of v (raise e) = refl

-- The report names each of the videos once, in their order, and counts them.
abbrev pub Reports : List String → Outcome Error IngestResult → Type 0
Reports vs (raise e) = ⊥
Reports vs (ok report) =
    (map (λ o. o.video_id) report.videos ≡ vs) × (report.video_count ≡ length vs)

module _ (f : Float) (r : Redis) (env : IngestEnv f.Num (World f.Num r.Db))
    (q : IngestRequest) where
  reported :
      (vs : List String) (w : World f.Num r.Db)
      → map (λ o. o.video_id) (ingest_videos f r env q vs w).0 ≡ vs
  unfolding ingest_videos
  reported [] w = refl
  reported (v ∷ vs) w =
      let m = get_or_fetch f r (env.service v) (ingest_request_for q v) q.token_id w in
      rw (video_id-outcome_of v m.0) (ap (λ us. v ∷ us) (reported vs m.1))

  counted :
      (vs : List String) (w : World f.Num r.Db)
      → length (ingest_videos f r env q vs w).0 ≡ length vs
  unfolding ingest_videos
  counted [] w = refl
  counted (v ∷ vs) w =
      let m = get_or_fetch f r (env.service v) (ingest_request_for q v) q.token_id w in
      ap suc (counted vs m.1)

  covered :
      ((v : String) → IsPolite f r (env.service v))
      → (vs : List String) (w : World f.Num r.Db) → IsCovered r w
      → IsCovered r (ingest_videos f r env q vs w).1
  unfolding ingest_videos
  covered polite [] w h = h
  covered polite (v ∷ vs) w h = covered polite vs _ (
      get_or_fetch-IsCovered f r (env.service v) (polite v) (ingest_request_for q v) q.token_id w h)

  expanded-IsCovered :
      ((v : String) → IsPolite f r (env.service v))
      → (ref : ChannelRef) (o : Outcome Error (List String)) (w : World f.Num r.Db) → IsCovered r w
      → IsCovered r (ingest_expanded f r env q ref o w).1
  expanded-IsCovered polite ref (raise e) w h = h
  expanded-IsCovered polite ref (ok vs) w h = covered polite vs w h

  -- Every job in progress owns its lock after any run, also one that fails.
  pub ingest_channel_or_playlist-IsCovered :
      ((v : String) → IsPolite f r (env.service v))
      → (w : World f.Num r.Db) → IsCovered r w
      → IsCovered r (ingest_channel_or_playlist f r env q w).1
  unfolding ingest_channel_or_playlist
  ingest_channel_or_playlist-IsCovered polite w h =
      parsed-IsCovered (parse_channel_or_playlist env.url q.url)
    where
      parsed-IsCovered :
          (o : Outcome Error ChannelRef) → IsCovered r (ingest_parsed f r env q o w).1
      parsed-IsCovered (raise e) = h
      parsed-IsCovered (ok ref) =
          expanded-IsCovered polite ref (env.expand_channel_or_playlist ref q.max_videos q.since) w
            h

  -- If the reference parses and its list of videos can be read, then the ingest answers with a
  -- report that names each video of the list once and in order, whatever becomes of the single
  -- requests; and if every job in progress owned its lock before, then so it is after, as long as
  -- the other processes and the hook keep it so, and none of them acts between the second look for a
  -- job and the theft of its lock.
  pub ingest_channel_or_playlist-Reports :
      (ref : ChannelRef) (vs : List String) (w : World f.Num r.Db)
      → parse_channel_or_playlist env.url q.url ≡ ok ref
      → env.expand_channel_or_playlist ref q.max_videos q.since ≡ ok vs
      → ((v : String) → IsPolite f r (env.service v))
      → IsCovered r w
      → Reports vs (ingest_channel_or_playlist f r env q w).0
        × IsCovered r (ingest_channel_or_playlist f r env q w).1
  unfolding ingest_channel_or_playlist
  ingest_channel_or_playlist-Reports ref vs w parsed expanded polite h =
      rw (parsed, expanded) ((reported vs w, counted vs w), covered polite vs w h)
