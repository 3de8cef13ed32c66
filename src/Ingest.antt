-- ===== src/Ingest.antt =====
-- src/app/ingest.py: the requests for the videos of a channel or a playlist, one after the other.
pub mod Reported
use yt_service.Prelude.{
  ℕ, String, Option, none, some, List, [], ◌∷◌, Outcome, ok, raise, length, Float, str_cat,
}
use yt_service.Prelude.Url.{UrlParser}
use yt_service.Parsing.Channels.{parse_channel_or_playlist}
use yt_service.Errors.{Error, class_name}
use yt_service.Domain.{TranscriptRequest, ChannelRef}
use yt_service.World.{Redis, World}
use yt_service.Service.{Reply, transcript, job_accepted, ServiceEnv}
use yt_service.Service.Fetching.{get_or_fetch}

-- Never `skipped` in the code.
pub data IngestStatus : Type 0 where
  cached queued skipped failed : IngestStatus

pub record IngestVideoOutcome : Type 0 where
  pub video_id : String
  pub status : IngestStatus
  pub job_id : Option String
  pub error : Option String

pub record IngestResult : Type 0 where
  pub ingest_id : String
  pub source : String
  pub video_count : ℕ
  pub videos : List IngestVideoOutcome

-- The arguments of `ingest_channel_or_playlist` but for the hook, which stands in each `ServiceEnv`.
pub record IngestRequest : Type 0 where
  pub url : String
  pub max_videos : ℕ
  pub since : Option String
  pub include : Option (List String)
  pub language : String
  pub callback_url : Option String
  pub token_id : String

-- The parser of URLs, the list that yt-dlp gives, the fresh ULID, and what each request meets.
pub record IngestEnv (N W : Type 0) : Type 0 where
  pub url : UrlParser
  pub expand_channel_or_playlist : ChannelRef → ℕ → Option String → Outcome Error (List String)
  pub ulid : String
  pub service : String → ServiceEnv N W

abbrev pub included : Option (List String) → List String
included none = []
included (some names) = names

abbrev pub ingest_request_for : IngestRequest → String → TranscriptRequest
ingest_request_for q video_id = record {
  video_id = video_id;
  language = q.language;
  force = none;
  wait_seconds = some 0;
  include = included q.include;
  callback_url = q.callback_url;
}

unfoldable pub outcome_of : {N : Type 0} → String → Outcome Error (Reply N) → IngestVideoOutcome
outcome_of video_id (ok (transcript t)) = record {
  video_id = video_id;
  status = cached;
  job_id = none;
  error = none;
}
outcome_of video_id (ok (job_accepted a)) = record {
  video_id = video_id;
  status = queued;
  job_id = some a.job_id;
  error = none;
}
outcome_of video_id (raise e) = record {
  video_id = video_id;
  status = failed;
  job_id = none;
  error = some (str_cat (class_name e.kind) (str_cat ": " e.message));
}

module _ (f : Float) (r : Redis) (env : IngestEnv f.Num (World f.Num r.Db))
    (q : IngestRequest) where
  -- A request that fails is reported, and the next video follows.
  unfoldable pub ingest_videos :
      List String → World f.Num r.Db → List IngestVideoOutcome × World f.Num r.Db
  unfolding get_or_fetch outcome_of
  ingest_videos [] w = ([], w)
  ingest_videos (v ∷ vs) w =
      let (reply, w1) = get_or_fetch f r (env.service v) (ingest_request_for q v) q.token_id w in
      let (outcomes, w2) = ingest_videos vs w1 in (outcome_of v reply ∷ outcomes, w2)

  abbrev pub summarized :
      ChannelRef
      → List IngestVideoOutcome × World f.Num r.Db
      → Outcome Error IngestResult × World f.Num r.Db
  summarized ref (outcomes, w) = (
    ok (record {
      ingest_id = str_cat "ing_" env.ulid;
      source = str_cat ref.kind (str_cat ":" ref.value);
      video_count = length outcomes;
      videos = outcomes;
    }),
    w,
  )

  abbrev pub ingest_expanded :
      ChannelRef
      → Outcome Error (List String)
      → World f.Num r.Db
      → Outcome Error IngestResult × World f.Num r.Db
  ingest_expanded ref (raise e) w = (raise e, w)
  ingest_expanded ref (ok vs) w = summarized ref (ingest_videos vs w)

  abbrev pub ingest_parsed :
      Outcome Error ChannelRef → World f.Num r.Db → Outcome Error IngestResult × World f.Num r.Db
  ingest_parsed (raise e) w = (raise e, w)
  ingest_parsed (ok ref) w =
      ingest_expanded ref (env.expand_channel_or_playlist ref q.max_videos q.since) w

  unfoldable pub ingest_channel_or_playlist :
      World f.Num r.Db → Outcome Error IngestResult × World f.Num r.Db
  unfolding ingest_videos parse_channel_or_playlist
  ingest_channel_or_playlist w = ingest_parsed (parse_channel_or_playlist env.url q.url) w
