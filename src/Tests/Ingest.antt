-- ===== src/Tests/Ingest.antt =====
-- The theorems on src/app/ingest.py at concrete inputs.
use yt_service.Prelude.{
  ℕ, String, none, List, [], ◌∷◌, refl, ok, strip, lstrip, rstrip, drop_prefix, ◌≡◌,
}
use yt_service.Jobs.Exclusion.{IsCovered}
use yt_service.Domain.{ChannelRef}
use yt_service.Prelude.Url.{starts_with}
use yt_service.Parsing.Channels.{
  parse_channel_or_playlist, bare_ref, first_ref, handle_match, channel_id_match, playlist_id_match,
  many_then,
}
use yt_service.Ingest.{IngestRequest, IngestEnv, ingest_channel_or_playlist}
use yt_service.Ingest.Reported.{Reports, ingest_channel_or_playlist-Reports}
use yt_service.Tests.Fixtures.{hundredths, memory, Place, busy, busy-IsCovered, service_env}
use yt_service.Tests.Parsing.{watch}
use yt_service.Tests.Service.{polite}

abbrev channel : ChannelRef
channel = record { kind = "channel_handle"; value = "@handle" }

abbrev uploads : List String
uploads = "v2" ∷ "v1" ∷ []

abbrev ingest_env : IngestEnv ℕ Place
ingest_env = record {
  url = watch;
  expand_channel_or_playlist = λ ref n since. ok uploads;
  ulid = "01J";
  service = λ v. service_env;
}

abbrev ingest_request : IngestRequest
ingest_request = record {
  url = "@handle";
  max_videos = 100;
  since = none;
  include = none;
  language = "en";
  callback_url = none;
  token_id = "token";
}

handle_parses : parse_channel_or_playlist watch "@handle" ≡ ok channel
unfolding parse_channel_or_playlist bare_ref first_ref handle_match channel_id_match
    playlist_id_match many_then starts_with strip lstrip rstrip drop_prefix
handle_parses = refl

ingest_channel_or_playlist-Reports_example :
    Reports uploads (ingest_channel_or_playlist hundredths memory ingest_env ingest_request busy).0
    × IsCovered memory
        (ingest_channel_or_playlist hundredths memory ingest_env ingest_request busy).1
ingest_channel_or_playlist-Reports_example =
    ingest_channel_or_playlist-Reports hundredths memory ingest_env ingest_request channel uploads
      busy handle_parses refl (λ v. polite) busy-IsCovered
