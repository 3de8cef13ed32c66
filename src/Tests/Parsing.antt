-- ===== src/Tests/Parsing.antt =====
-- The theorems on src/app/parsing.py at concrete inputs.
use yt_service.Prelude.{true, some, [], ◌∷◌, ◌≡◌, refl, ok, str_cat, strip}
use yt_service.Prelude.Url.{UrlParser, contains}
use yt_service.Parsing.{id_then, video_id_match, looks_like_url, parse_video_id}
use yt_service.Parsing.Channels.{parse_channel_or_playlist}
use yt_service.Parsing.Channels.Kinds.{IsParsed, parse_channel_or_playlist-IsParsed}
use yt_service.Parsing.VideoIds.{IsVideoId, parse_video_id-own, parse_video_id_break}

-- A parser that answers as Python does for the watch URL below.
abbrev pub watch : UrlParser
watch = record {
  urlparse = λ s. some (record {
    scheme = "https";
    hostname = some "www.youtube.com";
    path = "/watch";
    query = "v=dQw4w9WgXcQ%0A";
    url = s;
  });
  parse_qs = λ q. ("v", "dQw4w9WgXcQ\n" ∷ []) ∷ [];
  lower = λ s. s;
}

an_id : IsVideoId "dQw4w9WgXcQ"
unfolding id_then
an_id = refl

parse_video_id-own_example : parse_video_id watch "dQw4w9WgXcQ" ≡ ok "dQw4w9WgXcQ"
parse_video_id-own_example = parse_video_id-own watch "dQw4w9WgXcQ" an_id

has_scheme : contains "://" (strip "https://www.youtube.com/watch?v=dQw4w9WgXcQ%0A") ≡ true
unfolding contains strip
has_scheme = refl

parse_video_id_break_example :
    (parse_video_id watch "https://www.youtube.com/watch?v=dQw4w9WgXcQ%0A"
      ≡ ok (str_cat "dQw4w9WgXcQ" "\n"))
    × (¬ IsVideoId (str_cat "dQw4w9WgXcQ" "\n"))
parse_video_id_break_example =
    parse_video_id_break watch "https://www.youtube.com/watch?v=dQw4w9WgXcQ%0A" "dQw4w9WgXcQ"
      (record {
        scheme = "https";
        hostname = some "www.youtube.com";
        path = "/watch";
        query = "v=dQw4w9WgXcQ%0A";
        url = strip "https://www.youtube.com/watch?v=dQw4w9WgXcQ%0A";
      })
      has_scheme refl refl refl refl refl an_id

stripped : parse_video_id watch " dQw4w9WgXcQ " ≡ ok "dQw4w9WgXcQ"
unfolding parse_video_id looks_like_url contains strip video_id_match
stripped = refl

parse_channel_or_playlist-IsParsed_example : IsParsed (parse_channel_or_playlist watch "@handle")
parse_channel_or_playlist-IsParsed_example = parse_channel_or_playlist-IsParsed watch "@handle"
