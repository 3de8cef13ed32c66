-- ===== src/Parsing/Channels.antt =====
-- src/app/parsing.py: references to channels and playlists.
pub mod Kinds
use Prim.Native.Char.{Char, code}
use Prim.Native.String
use text.Mathlib.Text.{◌==◌}
use yt_service.Prelude.{
  ℕ, zero, suc, ◌-◌, String, Bool, true, false, ◌&&◌, ◌||◌, Option, none, some, List, [], ◌∷◌,
  Outcome, ok, raise, is_empty, strip, split_once, drop_prefix, str_cat, if◌then◌else◌,
}
use yt_service.Prelude.{◌==◌ as eqb}
use yt_service.Prelude.Url.{ParsedUrl, UrlParser, starts_with, contains}
use yt_service.Errors.{Error, error, invalid_channel}
use yt_service.Domain.{ChannelRef}
use yt_service.Parsing.{
  is_id_char, at_end, id_then, drop_host_prefix, lstrip_slash, before_slash, query_value,
}

-- `[A-Za-z0-9_.-]`
abbrev pub is_handle_char : Char → Bool
is_handle_char c = is_id_char c || eqb (code c) 46

-- At least that many characters of the class, as many as there are, and then the end.
unfoldable pub many_then : (Char → Bool) → ℕ → String → Bool
many_then cls n String.[] = eqb n 0
many_then cls n (String.◌∷◌ c s) =
    let rest = many_then cls (n - 1) s in if cls c then rest else eqb n 0 && at_end (String.◌∷◌ c s)

abbrev pub after_prefix : String → (String → Bool) → String → Bool
after_prefix prefix test s = elim (drop_prefix prefix s) [ none ↦ false | some rest ↦ test rest ]

-- `_CHANNEL_HANDLE_RE.match`
unfoldable pub handle_match : String → Bool
unfolding many_then drop_prefix
handle_match s = elim (drop_prefix "@" s) [
  | none ↦ many_then is_handle_char 3 s
  | some rest ↦ many_then is_handle_char 3 rest
]

-- `_CHANNEL_ID_RE.match`
unfoldable pub channel_id_match : String → Bool
unfolding id_then drop_prefix
channel_id_match = after_prefix "UC" (id_then at_end 22)

-- `_PLAYLIST_ID_RE.match`
unfoldable pub playlist_id_match : String → Bool
unfolding many_then drop_prefix
playlist_id_match s =
    after_prefix "PL" (many_then is_id_char 10) s
    || after_prefix "UU" (many_then is_id_char 10) s
    || after_prefix "FL" (many_then is_id_char 10) s
    || after_prefix "LL" (many_then is_id_char 10) s
    || after_prefix "RD" (many_then is_id_char 10) s

abbrev pub ref_if : String → (String → Bool) → String → Option ChannelRef
ref_if kind test value = if test value then some (record { kind = kind; value = value }) else none

-- The first segment of what follows the prefix. A slash at its end stands behind that segment.
abbrev pub segment_after : String → String → Option String
segment_after prefix path = elim (drop_prefix prefix path) [
  | none ↦ none
  | some rest ↦ some (before_slash (lstrip_slash rest))
]

abbrev pub ref_after : String → String → (String → Bool) → String → Option ChannelRef
ref_after kind prefix test path = elim (segment_after prefix path) [
  | none ↦ none
  | some value ↦ ref_if kind test value
]

abbrev pub handle_at : Option String → Option ChannelRef
handle_at none = none
handle_at (some rest) = ref_if "channel_handle" handle_match (before_slash rest)

-- `path[1:].split("/", 1)[0]` of a path that begins with `/@`
abbrev pub handle_segment : String → Option ChannelRef
handle_segment path = if starts_with "/@" path then handle_at (drop_prefix "/" path) else none

-- The first attempt that succeeds.
unfoldable pub first_ref : List (Option ChannelRef) → Option ChannelRef
first_ref [] = none
first_ref (none ∷ rest) = first_ref rest
first_ref (some ref ∷ rest) = some ref

abbrev pub path_refs : String → List (Option ChannelRef)
path_refs path =
    handle_segment path
    ∷ ref_after "channel_handle" "/c/" handle_match path
    ∷ ref_after "channel_handle" "/user/" handle_match path
    ∷ ref_after "channel_id" "/channel/" channel_id_match path
    ∷ []

unfoldable pub ref_of_path : String → Option ChannelRef
unfolding first_ref handle_match channel_id_match drop_prefix split_once lstrip_slash starts_with
ref_of_path path = first_ref (path_refs path)

-- A bare id, or a handle with its `@`.
abbrev pub bare_refs : String → List (Option ChannelRef)
bare_refs candidate =
    ref_if "channel_id" channel_id_match candidate
    ∷ ref_if "playlist" playlist_id_match candidate
    ∷ ref_if "channel_handle" (λ s. starts_with "@" s && handle_match s) candidate
    ∷ []

unfoldable pub bare_ref : String → Option ChannelRef
unfolding first_ref handle_match channel_id_match playlist_id_match starts_with
bare_ref candidate = first_ref (bare_refs candidate)

abbrev refuse : String → String → Outcome Error ChannelRef
refuse text raw = raise (error invalid_channel (str_cat text raw))

abbrev pub ref_or : String → String → Option ChannelRef → Outcome Error ChannelRef
ref_or text raw none = refuse text raw
ref_or text raw (some ref) = ok ref

module _ (url : UrlParser) (raw : String) where
  abbrev pub list_value : Option String → String
  list_value none = ""
  list_value (some value) = value

  abbrev pub of_youtube_path : ParsedUrl → Outcome Error ChannelRef
  of_youtube_path parsed =
      if parsed.path == "/playlist"
      then ref_or "playlist url missing valid list= param: " raw
          (ref_if "playlist" playlist_id_match (list_value (query_value url "list" parsed.query)))
      else ref_or "could not parse channel/playlist url: " raw (ref_of_path parsed.path)

  abbrev pub channel_host : Option String → String
  channel_host none = ""
  channel_host (some host) = drop_host_prefix (url.lower host)

  abbrev pub of_channel_url : Option ParsedUrl → Outcome Error ChannelRef
  of_channel_url none = refuse "could not parse url " raw
  of_channel_url (some parsed) =
      if channel_host parsed.hostname == "youtube.com" || channel_host parsed.hostname == "youtu.be"
      then of_youtube_path parsed
      else refuse "not a youtube url: " raw

  abbrev pub of_candidate : String → Option ChannelRef → Outcome Error ChannelRef
  of_candidate candidate (some ref) = ok ref
  of_candidate candidate none =
      of_channel_url (
        url.urlparse (if contains "://" candidate then candidate else str_cat "https://" candidate))

  unfoldable pub parse_channel_or_playlist : Outcome Error ChannelRef
  unfolding strip bare_ref ref_of_path playlist_id_match drop_host_prefix contains error
  parse_channel_or_playlist =
      if is_empty (strip raw)
      then refuse "empty or non-string input: " raw
      else of_candidate (strip raw) (bare_ref (strip raw))
