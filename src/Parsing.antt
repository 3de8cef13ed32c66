-- ===== src/Parsing.antt =====
-- src/app/parsing.py: video ids out of what callers pass. The parser of URLs is a parameter.
pub mod VideoIds
pub mod Channels
use Prim.Native.Char.{Char, code}
use Prim.Native.String
use text.Mathlib.Text.{◌==◌}
use yt_service.Prelude.{
  ℕ, zero, suc, String, Bool, true, false, ◌&&◌, ◌||◌, not, Option, none, some, List, [], ◌∷◌,
  Outcome, ok, raise, leb, find, select, is_empty, strip, split_once, split_all, drop_prefix,
  str_cat, if◌then◌else◌,
}
use yt_service.Prelude.{◌==◌ as eqb}
use yt_service.Prelude.Url.{ParsedUrl, UrlParser, starts_with, contains}
use yt_service.Errors.{Error, error, invalid_video_id}

-- `[A-Za-z0-9_-]`
abbrev pub is_id_char : Char → Bool
is_id_char c =
    let n = code c in
    (leb 65 n && leb n 90)
    || (leb 97 n && leb n 122)
    || (leb 48 n && leb n 57)
    || eqb n 95
    || eqb n 45

-- `$` matches at the end, and before a line break that ends the text.
abbrev pub at_end : String → Bool
at_end s = is_empty s || s == "\n"

-- That many characters of the class, and then the end as the argument tells it.
unfoldable pub id_then : (String → Bool) → ℕ → String → Bool
id_then ends zero s = ends s
id_then ends (suc n) String.[] = false
id_then ends (suc n) (String.◌∷◌ c s) = is_id_char c && id_then ends n s

-- `_VIDEO_ID_RE.match`
unfoldable pub video_id_match : String → Bool
unfolding id_then
video_id_match = id_then at_end 11

-- The first prefix that is there is cut off.
unfoldable pub drop_host_prefix : String → String
unfolding drop_prefix
drop_host_prefix host = elim (drop_prefix "www." host) [
  | some rest ↦ rest
  | none ↦ elim (drop_prefix "m." host) [ some rest ↦ rest | none ↦ host ]
]

unfoldable pub looks_like_url : String → Bool
unfolding contains
looks_like_url value = contains "://" value || contains "/" value

unfoldable pub lstrip_slash : String → String
lstrip_slash String.[] = String.[]
lstrip_slash (String.◌∷◌ c s) =
    let rest = lstrip_slash s in if eqb (code c) 47 then rest else String.◌∷◌ c s

-- `path.split("/", 1)[0]`
abbrev pub before_slash : String → String
before_slash path = elim (split_once "/" path) [ none ↦ path | some (a, b) ↦ a ]

-- `candidate or None`
abbrev pub if_given : String → Option String
if_given s = if is_empty s then none else some s

abbrev pub first_value : Option (String × List String) → Option String
first_value none = none
first_value (some (name, [])) = none
first_value (some (name, v ∷ vs)) = some v

abbrev pub is_prefix_form : String → Bool
is_prefix_form s = s == "shorts" || s == "embed" || s == "live" || s == "v"

module _ (url : UrlParser) where
  -- `if not host: return None`
  abbrev pub normalize_host : Option String → Option String
  normalize_host none = none
  normalize_host (some host) =
      if is_empty host then none else some (drop_host_prefix (url.lower host))

  abbrev pub query_value : String → String → Option String
  query_value name query = first_value (find (λ p. p.0 == name) (url.parse_qs query))

  abbrev pub of_segments : String → List String → Option String
  of_segments query [] = none
  of_segments query (first ∷ []) = if first == "watch" then query_value "v" query else none
  of_segments query (first ∷ second ∷ rest) =
      if first == "watch"
      then query_value "v" query
      else if is_prefix_form first
      then some second
      else none

  abbrev pub of_host : Option String → ParsedUrl → Option String
  of_host none parsed = none
  of_host (some host) parsed =
      if host == "youtu.be"
      then if_given (before_slash (lstrip_slash parsed.path))
      else if host == "youtube.com"
      then of_segments parsed.query (select (λ s. not (is_empty s)) (split_all "/" parsed.path))
      else none

  abbrev pub of_parsed : Option ParsedUrl → Option String
  of_parsed none = none
  of_parsed (some parsed) = of_host (normalize_host parsed.hostname) parsed

  unfoldable pub extract_id_from_url : String → Option String
  unfolding contains drop_host_prefix lstrip_slash split_once split_all
  extract_id_from_url raw =
      of_parsed (url.urlparse (if contains "://" raw then raw else str_cat "https://" raw))

  abbrev pub parse_error : String → Error
  parse_error input = error invalid_video_id (str_cat "could not parse video id from: " input)

  abbrev pub checked : String → Option String → Outcome Error String
  checked input none = raise (parse_error input)
  checked input (some candidate) =
      if video_id_match candidate then ok candidate else raise (parse_error input)

  -- An empty input is caught by the second test too, with the same error.
  unfoldable pub parse_video_id : String → Outcome Error String
  unfolding strip looks_like_url extract_id_from_url video_id_match error
  parse_video_id input =
      let raw = strip input in
      if is_empty raw
      then raise (parse_error input)
      else checked input (if looks_like_url raw then extract_id_from_url raw else some raw)
