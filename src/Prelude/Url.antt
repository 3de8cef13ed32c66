-- ===== src/Prelude/Url.antt =====
-- Searching texts, and the interface of Python's `urllib.parse`.
use Prim.Native.String.{String}
use mathlib.Core.Bool.{Bool, true, false, ◌||◌}
use mathlib.Core.Option.{Option, none, some}
use mathlib.Core.List.{List}
use yt_service.Prelude.Text.{drop_prefix, is_empty}

abbrev is_some {ℓ} : {A : Type ℓ} → Option A → Bool
is_some none = false
is_some (some a) = true

-- `s.startswith(prefix)`
unfoldable pub starts_with : String → String → Bool
unfolding drop_prefix
starts_with prefix s = is_some (drop_prefix prefix s)

-- `needle in s`
unfoldable pub contains : String → String → Bool
unfolding starts_with
contains needle String.[] = is_empty needle
contains needle (String.◌∷◌ c s) = starts_with needle (String.◌∷◌ c s) || contains needle s

-- The parts of a parsed URL that the program reads.
pub record ParsedUrl : Type 0 where
  pub scheme : String
  pub hostname : Option String
  pub path : String
  pub query : String
  pub url : String

-- `urlparse`, none where it raises, `parse_qs` with the values of each name, and `str.lower`.
pub record UrlParser : Type 0 where
  pub urlparse : String → Option ParsedUrl
  pub parse_qs : String → List (String × List String)
  pub lower : String → String
