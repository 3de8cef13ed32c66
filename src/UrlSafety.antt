-- ===== src/UrlSafety.antt =====
-- src/app/url_safety.py: which callback URLs are taken. The parser of URLs, the resolver, and what
-- `ipaddress` says of an address are parameters.
pub mod Public
use text.Mathlib.Text.{◌==◌}
use yt_service.Prelude.{
  String, Bool, true, false, ◌||◌, Option, none, some, List, [], ◌∷◌, Outcome, ok, raise, is_empty,
  strip, str_cat, if◌then◌else◌,
}
use yt_service.Prelude.Url.{ParsedUrl, UrlParser}
use yt_service.Errors.{Error, error, exception, invalid_request}

-- The flags of an address.
pub record AddressFlags : Type 0 where
  pub is_private : Bool
  pub is_loopback : Bool
  pub is_link_local : Bool
  pub is_multicast : Bool
  pub is_reserved : Bool
  pub is_unspecified : Bool

-- What `socket.getaddrinfo` ends with: the first part of each answer's address, an OSError, of which
-- gaierror is a subclass, or another exception.
pub data Lookup : Type 0 where
  answers : List (Option String) → Lookup
  os_error : Lookup
  raises : Error → Lookup

-- `settings.is_production`, `socket.getaddrinfo`, and `ipaddress.ip_address`, none where it raises.
pub record UrlEnv : Type 0 where
  pub is_production : Bool
  pub parser : UrlParser
  pub getaddrinfo : String → Lookup
  pub ip_address : String → Option AddressFlags

-- An answer without an address, or with an empty one, is skipped.
unfoldable pub addresses : List (Option String) → List String
addresses [] = []
addresses (none ∷ infos) = addresses infos
addresses (some ip ∷ infos) = let rest = addresses infos in if is_empty ip then rest else ip ∷ rest

module _ (env : UrlEnv) where
  abbrev pub of_lookup : Lookup → Outcome Error (List String)
  of_lookup (answers infos) = ok (addresses infos)
  of_lookup os_error = ok []
  of_lookup (raises e) = raise e

  unfoldable pub resolve_ips : String → Outcome Error (List String)
  unfolding addresses
  resolve_ips host = of_lookup (env.getaddrinfo host)

  abbrev pub any_flag : Option AddressFlags → Bool
  any_flag none = true
  any_flag (some ip) =
      ip.is_private || ip.is_loopback || ip.is_link_local || ip.is_multicast || ip.is_reserved
      || ip.is_unspecified

  -- An address that does not parse is dangerous.
  unfoldable pub is_dangerous_ip : String → Bool
  is_dangerous_ip ip = any_flag (env.ip_address ip)

  -- The first address that is refused.
  unfoldable pub first_dangerous : List String → Option String
  unfolding is_dangerous_ip
  first_dangerous [] = none
  first_dangerous (ip ∷ ips) =
      let rest = first_dangerous ips in if is_dangerous_ip ip then some ip else rest

  abbrev pub is_allowed : String → Bool
  is_allowed scheme = scheme == "https" || (if env.is_production then false else scheme == "http")

  abbrev pub refuse : String → Outcome Error String
  refuse message = raise (error invalid_request message)

  abbrev pub if_public : String → Option String → Outcome Error String
  if_public url none = ok url
  if_public url (some ip) = refuse (str_cat "callback_url resolves to disallowed IP " ip)

  abbrev pub if_resolved : String → String → Outcome Error (List String) → Outcome Error String
  if_resolved url host (raise e) = raise e
  if_resolved url host (ok []) =
      refuse (str_cat "callback_url host " (str_cat host " did not resolve"))
  if_resolved url host (ok (ip ∷ ips)) = if_public url (first_dangerous (ip ∷ ips))

  abbrev pub with_host : String → Option String → Outcome Error String
  with_host url none = refuse "callback_url is missing a hostname"
  with_host url (some host) =
      if is_empty host
      then refuse "callback_url is missing a hostname"
      else if_resolved url host (resolve_ips host)

  abbrev pub with_url : Option ParsedUrl → Outcome Error String
  with_url none = raise (exception "ValueError" "")
  with_url (some parsed) =
      if is_allowed (env.parser.lower parsed.scheme)
      then with_host parsed.url parsed.hostname
      else refuse (str_cat "callback_url scheme " (str_cat parsed.scheme " not allowed"))

  unfoldable pub validate_callback_url : String → Outcome Error String
  unfolding strip resolve_ips first_dangerous error exception
  validate_callback_url url =
      if is_empty (strip url)
      then refuse "callback_url must be a non-empty string"
      else with_url (env.parser.urlparse (strip url))
