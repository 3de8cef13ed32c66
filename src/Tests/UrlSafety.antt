-- ===== src/Tests/UrlSafety.antt =====
-- The theorem on src/app/url_safety.py at a concrete URL.
use text.Mathlib.Text.{◌==◌}
use yt_service.Prelude.{true, false, some, none, [], ◌∷◌, ◌≡◌, refl, ok, strip, if◌then◌else◌}
use yt_service.Prelude.Url.{UrlParser}
use yt_service.UrlSafety.{
  AddressFlags, answers, os_error, UrlEnv, validate_callback_url, resolve_ips, addresses,
  first_dangerous, is_dangerous_ip,
}
use yt_service.UrlSafety.Public.{IsSafe, validate_callback_url-IsSafe}

abbrev hook_parser : UrlParser
hook_parser = record {
  urlparse = λ s. some (record {
    scheme = "https";
    hostname = some "example.org";
    path = "/hook";
    query = "";
    url = s;
  });
  parse_qs = λ q. [];
  lower = λ s. s;
}

abbrev nothing_special : AddressFlags
nothing_special = record {
  is_private = false;
  is_loopback = false;
  is_link_local = false;
  is_multicast = false;
  is_reserved = false;
  is_unspecified = false;
}

-- One host with one address.
abbrev pub internet : UrlEnv
internet = record {
  is_production = true;
  parser = hook_parser;
  getaddrinfo = λ host.
      if host == "example.org" then answers (some "93.184.216.34" ∷ none ∷ []) else os_error;
  ip_address = λ s. if s == "93.184.216.34" then some nothing_special else none;
}

taken : validate_callback_url internet "https://example.org/hook" ≡ ok "https://example.org/hook"
unfolding validate_callback_url resolve_ips addresses first_dangerous is_dangerous_ip strip
taken = refl

validate_callback_url-IsSafe_example :
    IsSafe internet "https://example.org/hook" "https://example.org/hook"
validate_callback_url-IsSafe_example =
    validate_callback_url-IsSafe internet "https://example.org/hook" "https://example.org/hook"
      taken
