-- ===== src/UrlSafety/Public.antt =====
-- The callback URLs that src/app/url_safety.py takes lead to public addresses only.
use text.Mathlib.Text.{◌==◌}
use text.Mathlib.TextEquality.{eq_iff}
use yt_service.Prelude.{
  String, true, false, Bool-cases, Option, none, some, Option-cases, List, [], ◌∷◌, ◌≡◌, ◌≢◌, ◌⊎◌,
  refl, sym, inl, inr, arith, All, Outcome, ok, raise, is_empty, strip,
}
use yt_service.Prelude.Url.{ParsedUrl}
use yt_service.Errors.{Error}
use yt_service.UrlSafety.{
  AddressFlags, UrlEnv, resolve_ips, any_flag, is_dangerous_ip, first_dangerous, is_allowed,
  if_resolved, with_host, with_url, validate_callback_url,
}

-- None of the six flags is set.
pub record IsPublic (ip : AddressFlags) : Type 0 where
  pub private_ : ip.is_private ≡ false
  pub loopback : ip.is_loopback ≡ false
  pub link_local : ip.is_link_local ≡ false
  pub multicast : ip.is_multicast ≡ false
  pub reserved : ip.is_reserved ≡ false
  pub unspecified : ip.is_unspecified ≡ false

module _ (env : UrlEnv) where
  -- The address parses, and is public.
  abbrev pub IsPublicAddress : String → Type 0
  IsPublicAddress s = (ip : AddressFlags) × (env.ip_address s ≡ some ip) × IsPublic ip

  pub record IsSafe (url out : String) : Type 0 where
    pub parsed : ParsedUrl
    pub host : String
    pub parses : env.parser.urlparse (strip url) ≡ some parsed
    pub result : out ≡ parsed.url
    pub scheme :
        (env.parser.lower parsed.scheme ≡ "https")
        ⊎ ((env.is_production ≡ false) × (env.parser.lower parsed.scheme ≡ "http"))
    pub hostname : parsed.hostname ≡ some host
    pub ips : List String
    pub resolves : resolve_ips env host ≡ ok ips
    pub resolved : ips ≢ []
    pub public : All IsPublicAddress ips

  raise-ne_ok : (e : Error) (s : String) → ◌≡◌ {A = Outcome Error String} (raise e) (ok s) → ⊥
  raise-ne_ok e s h = cc

  ok_eq : {a b : String} → ◌≡◌ {A = Outcome Error String} (ok a) (ok b) → a ≡ b
  ok_eq h = cc

  flags-IsPublic : (ip : AddressFlags) → any_flag env (some ip) ≡ false → IsPublic ip
  flags-IsPublic ip h = ground arith

  safe-IsPublicAddress : (s : String) → is_dangerous_ip env s ≡ false → IsPublicAddress s
  unfolding is_dangerous_ip
  safe-IsPublicAddress s h = elim (Option-cases (env.ip_address s)) [
    | inl e ↦ absurd (apart (rw e at h))
    | inr (ip, e) ↦ (ip, e, flags-IsPublic ip (rw e at h))
  ]
    where
      apart : true ≡ false → ⊥
      apart p = cc

  all-public : (ips : List String) → first_dangerous env ips ≡ none → All IsPublicAddress ips
  unfolding first_dangerous
  all-public [] h = tt
  all-public (s ∷ ips) h = elim (Bool-cases (is_dangerous_ip env s)) [
    | inl e ↦ absurd (some-ne_none (rw e at h))
    | inr e ↦ (safe-IsPublicAddress s e, all-public ips (rw e at h))
  ]
    where
      some-ne_none : some s ≡ none → ⊥
      some-ne_none k = cc

  allowed-scheme :
      (scheme : String)
      → is_allowed env scheme ≡ true
      → (scheme ≡ "https") ⊎ ((env.is_production ≡ false) × (scheme ≡ "http"))
  allowed-scheme scheme h = elim (Bool-cases (scheme == "https")) [
    | inl e ↦ inl ((eq_iff scheme "https").0 e)
    | inr e ↦ inr (ground (arith, eq_iff scheme "http"))
  ]

  taken :
      (url host out : String) (o : Outcome Error (List String))
      → if_resolved env url host o ≡ ok out
      → (ips : List String) × (o ≡ ok ips) × (ips ≢ []) × All IsPublicAddress ips × (out ≡ url)
  taken url host out (raise e) h = absurd (raise-ne_ok _ out h)
  taken url host out (ok []) h = absurd (raise-ne_ok _ out h)
  taken url host out (ok (ip ∷ ips)) h = elim (Option-cases (first_dangerous env (ip ∷ ips))) [
    | inl e ↦ (ip ∷ ips, refl, cons-ne_nil, all-public (ip ∷ ips) e, sym (ok_eq (rw e at h)))
    | inr (bad, e) ↦ absurd (raise-ne_ok _ out (rw e at h))
  ]
    where
      cons-ne_nil : (ip ∷ ips) ≢ []
      cons-ne_nil k = cc

  host-taken :
      (url out : String) (o : Option String)
      → with_host env url o ≡ ok out
      → (host : String) × (o ≡ some host)
        × (if_resolved env url host (resolve_ips env host) ≡ ok out)
  host-taken url out none h = absurd (raise-ne_ok _ out h)
  host-taken url out (some host) h = elim (Bool-cases (is_empty host)) [
    | inl e ↦ absurd (raise-ne_ok _ out (rw e at h))
    | inr e ↦ (host, refl, rw e at h)
  ]

  url-taken :
      (url out : String) (o : Option ParsedUrl)
      → env.parser.urlparse (strip url) ≡ o
      → with_url env o ≡ ok out
      → IsSafe url out
  url-taken url out none eq h = absurd (raise-ne_ok _ out h)
  url-taken url out (some parsed) eq h =
      elim (Bool-cases (is_allowed env (env.parser.lower parsed.scheme))) [
        | inr e ↦ absurd (raise-ne_ok _ out (rw e at h))
        | inl e ↦
            let (host, named, rest) = host-taken parsed.url out parsed.hostname (rw e at h) in
            let (ips, resolves, some_ips, public, same) =
              taken parsed.url host out (resolve_ips env host) rest in
            record {
              parsed = parsed;
              host = host;
              parses = eq;
              result = same;
              scheme = allowed-scheme (env.parser.lower parsed.scheme) e;
              hostname = named;
              ips = ips;
              resolves = resolves;
              resolved = some_ips;
              public = public;
            }
      ]

  -- A callback URL that is taken is https, or http outside production; its host resolves, and each
  -- address that it resolves to parses and is neither private, loopback, link-local, multicast,
  -- reserved nor unspecified; the result is the URL as it was parsed.
  pub validate_callback_url-IsSafe :
      (url out : String) → validate_callback_url env url ≡ ok out → IsSafe url out
  unfolding validate_callback_url
  validate_callback_url-IsSafe url out h = elim (Bool-cases (is_empty (strip url))) [
    | inl e ↦ absurd (raise-ne_ok _ out (rw e at h))
    | inr e ↦ url-taken url out (env.parser.urlparse (strip url)) refl (rw e at h)
  ]
