-- ===== src/Http/Loopback.antt =====
-- src/app/main.py: `/metrics`, which answers the same host alone. `ipaddress` is a parameter.
use text.Mathlib.Text.{◌==◌}
use yt_service.Prelude.{
  String, Bool, true, false, ◌||◌, Bool-cases, Option, none, some, List, [], ◌∷◌, ◌≡◌, refl, inl,
  inr, arith, Outcome, ok, raise, is_empty, strip, lstrip, rstrip, split_all, if◌then◌else◌,
}
use yt_service.Http.{ErrorResponse}

-- The address of the peer, and the headers `X-Forwarded-For` and `X-Real-IP`.
pub record Peer : Type 0 where
  pub host : Option String
  pub forwarded_for : Option String
  pub real_ip : Option String

-- An absent header counts as an empty one.
abbrev pub text_of : Option String → String
text_of none = ""
text_of (some s) = s

abbrev pub first_part : List String → String
first_part [] = ""
first_part (part ∷ parts) = part

-- The first hop that `X-Forwarded-For` names.
unfoldable pub first_hop : Option String → String
unfolding split_all strip
first_hop xff = strip (first_part (split_all "," (text_of xff)))

abbrev metrics_refusal : ErrorResponse
metrics_refusal = record {
  status = 403;
  envelope = record {
    error_field = "feature_disabled";
    message = "metrics is only available from loopback";
    job_id = none;
    poll_url = none;
  };
  retry_after = none;
}

false-ne_true : ◌≡◌ {A = Bool} false true → ⊥
false-ne_true h = cc

-- `ipaddress.ip_address(s).is_loopback`, none where the text is not an address.
module _ (ip_is_loopback : String → Option Bool) where
  abbrev parsed_loopback : Option Bool → Bool
  parsed_loopback none = false
  parsed_loopback (some b) = b

  abbrev named_loopback : String → Bool
  named_loopback candidate =
      if is_empty candidate
      then false
      else candidate == "localhost"
        || candidate == "127.0.0.1"
        || candidate == "::1"
        || parsed_loopback (ip_is_loopback candidate)

  -- `_host_is_loopback`
  unfoldable pub host_is_loopback : Option String → Bool
  unfolding strip
  host_is_loopback host = named_loopback (strip (text_of host))

  -- The originator that the headers name, if they name one.
  unfoldable pub forwarded_candidate : Peer → Option String
  unfolding first_hop strip
  forwarded_candidate peer =
      if is_empty (first_hop peer.forwarded_for)
      then if is_empty (text_of peer.real_ip) then none else some (strip (text_of peer.real_ip))
      else some (first_hop peer.forwarded_for)

  -- `_client_host_is_loopback`
  unfoldable pub client_host_is_loopback : Peer → Bool
  unfolding host_is_loopback forwarded_candidate
  client_host_is_loopback peer =
      if host_is_loopback peer.host
      then if is_empty (text_of peer.forwarded_for)
        then if is_empty (text_of peer.real_ip)
          then true
          else host_is_loopback (forwarded_candidate peer)
        else host_is_loopback (forwarded_candidate peer)
      else false

  -- `GET /metrics`
  unfoldable pub metrics : String → Peer → Outcome ErrorResponse String
  unfolding client_host_is_loopback
  metrics rendered peer =
      if client_host_is_loopback peer then ok rendered else raise metrics_refusal

  first_hop-empty :
      (xff : Option String) → is_empty (text_of xff) ≡ true → is_empty (first_hop xff) ≡ true
  unfolding first_hop split_all strip lstrip rstrip
  first_hop-empty none h = refl
  first_hop-empty (some String.[]) h = refl
  first_hop-empty (some (String.◌∷◌ d s)) h = ground (arith, h)

  client-peer :
      (peer : Peer) → client_host_is_loopback peer ≡ true → host_is_loopback peer.host ≡ true
  unfolding client_host_is_loopback
  client-peer peer h = elim (Bool-cases (host_is_loopback peer.host)) [
    | inl e ↦ e
    | inr e ↦ absurd (false-ne_true (rw e at h))
  ]

  client-forwarded :
      (peer : Peer)
      → client_host_is_loopback peer ≡ true
      → is_empty (first_hop peer.forwarded_for) ≡ false
      → host_is_loopback (some (first_hop peer.forwarded_for)) ≡ true
  unfolding client_host_is_loopback forwarded_candidate
  client-forwarded peer h named = elim (Bool-cases (is_empty (text_of peer.forwarded_for))) [
    | inl e ↦ ground (arith, first_hop-empty peer.forwarded_for e, named)
    | inr e ↦ rw (client-peer peer h, e, named) at h
  ]

  served :
      (rendered body : String) (peer : Peer)
      → metrics rendered peer ≡ ok body
      → client_host_is_loopback peer ≡ true
  unfolding metrics
  served rendered body peer h = elim (Bool-cases (client_host_is_loopback peer)) [
    | inl e ↦ e
    | inr e ↦ absurd (raise-ne_ok _ body (rw (e, metrics) at h))
  ]
    where
      raise-ne_ok :
          (e : ErrorResponse) (s : String)
          → ◌≡◌ {A = Outcome ErrorResponse String} (raise e) (ok s)
          → ⊥
      raise-ne_ok e s k = cc

  -- Whatever the headers say, `/metrics` answers only a peer that is a loopback host, and if the first
  -- hop of `X-Forwarded-For` is named then only one that names a loopback host.
  pub metrics-loopback :
      (rendered body : String) (peer : Peer)
      → metrics rendered peer ≡ ok body
      → (host_is_loopback peer.host ≡ true)
        × (is_empty (first_hop peer.forwarded_for) ≡ false
            → host_is_loopback (some (first_hop peer.forwarded_for)) ≡ true)
  metrics-loopback rendered body peer h = (
    client-peer peer (served rendered body peer h),
    client-forwarded peer (served rendered body peer h),
  )
