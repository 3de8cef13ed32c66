-- ===== src/Parsing/Channels/Kinds.antt =====
-- What `parse_channel_or_playlist` of src/app/parsing.py answers matches the pattern of its kind.
use text.Mathlib.Text.{◌==◌}
use yt_service.Prelude.{
  String, Bool, true, Bool-cases, ◌&&◌, ◌||◌, Option, none, some, List, [], ◌∷◌, ◌≡◌, ◌⊎◌, inl, inr,
  refl, arith, All, Outcome, ok, raise, is_empty, strip, drop_prefix, str_cat, if◌then◌else◌,
}
use yt_service.Prelude.Url.{ParsedUrl, UrlParser, starts_with, contains}
use yt_service.Errors.{Error, error, invalid_channel}
use yt_service.Domain.{ChannelRef}
use yt_service.Parsing.{query_value, before_slash}
use yt_service.Parsing.Channels.{
  handle_match, channel_id_match, playlist_id_match, ref_if, segment_after, ref_after,
  handle_segment, first_ref, handle_at, path_refs, bare_refs, ref_of_path, bare_ref, ref_or,
  list_value, of_youtube_path, channel_host, of_channel_url, of_candidate,
  parse_channel_or_playlist,
}

-- The value matches the pattern of the kind.
abbrev pub IsRef : ChannelRef → Type 0
IsRef ref =
    ((ref.kind ≡ "channel_id") × (channel_id_match ref.value ≡ true))
    ⊎ ((ref.kind ≡ "playlist") × (playlist_id_match ref.value ≡ true))
    ⊎ ((ref.kind ≡ "channel_handle") × (handle_match ref.value ≡ true))

-- A reference of a kind, or the refusal of the class for channels.
abbrev pub IsParsed : Outcome Error ChannelRef → Type 0
IsParsed (ok ref) = IsRef ref
IsParsed (raise e) = e.kind ≡ invalid_channel

abbrev Tried : Option ChannelRef → Type 0
Tried none = Unit {0}
Tried (some ref) = IsRef ref

ref_if-Tried :
    (kind : String) (test : String → Bool) (value : String)
    → (test value ≡ true → IsRef (record { kind = kind; value = value }))
    → Tried (ref_if kind test value)
ref_if-Tried kind test value h = elim (Bool-cases (test value)) [
  | inl e ↦ rw e (h e)
  | inr e ↦ rw e _
]

ref_after-Tried :
    (kind prefix : String) (test : String → Bool) (path : String)
    → ((value : String) → test value ≡ true → IsRef (record { kind = kind; value = value }))
    → Tried (ref_after kind prefix test path)
ref_after-Tried kind prefix test path h = by (segment_after prefix path)
  where
    by : (o : Option String) → Tried (elim o [ none ↦ none | some value ↦ ref_if kind test value ])
    by none = _
    by (some value) = ref_if-Tried kind test value (h value)

handle_at-Tried : (o : Option String) → Tried (handle_at o)
handle_at-Tried none = _
handle_at-Tried (some rest) =
    ref_if-Tried "channel_handle" handle_match (before_slash rest) (λ e. inr (inr (refl, e)))

handle_segment-Tried : (path : String) → Tried (handle_segment path)
handle_segment-Tried path = elim (Bool-cases (starts_with "/@" path)) [
  | inl e ↦ rw e (handle_at-Tried (drop_prefix "/" path))
  | inr e ↦ rw e _
]

first_ref-Tried : (os : List (Option ChannelRef)) → All Tried os → Tried (first_ref os)
unfolding first_ref
first_ref-Tried [] h = _
first_ref-Tried (none ∷ os) h = first_ref-Tried os h.1
first_ref-Tried (some ref ∷ os) h = h.0

ref_of_path-Tried : (path : String) → Tried (ref_of_path path)
unfolding ref_of_path
ref_of_path-Tried path = first_ref-Tried (path_refs path) (
  handle_segment-Tried path,
  (
    ref_after-Tried "channel_handle" "/c/" handle_match path (λ v e. inr (inr (refl, e))),
    (
      ref_after-Tried "channel_handle" "/user/" handle_match path (λ v e. inr (inr (refl, e))),
      (ref_after-Tried "channel_id" "/channel/" channel_id_match path (λ v e. inl (refl, e)), tt),
    ),
  ),
)

bare_ref-Tried : (candidate : String) → Tried (bare_ref candidate)
unfolding bare_ref
bare_ref-Tried candidate = first_ref-Tried (bare_refs candidate) (
  ref_if-Tried "channel_id" channel_id_match candidate (λ e. inl (refl, e)),
  (
    ref_if-Tried "playlist" playlist_id_match candidate (λ e. inr (inl (refl, e))),
    (
      ref_if-Tried "channel_handle" (λ s. starts_with "@" s && handle_match s) candidate
          (λ e. inr (inr (refl, ground (arith, e)))),
      tt,
    ),
  ),
)

ref_or-IsParsed :
    (text raw : String) (o : Option ChannelRef) → Tried o → IsParsed (ref_or text raw o)
unfolding error
ref_or-IsParsed text raw none h = refl
ref_or-IsParsed text raw (some ref) h = h

module _ (url : UrlParser) (raw : String) where
  of_youtube_path-IsParsed : (parsed : ParsedUrl) → IsParsed (of_youtube_path url raw parsed)
  of_youtube_path-IsParsed parsed = elim (Bool-cases (parsed.path == "/playlist")) [
    | inl e ↦ rw e (
        ref_or-IsParsed _ raw _ (
          ref_if-Tried "playlist" playlist_id_match
            (list_value url raw (query_value url "list" parsed.query)) (λ k. inr (inl (refl, k)))))
    | inr e ↦ rw e (ref_or-IsParsed _ raw _ (ref_of_path-Tried parsed.path))
  ]

  of_channel_url-IsParsed : (o : Option ParsedUrl) → IsParsed (of_channel_url url raw o)
  unfolding error
  of_channel_url-IsParsed none = refl
  of_channel_url-IsParsed (some parsed) =
      elim (Bool-cases (
        channel_host url raw parsed.hostname == "youtube.com"
        || channel_host url raw parsed.hostname == "youtu.be")) [
          | inl e ↦ rw e (of_youtube_path-IsParsed parsed)
          | inr e ↦ rw e refl
        ]

  of_candidate-IsParsed :
      (candidate : String) (o : Option ChannelRef)
      → Tried o
      → IsParsed (of_candidate url raw candidate o)
  of_candidate-IsParsed candidate (some ref) h = h
  of_candidate-IsParsed candidate none h =
      of_channel_url-IsParsed (
        url.urlparse (if contains "://" candidate then candidate else str_cat "https://" candidate))

  -- Whatever text is given, the answer is a reference whose value matches the pattern of its kind, a
  -- channel id, a playlist id or a handle, or it is the error for channels.
  pub parse_channel_or_playlist-IsParsed : IsParsed (parse_channel_or_playlist url raw)
  unfolding parse_channel_or_playlist error
  parse_channel_or_playlist-IsParsed = elim (Bool-cases (is_empty (strip raw))) [
    | inl e ↦ rw e refl
    | inr e ↦
        rw e (of_candidate-IsParsed (strip raw) (bare_ref (strip raw)) (bare_ref-Tried (strip raw)))
  ]
