-- ===== src/Parsing/VideoIds.antt =====
-- What src/app/parsing.py takes for a video id.
use Prim.Native.Char.{Char}
use text.Mathlib.Text.{◌==◌}
use text.Mathlib.TextEquality.{eq_iff}
use text.Mathlib.TextLemmas.{head-eq_of_cons-eq, cons-append, nil-append}
use mathlib.Core.Path.{subst}
use yt_service.Prelude.{
  ℕ, zero, suc, String, Bool, true, false, Bool-cases, ◌&&◌, ◌≡◌, ◌⊎◌, refl, sym, ap, ◌∙◌, inl, inr,
  arith, Option, none, some, Outcome, ok, raise, is_empty, is_space, lstrip, rstrip, strip,
  drop_prefix, str_cat, split_all, [], ◌∷◌, if◌then◌else◌,
}
use yt_service.Prelude.Url.{ParsedUrl, UrlParser, contains}
use yt_service.Errors.{Error}
use yt_service.Parsing.{
  is_id_char, at_end, id_then, video_id_match, looks_like_url, extract_id_from_url, checked,
  drop_host_prefix, parse_video_id,
}

-- Exactly eleven characters of the alphabet.
abbrev pub IsVideoId : String → Type 0
IsVideoId s = id_then is_empty 11 s ≡ true

id_char-space : (c : Char) → is_id_char c ≡ true → is_space c ≡ false
id_char-space c h = ground arith

and_parts : (a b : Bool) → (a && b) ≡ true → (a ≡ true) × (b ≡ true)
and_parts a b h = (ground arith, ground arith)

-- A character of an id is none that is outside the alphabet.
id_char-ne :
    (c d : Char)
    → is_id_char c ≡ true
    → is_id_char d ≡ false
    → (String.◌∷◌ d String.[] == String.◌∷◌ c String.[]) ≡ false
id_char-ne c d h out = elim (Bool-cases (String.◌∷◌ d String.[] == String.◌∷◌ c String.[])) [
  | inr e ↦ e
  | inl e ↦
      let same : d ≡ c =
        head-eq_of_cons-eq ((eq_iff (String.◌∷◌ d String.[]) (String.◌∷◌ c String.[])).0 e) in
      absurd (apart (subst (λ x. is_id_char x ≡ true) (sym same) h) out)
]
  where
    apart : {b : Bool} → b ≡ true → b ≡ false → ⊥
    apart p q = cc

contains-false :
    (n : ℕ) (d : Char) (rest s : String)
    → is_id_char d ≡ false
    → id_then is_empty n s ≡ true
    → contains (String.◌∷◌ d rest) s ≡ false
unfolding id_then contains
contains-false zero d rest String.[] out h = refl
contains-false zero d rest (String.◌∷◌ c s) out h = cc
contains-false (suc n) d rest String.[] out h = refl
contains-false (suc n) d rest (String.◌∷◌ c s) out h =
    let parts = and_parts (is_id_char c) (id_then is_empty n s) h in
    let tail = contains-false n d rest s out parts.1 in rw (id_char-ne c d parts.0 out) tail

lstrip-id : (n : ℕ) (s : String) → id_then is_empty (suc n) s ≡ true → lstrip s ≡ s
unfolding id_then lstrip
lstrip-id n String.[] h = refl
lstrip-id n (String.◌∷◌ c s) h =
    let parts = and_parts (is_id_char c) (id_then is_empty n s) h in rw (id_char-space c parts.0)

rstrip-id : (n : ℕ) (s : String) → id_then is_empty n s ≡ true → rstrip s ≡ s
unfolding id_then rstrip
rstrip-id zero String.[] h = refl
rstrip-id zero (String.◌∷◌ c s) h = cc
rstrip-id (suc n) String.[] h = refl
rstrip-id (suc n) (String.◌∷◌ c s) h =
    let parts = and_parts (is_id_char c) (id_then is_empty n s) h in
    rw (id_char-space c parts.0, rstrip-id n s parts.1)

match-id : (n : ℕ) (s : String) → id_then is_empty n s ≡ true → id_then at_end n s ≡ true
unfolding id_then
match-id zero s h = rw h
match-id (suc n) String.[] h = h
match-id (suc n) (String.◌∷◌ c s) h =
    let parts = and_parts (is_id_char c) (id_then is_empty n s) h in
    rw (parts.0, match-id n s parts.1)

-- What the pattern takes is an id, or an id and a line break.
match-cases :
    (n : ℕ) (s : String)
    → id_then at_end n s ≡ true
    → (id_then is_empty n s ≡ true)
      ⊎ ((t : String) × (id_then is_empty n t ≡ true) × (s ≡ str_cat t "\n"))
unfolding id_then
match-cases zero String.[] h = inl refl
match-cases zero (String.◌∷◌ c s) h =
    inr (String.[], refl, (eq_iff (String.◌∷◌ c s) "\n").0 h ∙ sym (nil-append "\n"))
match-cases (suc n) String.[] h = cc
match-cases (suc n) (String.◌∷◌ c s) h =
    let parts = and_parts (is_id_char c) (id_then at_end n s) h in
    elim (match-cases n s parts.1) [
      | inl e ↦ inl (rw (parts.0, e))
      | inr (t, e, q) ↦
          inr (String.◌∷◌ c t, rw (parts.0, e), ap (String.◌∷◌ c) q ∙ sym (cons-append c t "\n"))
    ]

module _ (url : UrlParser) where
  -- Exactly eleven characters of the alphabet are their own parse.
  pub parse_video_id-own : (s : String) → IsVideoId s → parse_video_id url s ≡ ok s
  unfolding parse_video_id looks_like_url strip video_id_match
  parse_video_id-own s h = rw (
    lstrip-id 10 s h,
    rstrip-id 11 s h,
    contains-false 11 ":" "//" s refl h,
    contains-false 11 "/" "" s refl h,
    match-id 11 s h,
    not-empty s h,
  )
    where
      not-empty : (t : String) → IsVideoId t → is_empty t ≡ false
      not-empty String.[] k = cc
      not-empty (String.◌∷◌ c t) k = refl

  raise-ne_ok : (e : Error) (s : String) → ◌≡◌ {A = Outcome Error String} (raise e) (ok s) → ⊥
  raise-ne_ok e s h = cc

  ok_eq : {a b : String} → ◌≡◌ {A = Outcome Error String} (ok a) (ok b) → a ≡ b
  ok_eq h = cc

  checked-match :
      (input : String) (o : Option String) (s : String)
      → checked url input o ≡ ok s
      → video_id_match s ≡ true
  checked-match input none s h = absurd (raise-ne_ok _ s h)
  checked-match input (some c) s h = elim (Bool-cases (video_id_match c)) [
    | inl e ↦ subst (λ x. video_id_match x ≡ true) (ok_eq (rw e at h)) e
    | inr e ↦ absurd (raise-ne_ok _ s (rw e at h))
  ]

  -- What parses is eleven characters of the alphabet, or these and one line break.
  pub parse_video_id_sound :
      (input s : String)
      → parse_video_id url input ≡ ok s
      → IsVideoId s ⊎ ((t : String) × IsVideoId t × (s ≡ str_cat t "\n"))
  unfolding parse_video_id
  parse_video_id_sound input s h = elim (Bool-cases (is_empty (strip input))) [
    | inl e ↦ absurd (raise-ne_ok _ s (rw e at h))
    | inr e ↦
        unfold video_id_match in
        match-cases 11 s (
          checked-match input
            (if looks_like_url (strip input)
              then extract_id_from_url url (strip input)
              else some (strip input))
            s (rw e at h))
  ]

  match-break :
      (n : ℕ) (s : String) → id_then is_empty n s ≡ true → id_then at_end n (str_cat s "\n") ≡ true
  unfolding id_then
  match-break zero String.[] h = refl
  match-break zero (String.◌∷◌ c s) h = cc
  match-break (suc n) String.[] h = cc
  match-break (suc n) (String.◌∷◌ c s) h =
      let parts = and_parts (is_id_char c) (id_then is_empty n s) h in
      rw (cons-append c s "\n", parts.0, match-break n s parts.1)

  not-break :
      (n : ℕ) (s : String)
      → id_then is_empty n s ≡ true
      → ¬ (id_then is_empty n (str_cat s "\n") ≡ true)
  unfolding id_then
  not-break zero String.[] h k = absurd (apart k)
    where
      apart : false ≡ true → ⊥
      apart p = cc
  not-break zero (String.◌∷◌ c s) h k = cc
  not-break (suc n) String.[] h k = cc
  not-break (suc n) (String.◌∷◌ c s) h k =
      let parts = and_parts (is_id_char c) (id_then is_empty n s) h in
      not-break n s parts.1 (and_parts (is_id_char c) _ (rw (cons-append c s "\n") at k)).1

  -- A watch URL whose query decodes to an id and a line break parses to that text, which is no id: the
  -- break is not refused.
  pub parse_video_id_break :
      (input s : String) (parsed : ParsedUrl)
      → contains "://" (strip input) ≡ true
      → url.urlparse (strip input) ≡ some parsed
      → url.lower "www.youtube.com" ≡ "www.youtube.com"
      → parsed.hostname ≡ some "www.youtube.com"
      → parsed.path ≡ "/watch"
      → url.parse_qs parsed.query ≡ ("v", str_cat s "\n" ∷ []) ∷ []
      → IsVideoId s
      → (parse_video_id url input ≡ ok (str_cat s "\n")) × (¬ IsVideoId (str_cat s "\n"))
  unfolding parse_video_id looks_like_url extract_id_from_url drop_host_prefix drop_prefix split_all
      video_id_match
  parse_video_id_break input s parsed has parses lowered host path query h = (
    rw (given (strip input) has, has, parses, host, lowered, path, query, match-break 11 s h),
    not-break 11 s h,
  )
    where
      given : (raw : String) → contains "://" raw ≡ true → is_empty raw ≡ false
      given String.[] k = cc
      given (String.◌∷◌ c t) k = refl
