-- ===== src/Middleware/Keys.antt =====
-- The keys of src/app/middleware.py tell categories and principals apart.
use text.Mathlib.TextLemmas.{cons-append, nil-append}
use yt_service.Prelude.{
  String, Bool, true, Bool-cases, not, ◌&&◌, Option, some, ◌≡◌, refl, sym, ap, ◌∙◌, inl, inr, arith,
  str_cat, str_eq, split_once, cat_cancel,
}
use yt_service.Middleware.{rate_limit_key}

-- The text has no colon, as every category of the routes.
abbrev pub is_plain : String → Bool
is_plain String.[] = true
is_plain (String.◌∷◌ c s) = not (str_eq (String.◌∷◌ c String.[]) ":") && is_plain s

split-colon : (p : String) → split_once ":" (str_cat ":" p) ≡ some ("", p)
unfolding split_once
split-colon p = rw (cons-append ":" "" p, nil-append p) refl

-- A plain text is what stands before the first colon.
split-plain :
    (s p : String) → is_plain s ≡ true → split_once ":" (str_cat s (str_cat ":" p)) ≡ some (s, p)
unfolding split_once
split-plain String.[] p h = rw (nil-append (str_cat ":" p)) (split-colon p)
split-plain (String.◌∷◌ c s) p h = elim (Bool-cases (str_eq (String.◌∷◌ c String.[]) ":")) [
  | inl e ↦ ground (arith, e, h)
  | inr e ↦ rw (cons-append c s (str_cat ":" p), e, split-plain s p (ground (arith, e, h))) refl
]

pair_eq :
    {a b c d : String}
    → ◌≡◌ {A = Option (String × String)} (some (a, b)) (some (c, d))
    → (a ≡ c) × (b ≡ d)
pair_eq h = (ap first h, ap second h)
  where
    first : Option (String × String) → String
    first (some (a, b)) = a
    first _ = ""

    second : Option (String × String) → String
    second (some (a, b)) = b
    second _ = ""

-- Two plain categories with their principals share a key only if they are the same.
pub rate_limit_key-injective :
    (category other principal stranger : String)
    → is_plain category ≡ true
    → is_plain other ≡ true
    → rate_limit_key category principal ≡ rate_limit_key other stranger
    → (category ≡ other) × (principal ≡ stranger)
unfolding rate_limit_key
rate_limit_key-injective category other principal stranger plain plain' h = pair_eq (
    sym (split-plain category principal plain)
    ∙ ap (split_once ":") (cat_cancel "rl:" _ _ h)
    ∙ split-plain other stranger plain')
