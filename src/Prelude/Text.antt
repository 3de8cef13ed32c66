-- ===== src/Prelude/Text.antt =====
-- Python's operations on `str` that the program uses, over native strings.
use Prim.Native.Nat.{ℕ, zero, suc}
use Prim.Native.Char.{Char, code}
use Prim.Native.String.{String}
use Prim.Native.String
use mathlib.Core.Path.{◌≡◌, refl, sym, ap, ◌∙◌}
use mathlib.Core.Logic.{inl, inr}
use mathlib.Core.Bool.{Bool, true, false, ◌&&◌, ◌||◌}
use mathlib.Core.Option.{Option, none, some}
use mathlib.Core.List.{List, [], ◌∷◌}
use native.Mathlib.Omega.{arith}
use text.Mathlib.Text.{◌==◌ as str_eq}
use text.Mathlib.TextEquality.{eq_iff}
use text.Mathlib.TextLemmas.{append_cancel_left, cons-append, nil-append}
use yt_service.Prelude.Tests.{leb, Bool-cases, Option-cases, ◌==◌, if◌then◌else◌}

-- `s + t`
abbrev pub str_cat : String → String → String
str_cat = String.◌++◌

-- `str.isspace` of one character.
abbrev pub is_space : Char → Bool
is_space ch =
    let c = code ch in
    (leb 9 c && leb c 13)
    || (leb 28 c && leb c 32)
    || c == 133
    || c == 160
    || c == 5760
    || (leb 8192 c && leb c 8202)
    || c == 8232
    || c == 8233
    || c == 8239
    || c == 8287
    || c == 12288

abbrev pub is_empty : String → Bool
is_empty String.[] = true
is_empty (String.◌∷◌ c s) = false

-- `s or t` on strings: the empty string is false.
abbrev pub or_else : String → String → String
or_else s t = if is_empty s then t else s

unfoldable pub lstrip : String → String
lstrip String.[] = String.[]
lstrip (String.◌∷◌ c s) = let rest = lstrip s in if is_space c then rest else String.◌∷◌ c s

-- A blank is dropped only if all that follows is dropped.
unfoldable pub rstrip : String → String
rstrip String.[] = String.[]
rstrip (String.◌∷◌ c s) =
    let rest = rstrip s in if is_space c && is_empty rest then String.[] else String.◌∷◌ c rest

unfoldable pub strip : String → String
unfolding lstrip rstrip
strip s = rstrip (lstrip s)

-- `s[len(prefix):]` if `s.startswith(prefix)`
unfoldable pub drop_prefix : String → String → Option String
drop_prefix String.[] s = some s
drop_prefix (String.◌∷◌ c cs) String.[] = none
drop_prefix (String.◌∷◌ c cs) (String.◌∷◌ d s) =
    let rest = drop_prefix cs s in
    if str_eq (String.◌∷◌ c String.[]) (String.◌∷◌ d String.[]) then rest else none

abbrev cons_some : Char → Option String → Option String
cons_some c none = none
cons_some c (some s) = some (String.◌∷◌ c s)

-- `s[:-len(suffix)]` if `s.endswith(suffix)`, of a suffix that is not empty
unfoldable pub drop_suffix : String → String → Option String
drop_suffix suffix String.[] = none
drop_suffix suffix (String.◌∷◌ c s) =
    let rest = drop_suffix suffix s in
    if str_eq (String.◌∷◌ c s) suffix then some String.[] else cons_some c rest

-- `s[:n]`
unfoldable pub take_chars : ℕ → String → String
take_chars zero s = String.[]
take_chars (suc n) String.[] = String.[]
take_chars (suc n) (String.◌∷◌ c s) = String.◌∷◌ c (take_chars n s)

abbrev cons_left : Char → Option (String × String) → Option (String × String)
cons_left c none = none
cons_left c (some (a, b)) = some (String.◌∷◌ c a, b)

-- `s.split(sep, 1)` at a separator of one character: none if the text has it not
unfoldable pub split_once : String → String → Option (String × String)
split_once sep String.[] = none
split_once sep (String.◌∷◌ c s) =
    let rest = split_once sep s in
    if str_eq (String.◌∷◌ c String.[]) sep then some (String.[], s) else cons_left c rest

abbrev cons_head : Char → List String → List String
cons_head c [] = (String.◌∷◌ c String.[]) ∷ []
cons_head c (part ∷ parts) = (String.◌∷◌ c part) ∷ parts

-- `s.split(sep)` at a separator of one character
unfoldable pub split_all : String → String → List String
split_all sep String.[] = String.[] ∷ []
split_all sep (String.◌∷◌ c s) =
    let rest = split_all sep s in
    if str_eq (String.◌∷◌ c String.[]) sep then String.[] ∷ rest else cons_head c rest

abbrev left_part : Option (String × String) → String
left_part none = String.[]
left_part (some (a, b)) = a

abbrev right_part : Option (String × String) → String
right_part none = String.[]
right_part (some (a, b)) = b

none-ne_some : (p : String × String) → ◌≡◌ {A = Option (String × String)} none (some p) → ⊥
none-ne_some p e = cc

-- The parts and the separator make up the text.
pub split_once_sound :
    (sep s a b : String) → split_once sep s ≡ some (a, b) → s ≡ str_cat a (str_cat sep b)
unfolding split_once
split_once_sound sep String.[] a b h = absurd (none-ne_some (a, b) h)
split_once_sound sep (String.◌∷◌ c s) a b h =
    elim (Bool-cases (str_eq (String.◌∷◌ c String.[]) sep)) [
      | inl e ↦
          let parts = rw e at h in
          rw
            (
              ← ap left_part parts,
              ← ap right_part parts,
              ← (eq_iff (String.◌∷◌ c String.[]) sep).0 e,
            )
            (sym (nil-append _ ∙ cons-append c String.[] s ∙ ap (String.◌∷◌ c) (nil-append s)))
      | inr e ↦ elim (Option-cases (split_once sep s)) [
        | inl n ↦ absurd (none-ne_some (a, b) (rw (e, n) at h))
        | inr ((x, y), n) ↦
            let parts = rw (e, n) at h in
            rw (← ap left_part parts, ← ap right_part parts, cons-append c x (str_cat sep y))
              (ap (String.◌∷◌ c) (split_once_sound sep s x y n))
      ]
    ]

pub take_chars-ne_empty :
    (n : ℕ) (s : String) → is_empty s ≡ false → is_empty (take_chars (suc n) s) ≡ false
unfolding take_chars
take_chars-ne_empty n String.[] h = h
take_chars-ne_empty n (String.◌∷◌ c s) h = refl

pub or_else-ne_empty : (s t : String) → is_empty s ≡ false → or_else s t ≡ s
or_else-ne_empty s t h = ground arith

pub cat_cancel : (s t u : String) → str_cat s t ≡ str_cat s u → t ≡ u
cat_cancel s t u h = append_cancel_left s t u h

strip_test : strip "  a b\n" ≡ "a b"
unfolding strip
strip_test = refl
