-- ===== src/Domain/Json.antt =====
-- JSON values as `json.loads` returns them, and the reads that the program makes of a dictionary.
use text.Mathlib.Text.{◌==◌}
use yt_service.Prelude.{
  String, Bool, true, false, Option, none, some, List, [], ◌∷◌, Outcome, ok, raise, Float,
  if◌then◌else◌,
}

mutual
  pub data Json (N : Type 0) : Type 0 where
    null : Json N
    bool : Bool → Json N
    num : N → Json N
    str : String → Json N
    arr : Items N → Json N
    obj : Dict N → Json N

  pub data Items (N : Type 0) : Type 0 where
    nil : Items N
    cons : Json N → Items N → Items N

  pub data Dict (N : Type 0) : Type 0 where
    end : Dict N
    field : String → Json N → Dict N → Dict N

-- What a read of a value raises; the names are Python's.
pub data ReadError : Type 0 where
  key_error type_error value_error : ReadError

module _ {N : Type 0} where
  -- `raw.get(key)`, without a default
  abbrev pub get : String → Dict N → Option (Json N)
  get key end = none
  get key (field k v rest) = if k == key then some v else get key rest

  -- `raw[key]`
  abbrev pub item : String → Dict N → Outcome ReadError (Json N)
  item key d = elim (get key d) [ none ↦ raise key_error | some v ↦ ok v ]

  abbrev pub items : Items N → List (Json N)
  items nil = []
  items (cons x xs) = x ∷ items xs

-- `float(value)`
abbrev pub to_float : (f : Float) → Json f.Num → Outcome ReadError f.Num
to_float f null = raise type_error
to_float f (bool true) = ok (f.lit 100)
to_float f (bool false) = ok (f.lit 0)
to_float f (num x) = ok x
to_float f (str s) = elim (f.parse s) [ none ↦ raise value_error | some x ↦ ok x ]
to_float f (arr xs) = raise type_error
to_float f (obj d) = raise type_error

-- A field that must hold a text.
abbrev pub to_text : {N : Type 0} → Json N → Outcome ReadError String
to_text (str s) = ok s
to_text _ = raise type_error
