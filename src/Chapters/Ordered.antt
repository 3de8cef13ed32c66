-- ===== src/Chapters/Ordered.antt =====
-- The chapters that src/app/chapters.py accepts of an LLM.
use mathlib.Core.Path.{subst}
use yt_service.Prelude.{
  suc, ◌≤◌, ◌≡◌, String, true, false, Bool-cases, Option, none, some, List, [], ◌∷◌, ◌||◌, inl, inr,
  arith, Outcome, ok, raise, All, All-map, Float, length, length-take-le, take, take_chars-ne_empty,
  is_empty,
}
use yt_service.Errors.{Error}
use yt_service.Domain.{Chapter}
use yt_service.Domain.Json.{Json, ReadError, arr, obj, items, get}
use yt_service.Chapters.Parsing.{
  max_chapters, clean, checked, check_fields, read_fields, read_entry, keep_some, read_entries,
  monotonic, of_raw, of_payload, parse_llm_chapters,
}

module _ (f : Float) where
  -- Every chapter starts before all that follow it.
  abbrev pub IsIncreasing : List (Chapter f.Num) → Type 0
  IsIncreasing [] = Unit
  IsIncreasing (c ∷ cs) = All (λ d. f.lt c.start d.start ≡ true) cs × IsIncreasing cs

  -- A chapter has a title and does not start before zero.
  abbrev pub IsTitled : Chapter f.Num → Type 0
  IsTitled c = (is_empty c.title ≡ false) × (f.lt c.start (f.lit 0) ≡ false)

  pub record IsOrderly (cs : List (Chapter f.Num)) : Type 0 where
    pub few : length cs ≤ max_chapters
    pub increasing : IsIncreasing cs
    pub titled : All IsTitled cs

  abbrev After : f.Num → List (Chapter f.Num) → Type 0
  After last cs = All (λ d. f.lt last d.start ≡ true) cs

  monotonic-IsIncreasing :
      (last : f.Num) (cs : List (Chapter f.Num))
      → After last (monotonic f last cs) × IsIncreasing (monotonic f last cs)
  unfolding monotonic
  monotonic-IsIncreasing last [] = (tt, tt)
  monotonic-IsIncreasing last (c ∷ cs) = elim (Bool-cases (f.lt last c.start)) [
    | inl e ↦
        let rest = monotonic-IsIncreasing c.start cs in
        rw (e, monotonic)
          (
            (
              e,
              All-map (monotonic f c.start cs) (λ d h. f.lt_trans last c.start d.start e h) rest.0,
            ),
            rest,
          )
    | inr e ↦ rw (e, monotonic) (monotonic-IsIncreasing last cs)
  ]

  length-monotonic_le :
      (last : f.Num) (cs : List (Chapter f.Num)) → length (monotonic f last cs) ≤ length cs
  unfolding monotonic
  length-monotonic_le last [] = omega arith
  length-monotonic_le last (c ∷ cs) = elim (Bool-cases (f.lt last c.start)) [
    | inl e ↦ rw (e, monotonic) (omega (arith, length-monotonic_le c.start cs))
    | inr e ↦ rw (e, monotonic) (omega (arith, length-monotonic_le last cs))
  ]

  monotonic-All :
      (P : Chapter f.Num → Type 0) (last : f.Num) (cs : List (Chapter f.Num))
      → All P cs
      → All P (monotonic f last cs)
  unfolding monotonic
  monotonic-All P last [] h = tt
  monotonic-All P last (c ∷ cs) h = elim (Bool-cases (f.lt last c.start)) [
    | inl e ↦ rw (e, monotonic) (h.0, monotonic-All P c.start cs h.1)
    | inr e ↦ rw (e, monotonic) (monotonic-All P last cs h.1)
  ]

  -- What holds of an optional chapter.
  abbrev Titled : Option (Chapter f.Num) → Type 0
  Titled none = Unit
  Titled (some c) = IsTitled c

  module _ (show : Json f.Num → String) (duration : f.Num) where
    checked-Titled :
        (start finish : f.Num) (title : String) → Titled (checked f duration start finish title)
    checked-Titled start finish title = elim (Bool-cases (is_empty title)) [
      | inl e ↦ rw e tt
      | inr e ↦ elim (Bool-cases (f.lt start (f.lit 0) || f.le finish start)) [
        | inl g ↦ rw (e, g) tt
        | inr g ↦ rw (e, g) (take_chars-ne_empty 199 title e, ground (arith, g))
      ]
    ]

    read_entry-Titled : (entry : Json f.Num) → Titled (read_entry f show duration entry)
    unfolding read_entry
    read_entry-Titled entry = fields-Titled (read_fields f show entry)
      where
        fields-Titled :
            (o : Outcome ReadError ((f.Num × f.Num) × String)) → Titled (check_fields f duration o)
        fields-Titled (raise e) = tt
        fields-Titled (ok ((start, finish), title)) = checked-Titled start finish title

    keep_some-IsTitled :
        (o : Option (Chapter f.Num)) (cs : List (Chapter f.Num))
        → Titled o
        → All IsTitled cs
        → All IsTitled (keep_some f o cs)
    keep_some-IsTitled none cs t h = h
    keep_some-IsTitled (some c) cs t h = (t, h)

    length-keep_some_le :
        (o : Option (Chapter f.Num)) (cs : List (Chapter f.Num))
        → length (keep_some f o cs) ≤ suc (length cs)
    length-keep_some_le none cs = omega arith
    length-keep_some_le (some c) cs = omega arith

    read_entries-IsTitled :
        (es : List (Json f.Num)) → All IsTitled (read_entries f show duration es)
    unfolding read_entries
    read_entries-IsTitled [] = tt
    read_entries-IsTitled (e ∷ es) =
        keep_some-IsTitled (read_entry f show duration e) _ (read_entry-Titled e)
          (read_entries-IsTitled es)

    length-read_entries_le :
        (es : List (Json f.Num)) → length (read_entries f show duration es) ≤ length es
    unfolding read_entries
    length-read_entries_le [] = omega arith
    length-read_entries_le (e ∷ es) = omega (
      arith,
      length-keep_some_le (read_entry f show duration e) (read_entries f show duration es),
      length-read_entries_le es,
    )

    nil-IsOrderly : IsOrderly []
    nil-IsOrderly = record { few = omega arith; increasing = tt; titled = tt }

    of_raw-IsOrderly : (o : Option (Json f.Num)) → IsOrderly (of_raw f show duration o)
    of_raw-IsOrderly (some (arr xs)) =
        let es = take max_chapters (items xs) in
        let cs = read_entries f show duration es in
        record {
          few = omega (
            arith,
            length-monotonic_le (f.neg (f.lit 100)) cs,
            length-read_entries_le es,
            length-take-le max_chapters (items xs),
          );
          increasing = (monotonic-IsIncreasing (f.neg (f.lit 100)) cs).1;
          titled = monotonic-All IsTitled (f.neg (f.lit 100)) cs (read_entries-IsTitled es);
        }
    of_raw-IsOrderly _ = nil-IsOrderly

    ok_eq :
        {a b : List (Chapter f.Num)}
        → ◌≡◌ {A = Outcome Error (List (Chapter f.Num))} (ok a) (ok b)
        → a ≡ b
    ok_eq h = cc

    raise-ne_ok :
        (e : Error) (a : List (Chapter f.Num))
        → ◌≡◌ {A = Outcome Error (List (Chapter f.Num))} (raise e) (ok a)
        → ⊥
    raise-ne_ok e a h = cc

    -- What the program accepts of an LLM's answer, however it is broken: at most 32 chapters, in
    -- strictly increasing order of their starts, each with a title and no start before zero.
    pub parse_llm_chapters-IsOrderly :
        (loads : String → Option (Json f.Num)) (text : String) (cs : List (Chapter f.Num))
        → parse_llm_chapters f loads show text duration ≡ ok cs
        → IsOrderly cs
    unfolding parse_llm_chapters
    parse_llm_chapters-IsOrderly loads text cs h = accepted (loads (clean text)) h
      where
        accepted : (o : Option (Json f.Num)) → of_payload f show duration o ≡ ok cs → IsOrderly cs
        accepted none e = subst IsOrderly (ok_eq e) nil-IsOrderly
        accepted (some (obj d)) e = subst IsOrderly (ok_eq e) (of_raw-IsOrderly (get "chapters" d))
        accepted (some _) e = absurd (raise-ne_ok _ cs e)
