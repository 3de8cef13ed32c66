-- ===== src/Diarization/Best.antt =====
-- The speaker that src/app/diarization.py gives a snippet has the longest overlap.
use yt_service.Prelude.{
  String, true, false, Bool-cases, Option, none, some, List, [], ◌∷◌, ◌≡◌, ◌⊎◌, refl, sym, inl, inr,
  ◌∙◌, All, Any, here, there, Float,
}
use yt_service.Domain.{Snippet}
use yt_service.Diarization.{Turn, overlap, scan}

module _ (f : Float) (s : Snippet f.Num) where
  -- No turn overlaps the snippet longer.
  pub record IsLongest (best : f.Num) (ts : List (Turn f.Num)) : Type 0 where
    pub turns : All (λ t. f.lt best (overlap f s t) ≡ false) ts

  -- The label is that of one of the turns, with that overlap, or the one of before.
  abbrev pub IsLabel : Option String → f.Num → Option String × f.Num → List (Turn f.Num) → Type 0
  IsLabel label best out ts =
      (out ≡ (label, best)) ⊎ Any (λ t. out ≡ (some t.label, overlap f s t)) ts

  -- A longer best is no shorter than what the shorter was no shorter than.
  longer_than : (a b c : f.Num) → f.lt a b ≡ true → f.lt a c ≡ false → f.lt b c ≡ false
  longer_than a b c h k = elim (Bool-cases (f.lt b c)) [
    | inl e ↦ absurd (false-ne_true (sym k ∙ f.lt_trans a b c h e))
    | inr e ↦ e
  ]
    where
      false-ne_true : false ≡ true → ⊥
      false-ne_true e = cc

  -- The final overlap is no shorter than the one that the loop starts from.
  scan-start :
      (label : Option String) (best : f.Num) (ts : List (Turn f.Num)) (a : f.Num)
      → f.lt best a ≡ false
      → f.lt (scan f s label best ts).1 a ≡ false
  unfolding scan
  scan-start label best [] a h = h
  scan-start label best (t ∷ ts) a h = elim (Bool-cases (f.lt best (overlap f s t))) [
    | inl e ↦
        rw (e, scan)
          (scan-start (some t.label) (overlap f s t) ts a (longer_than best (overlap f s t) a e h))
    | inr e ↦ rw (e, scan) (scan-start label best ts a h)
  ]

  scan-IsLongest :
      (label : Option String) (best : f.Num) (ts : List (Turn f.Num))
      → IsLongest (scan f s label best ts).1 ts
  unfolding scan
  scan-IsLongest label best [] = record { turns = tt }
  scan-IsLongest label best (t ∷ ts) = elim (Bool-cases (f.lt best (overlap f s t))) [
    | inl e ↦
        rw (e, scan)
          (record {
            turns = (
              scan-start (some t.label) (overlap f s t) ts (overlap f s t)
                  (f.lt_irrefl (overlap f s t)),
              (scan-IsLongest (some t.label) (overlap f s t) ts).turns,
            );
          })
    | inr e ↦
        rw (e, scan)
          (record {
            turns =
                (scan-start label best ts (overlap f s t) e, (scan-IsLongest label best ts).turns);
          })
  ]

  scan-IsLabel :
      (label : Option String) (best : f.Num) (ts : List (Turn f.Num))
      → IsLabel label best (scan f s label best ts) ts
  unfolding scan
  scan-IsLabel label best [] = inl refl
  scan-IsLabel label best (t ∷ ts) = elim (Bool-cases (f.lt best (overlap f s t))) [
    | inl e ↦ rw (e, scan) (taken (scan-IsLabel (some t.label) (overlap f s t) ts))
    | inr e ↦ rw (e, scan) (left (scan-IsLabel label best ts))
  ]
    where
      taken :
          {out : Option String × f.Num}
          → IsLabel (some t.label) (overlap f s t) out ts
          → IsLabel label best out (t ∷ ts)
      taken (inl h) = inr (here h)
      taken (inr h) = inr (there h)

      left :
          {out : Option String × f.Num}
          → IsLabel label best out ts
          → IsLabel label best out (t ∷ ts)
      left (inl h) = inl h
      left (inr h) = inr (there h)

  -- Of the turns, the loop settles on one that no other overlaps the snippet longer than, with its
  -- label, or on no label, when no turn overlaps the snippet at all.
  pub scan_best :
      (ts : List (Turn f.Num))
      → IsLongest (scan f s none (f.lit 0) ts).1 ts
        × IsLabel none (f.lit 0) (scan f s none (f.lit 0) ts) ts
  scan_best ts = (scan-IsLongest none (f.lit 0) ts, scan-IsLabel none (f.lit 0) ts)
