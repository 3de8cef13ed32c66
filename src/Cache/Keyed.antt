-- ===== src/Cache/Keyed.antt =====
-- The primary key of `transcripts`: at most one row to a video and language, through every statement of
-- src/app/cache.py.
use text.Mathlib.TextEquality.{eq_iff}
use yt_service.Prelude.{
  String, Bool, true, Bool-cases, Option, none, some, Option-cases, List, [], ◌∷◌, ◌≡◌, refl, sym,
  inl, inr, arith, ◌&&◌, find, update, select, find-and-none, if◌then◌else◌,
}
use yt_service.World.{Transcript}
use yt_service.Cache.{is_row, merge_row, upsert}

module _ {N : Type 0} where
  -- No later row has the key of an earlier one.
  abbrev pub IsKeyed : List (Transcript N) → Type 0
  IsKeyed [] = Unit
  IsKeyed (t ∷ ts) = (find (is_row t.video_id t.language) ts ≡ none) × IsKeyed ts

  abbrev pub SameKey : Transcript N → Transcript N → Type 0
  SameKey t u = (t.video_id ≡ u.video_id) × (t.language ≡ u.language)

  pub is_row-same : (v l : String) (t u : Transcript N) → SameKey t u → is_row v l t ≡ is_row v l u
  is_row-same v l t u same = rw (same.0, same.1) refl

  pub row_key :
      (v l : String) (t : Transcript N) → is_row v l t ≡ true → (t.video_id ≡ v) × (t.language ≡ l)
  row_key v l t h = (ground (arith, h, eq_iff t.video_id v), ground (arith, h, eq_iff t.language l))

  -- The row that is there, if it passes the test.
  abbrev pub kept_if : (Transcript N → Bool) → Option (Transcript N) → Option (Transcript N)
  kept_if q none = none
  kept_if q (some t) = if q t then some t else none

  -- A query of a key with a further clause tests the one row of that key.
  pub find-kept_if :
      (v l : String) (q : Transcript N → Bool) (ts : List (Transcript N))
      → IsKeyed ts
      → find (λ t. is_row v l t && q t) ts ≡ kept_if q (find (is_row v l) ts)
  find-kept_if v l q [] keyed = refl
  find-kept_if v l q (t ∷ ts) keyed = elim (Bool-cases (is_row v l t)) [
    | inr e ↦ rw e (find-kept_if v l q ts keyed.1)
    | inl e ↦
        let key = row_key v l t e in
        let rest : find (is_row v l) ts ≡ none = rw (← key.0, ← key.1) keyed.0 in
        elim (Bool-cases (q t)) [
          | inl c ↦ rw (e, c) refl
          | inr c ↦ rw (e, c) (find-and-none (is_row v l) q ts rest)
        ]
  ]

  -- An update of the rows of a key, that leaves their keys, keeps the key unique.
  module _ (p : Transcript N → Bool) (g : Transcript N → Transcript N)
      (same : (t : Transcript N) → p t ≡ true → SameKey (g t) t) where
    updated-same : (t : Transcript N) → SameKey (if p t then g t else t) t
    updated-same t = elim (Bool-cases (p t)) [ inl e ↦ rw e (same t e) | inr e ↦ rw e (refl, refl) ]

    pub find-update-none :
        (v l : String) (ts : List (Transcript N))
        → find (is_row v l) ts ≡ none
        → find (is_row v l) (update p g ts) ≡ none
    find-update-none v l [] h = refl
    find-update-none v l (t ∷ ts) h = elim (Bool-cases (is_row v l t)) [
      | inl e ↦ absurd (some-ne_none (rw e at h))
      | inr e ↦
          rw (is_row-same v l (if p t then g t else t) t (updated-same t), e)
            (find-update-none v l ts (rw e at h))
    ]
      where
        some-ne_none : {u : Transcript N} → some u ≡ none → ⊥
        some-ne_none k = cc

    pub update-IsKeyed : (ts : List (Transcript N)) → IsKeyed ts → IsKeyed (update p g ts)
    update-IsKeyed [] keyed = tt
    update-IsKeyed (t ∷ ts) keyed =
        let key = updated-same t in
        (
          rw (key.0, key.1) (find-update-none t.video_id t.language ts keyed.0),
          update-IsKeyed ts keyed.1,
        )

  select_keeps_none :
      (p q : Transcript N → Bool) (ts : List (Transcript N))
      → find q ts ≡ none
      → find q (select p ts) ≡ none
  select_keeps_none p q [] h = refl
  select_keeps_none p q (t ∷ ts) h = ground (arith, select_keeps_none p q ts)

  pub select-IsKeyed :
      (p : Transcript N → Bool) (ts : List (Transcript N)) → IsKeyed ts → IsKeyed (select p ts)
  select-IsKeyed p [] keyed = tt
  select-IsKeyed p (t ∷ ts) keyed = elim (Bool-cases (p t)) [
    | inl e ↦
        rw e (
          select_keeps_none p (is_row t.video_id t.language) ts keyed.0,
          select-IsKeyed p ts keyed.1,
        )
    | inr e ↦ rw e (select-IsKeyed p ts keyed.1)
  ]

  pub upsert-IsKeyed :
      (row : Transcript N) (ts : List (Transcript N))
      → IsKeyed ts
      → IsKeyed (upsert (find (is_row row.video_id row.language) ts) row ts)
  upsert-IsKeyed row ts keyed = elim (Option-cases (find (is_row row.video_id row.language) ts)) [
    | inl e ↦ rw e (e, keyed)
    | inr (t, e) ↦ rw e (
        update-IsKeyed (is_row row.video_id row.language) (merge_row row)
          (λ u h. let key = row_key row.video_id row.language u h in (sym key.0, sym key.1)) ts
          keyed)
  ]
