-- ===== src/Cache/Frame.antt =====
-- What the writes of src/app/cache.py leave alone, and what they remove.
use text.Mathlib.Text.{◌==◌}
use text.Mathlib.TextEquality.{eq_iff}
use yt_service.Prelude.{
  ℕ, ◌<◌, String, Bool, true, false, Bool-cases, Option, none, some, Option-cases, List, ◌≡◌, ◌≢◌,
  ◌⊎◌, ◌∙◌, ap, refl, inl, inr, arith, not, ◌&&◌, ok, Float, find, find-update_other, find-select,
  find-select-none, find_sound, if◌then◌else◌,
}
use yt_service.Domain.{Snippet, Chapter, TranscriptRecord}
use yt_service.World.{World, Transcript}
use yt_service.Cache.{
  is_row, is_live, new_row, merge_row, upsert, put_transcript, put_chapters, put_diarization,
  purge_transcript, respond, get_transcript,
}

-- Two keys of the table differ.
abbrev pub OtherKey : String → String → String → String → Type 0
OtherKey v l v' l' = (v ≢ v') ⊎ (l ≢ l')

other_row :
    {N : Type 0} (v l v' l' : String) (t : Transcript N)
    → OtherKey v l v' l'
    → is_row v l t ≡ true
    → is_row v' l' t ≡ false
other_row v l v' l' t k h = ground (
  arith,
  eq_iff t.video_id v,
  eq_iff t.video_id v',
  eq_iff t.language l,
  eq_iff t.language l',
  eq_iff v v',
  eq_iff l l',
)

own_row : {N : Type 0} (row : Transcript N) → is_row row.video_id row.language row ≡ true
own_row row = ground (arith, eq_iff row.video_id row.video_id, eq_iff row.language row.language)

module _ (f : Float) {Db : Type 0} (now : ℕ) (v' l' : String) (w : World f.Num Db) where
  abbrev live_row : Transcript f.Num → Bool
  live_row t = is_row v' l' t && is_live now t

  other_live :
      (v l : String) (t : Transcript f.Num)
      → OtherKey v l v' l'
      → is_row v l t ≡ true
      → live_row t ≡ false
  other_live v l t k h = ground (arith, other_row v l v' l' t k h)

  find-upsert_other :
      (o : Option (Transcript f.Num)) (row : Transcript f.Num) (ts : List (Transcript f.Num))
      → OtherKey row.video_id row.language v' l'
      → find live_row (upsert o row ts) ≡ find live_row ts
  find-upsert_other none row ts k = rw (other_live row.video_id row.language row k (own_row row))
  find-upsert_other (some t) row ts k =
      find-update_other (is_row row.video_id row.language) live_row (merge_row row) ts
        (λ u e. other_live row.video_id row.language u k e)
        (λ u e. other_live row.video_id row.language (merge_row row u) k (own_row row))

  -- An answer depends on the row alone.
  result-respond :
      (o : Option (Transcript f.Num)) (w₁ w₂ : World f.Num Db)
      → (respond f o w₁).0 ≡ (respond f o w₂).0
  unfolding respond
  result-respond none w₁ w₂ = refl
  result-respond (some t) w₁ w₂ = refl

  pub same_answer :
      (w₁ w₂ : World f.Num Db)
      → find live_row w₁.transcripts ≡ find live_row w₂.transcripts
      → (get_transcript f now v' l' w₁).0 ≡ (get_transcript f now v' l' w₂).0
  unfolding get_transcript
  same_answer w₁ w₂ h =
      result-respond (find live_row w₁.transcripts) w₁ w₂ ∙ ap (λ o. (respond f o w₂).0) h

  -- A put of another key changes no answer.
  pub get-put_transcript_other :
      (at days : ℕ) (rec : TranscriptRecord f.Num) (ttl : Option ℕ)
      → OtherKey rec.video_id rec.language v' l'
      → (get_transcript f now v' l' (put_transcript at days rec ttl w)).0
        ≡ (get_transcript f now v' l' w).0
  unfolding put_transcript new_row
  get-put_transcript_other at days rec ttl k = same_answer (put_transcript at days rec ttl w) w (
      find-upsert_other (find (is_row rec.video_id rec.language) w.transcripts)
        (new_row at (elim ttl [ none ↦ days | some d ↦ d ]) rec) w.transcripts k)

  -- Nor does an update of the speakers of another key.
  get-put_diarization_other :
      (v l : String) (snippets : List (Snippet f.Num)) (done : Bool)
      → OtherKey v l v' l'
      → (get_transcript f now v' l' (put_diarization v l snippets done w).1).0
        ≡ (get_transcript f now v' l' w).0
  unfolding put_diarization
  get-put_diarization_other v l snippets done k =
      same_answer (put_diarization v l snippets done w).1 w (
        find-update_other (is_row v l) live_row _ w.transcripts (λ u e. other_live v l u k e)
          (λ u e. other_live v l u k e))

  -- Nor an update of its chapters.
  get-put_chapters_other :
      (v l : String) (chapters : Option (List (Chapter f.Num)))
      → OtherKey v l v' l'
      → (get_transcript f now v' l' (put_chapters v l chapters w)).0
        ≡ (get_transcript f now v' l' w).0
  unfolding put_chapters
  get-put_chapters_other v l chapters k = same_answer (put_chapters v l chapters w) w (
      find-update_other (is_row v l) live_row _ w.transcripts (λ u e. other_live v l u k e)
        (λ u e. other_live v l u k e))

  -- A purge drops the video in every language, and no other video.
  pub get-purge_transcript :
      (v : String)
      → (get_transcript f now v' l' (purge_transcript v w).1).0
        ≡ (if v == v' then ok none else (get_transcript f now v' l' w).0)
  unfolding get_transcript purge_transcript
  get-purge_transcript v = elim (Bool-cases (v == v')) [
    | inl e ↦ rw e (
        ap (λ o. (respond f o (purge_transcript v w).1).0)
          (find-select-none (λ t. not (t.video_id == v)) live_row w.transcripts
            (λ t h. ground (arith, eq_iff t.video_id v, eq_iff t.video_id v', eq_iff v v'))))
    | inr e ↦ rw e (
        same_answer (purge_transcript v w).1 w (
          find-select (λ t. not (t.video_id == v)) live_row w.transcripts
            (λ t h. ground (arith, eq_iff t.video_id v, eq_iff t.video_id v', eq_iff v v'))))
  ]

  -- What is returned was there, under its key, and has not expired.
  pub get_transcript-live :
      (rec : TranscriptRecord f.Num)
      → (get_transcript f now v' l' w).0 ≡ ok (some rec)
      → (t : Transcript f.Num) × (find live_row w.transcripts ≡ some t)
        × (t.video_id ≡ v')
        × (t.language ≡ l')
        × (now < t.expires_at)
  unfolding get_transcript
  get_transcript-live rec h = elim (Option-cases (find live_row w.transcripts)) [
    | inl e ↦ absurd (miss (rw e at h))
    | inr (t, e) ↦
        let live = find_sound live_row w.transcripts t e in
        (
          t,
          e,
          ground (arith, live, eq_iff t.video_id v'),
          ground (arith, live, eq_iff t.language l'),
          ground (arith, live),
        )
  ]
    where
      miss : (respond f none w).0 ≡ ok (some rec) → ⊥
      miss e = cc
