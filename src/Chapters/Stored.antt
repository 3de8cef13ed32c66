-- ===== src/Chapters/Stored.antt =====
-- The chapters that src/app/chapters.py computes are stored with the transcript.
use yt_service.Prelude.{
  String, none, some, List, ◌≡◌, ap, ◌∙◌, Outcome, ok, raise, Float, find, find-update_self,
}
use yt_service.Errors.{Error}
use yt_service.Domain.{Chapter, TranscriptRecord}
use yt_service.World.{World, Transcript}
use yt_service.Cache.{is_row, chapters_payload, put_chapters}
use yt_service.Cache.RoundTrip.{stored_chapters, read_chapters-payload}
use yt_service.Chapters.{
  ChapterEnv, fetch_yt_chapters, published_or_derived, persist, compute, get_or_compute_chapters,
}

module _ (f : Float) (env : ChapterEnv f.Num) {Db : Type 0} (w : World f.Num Db) where
  stored-put_chapters :
      (v l : String) (cs : List (Chapter f.Num)) (t : Transcript f.Num)
      → find (is_row v l) w.transcripts ≡ some t
      → stored_chapters f (put_chapters v l (some cs) w) v l ≡ ok (some cs)
  unfolding stored_chapters put_chapters
  stored-put_chapters v l cs t h =
      rw
        (find-update_self (is_row v l)
          (λ u. record u { chapters_jsonb = chapters_payload (some cs) }) w.transcripts t (λ u e. e)
          h)
        (read_chapters-payload f (some cs))

  stored-persist :
      (rec : TranscriptRecord f.Num) (o : Outcome Error (List (Chapter f.Num)))
      (cs : List (Chapter f.Num)) (t : Transcript f.Num)
      → find (is_row rec.video_id rec.language) w.transcripts ≡ some t
      → (persist f env rec o w).0 ≡ ok cs
      → stored_chapters f (persist f env rec o w).1 rec.video_id rec.language ≡ ok (some cs)
  stored-persist rec (raise exc) cs t row h = absurd (raise-ne_ok exc cs h)
    where
      raise-ne_ok :
          (e : Error) (a : List (Chapter f.Num))
          → ◌≡◌ {A = Outcome Error (List (Chapter f.Num))} (raise e) (ok a)
          → ⊥
      raise-ne_ok e a g = cc
  stored-persist rec (ok ds) cs t row h =
      stored-put_chapters rec.video_id rec.language ds t row ∙ ap (λ a. ok (some a)) (ok_eq h)
    where
      ok_eq :
          {a b : List (Chapter f.Num)}
          → ◌≡◌ {A = Outcome Error (List (Chapter f.Num))} (ok a) (ok b)
          → a ≡ b
      ok_eq g = cc

  pub computed :
      (rec : TranscriptRecord f.Num)
      → rec.chapters ≡ none
      → get_or_compute_chapters f env rec w
        ≡ persist f env rec
            (published_or_derived f env (fetch_yt_chapters f env rec.video_id) rec)
            w
  unfolding get_or_compute_chapters
  computed rec h = ap (λ o. compute f env o rec w) h

  -- Chapters that are computed for a transcript with a row are stored in it, the empty list too.
  pub stored-get_or_compute_chapters :
      (rec : TranscriptRecord f.Num) (cs : List (Chapter f.Num)) (t : Transcript f.Num)
      → rec.chapters ≡ none
      → find (is_row rec.video_id rec.language) w.transcripts ≡ some t
      → (get_or_compute_chapters f env rec w).0 ≡ ok cs
      → stored_chapters f (get_or_compute_chapters f env rec w).1 rec.video_id rec.language
        ≡ ok (some cs)
  stored-get_or_compute_chapters rec cs t none_yet row h =
      rw (computed rec none_yet) (stored-persist rec _ cs t row (rw (computed rec none_yet) at h))
