-- ===== src/Chapters/Again.antt =====
-- A later request for the chapters of a transcript finds those that src/app/chapters.py computed.
use mathlib.Core.Path.{subst}
use yt_service.Prelude.{
  ℕ, String, Bool, ◌&&◌, Bool-cases, Option, none, some, List, [], ◌∷◌, ◌≡◌, refl, sym, ap, inl,
  inr, Outcome, ok, raise, Float, find, update,
}
use yt_service.Errors.{Error}
use yt_service.Domain.{Snippet, Chapter, TranscriptRecord}
use yt_service.Domain.Json.{ReadError}
use yt_service.World.{World, Transcript}
use yt_service.Cache.{is_row, is_live, chapters_payload, put_chapters, respond, get_transcript}
use yt_service.Cache.Codec.{map_read, dict_to_snippet, read_chapters, row_to_record}
use yt_service.Cache.RoundTrip.{stored_chapters, read_chapters-payload}
use yt_service.Chapters.{
  ChapterEnv, fetch_yt_chapters, published_or_derived, persist, compute, get_or_compute_chapters,
}
use yt_service.Chapters.Stored.{computed, stored-get_or_compute_chapters}

module _ {A : Type 0} (p q : A → Bool) (g : A → A) where
  some_eq : {a b : A} → some a ≡ some b → a ≡ b
  some_eq e = cc

  none-ne_some : (a : A) → ◌≡◌ {A = Option A} none (some a) → ⊥
  none-ne_some a e = cc

  -- A row that is found after an update is one that the update wrote.
  find-updated :
      (xs : List A) (x : A) → find (λ a. p a && q a) (update p g xs) ≡ some x → (a : A) × (x ≡ g a)
  find-updated [] x h = absurd (none-ne_some x h)
  find-updated (a ∷ xs) x h = elim (Bool-cases (p a)) [
    | inl e ↦ elim (Bool-cases (p (g a) && q (g a))) [
      | inl k ↦ (a, sym (some_eq (rw (e, k) at h)))
      | inr k ↦ find-updated xs x (rw (e, k) at h)
    ]
    | inr e ↦ find-updated xs x (rw (e, e) at h)
  ]

-- What is read has those chapters.
abbrev ReadsChapters :
    {N : Type 0} → List (Chapter N) → Outcome ReadError (Option (TranscriptRecord N)) → Type 0
ReadsChapters cs (ok (some rec)) = rec.chapters ≡ some cs
ReadsChapters cs _ = Unit {0}

reads-some :
    {N : Type 0} (cs : List (Chapter N)) (o : Outcome ReadError (Option (TranscriptRecord N)))
    (again : TranscriptRecord N)
    → o ≡ ok (some again)
    → ReadsChapters cs o
    → again.chapters ≡ some cs
reads-some cs o again h k = subst (ReadsChapters cs) h k

module _ (f : Float) {Db : Type 0} (cs : List (Chapter f.Num)) where
  respond-ReadsChapters :
      (row : Transcript f.Num) (w : World f.Num Db)
      → read_chapters f row.chapters_jsonb ≡ ok (some cs)
      → ReadsChapters cs (respond f (some row) w).0
  unfolding respond row_to_record
  respond-ReadsChapters row w h = by (map_read (dict_to_snippet f) row.snippets_jsonb) refl
    where
      by :
          (ss : Outcome ReadError (List (Snippet f.Num)))
          → map_read (dict_to_snippet f) row.snippets_jsonb ≡ ss
          → ReadsChapters cs (respond f (some row) w).0
      by (raise e) hs = rw (hs, row_to_record) tt
      by (ok ss) hs = rw (hs, h, row_to_record) refl

  get-put_chapters :
      (now : ℕ) (v l : String) (w : World f.Num Db)
      → ReadsChapters cs (get_transcript f now v l (put_chapters v l (some cs) w)).0
  unfolding get_transcript put_chapters respond
  get-put_chapters now v l w = by (find (λ t. is_row v l t && is_live now t) written) refl
    where
      write : Transcript f.Num → Transcript f.Num
      write t = record t { chapters_jsonb = chapters_payload (some cs) }

      written : List (Transcript f.Num)
      written = update (is_row v l) write w.transcripts

      w1 : World f.Num Db
      w1 = record w { transcripts = written }

      by :
          (o : Option (Transcript f.Num))
          → find (λ t. is_row v l t && is_live now t) written ≡ o
          → ReadsChapters cs (respond f o w1).0
      by none h = tt
      by (some t) h =
          let (u, e) = find-updated (is_row v l) (is_live now) write w.transcripts t h in
          respond-ReadsChapters t w1 (rw e (read_chapters-payload f (some cs)))

module _ (f : Float) {Db : Type 0} (rec : TranscriptRecord f.Num) (cs : List (Chapter f.Num)) where
  persist-ReadsChapters :
      (now : ℕ) (env : ChapterEnv f.Num) (o : Outcome Error (List (Chapter f.Num)))
      (w : World f.Num Db)
      → (persist f env rec o w).0 ≡ ok cs
      → ReadsChapters cs
          (get_transcript f now rec.video_id rec.language (persist f env rec o w).1).0
  persist-ReadsChapters now env (raise e) w h = absurd (raise-ne_ok e h)
    where
      raise-ne_ok :
          (e : Error) → ◌≡◌ {A = Outcome Error (List (Chapter f.Num))} (raise e) (ok cs) → ⊥
      raise-ne_ok e k = cc
  persist-ReadsChapters now env (ok ds) w h =
      subst
        (λ es.
          ReadsChapters es
            (get_transcript f now rec.video_id rec.language
              (put_chapters rec.video_id rec.language (some ds) w)).0)
        (ok_eq ds h) (get-put_chapters f ds now rec.video_id rec.language w)
    where
      ok_eq :
          (ds : List (Chapter f.Num))
          → ◌≡◌ {A = Outcome Error (List (Chapter f.Num))} (ok ds) (ok cs)
          → ds ≡ cs
      ok_eq ds k = cc

  -- Chapters that are computed for a transcript with a row are stored in it, the empty list too. And
  -- a later request that reads the transcript, with whatever metadata and provider, is answered with
  -- the same chapters, computes nothing and leaves the state as it is.
  pub get_or_compute_chapters_again :
      (env env' : ChapterEnv f.Num) (w : World f.Num Db) (t : Transcript f.Num) (now : ℕ)
      (again : TranscriptRecord f.Num) (w' : World f.Num Db)
      → rec.chapters ≡ none
      → find (is_row rec.video_id rec.language) w.transcripts ≡ some t
      → (get_or_compute_chapters f env rec w).0 ≡ ok cs
      → (get_transcript f now rec.video_id rec.language (get_or_compute_chapters f env rec w).1).0
        ≡ ok (some again)
      → (stored_chapters f (get_or_compute_chapters f env rec w).1 rec.video_id rec.language
          ≡ ok (some cs))
        × (get_or_compute_chapters f env' again w' ≡ (ok cs, w'))
  unfolding get_or_compute_chapters
  get_or_compute_chapters_again env env' w t now again w' none_yet row h read =
      let derived = published_or_derived f env (fetch_yt_chapters f env rec.video_id) rec in
      (
        stored-get_or_compute_chapters f env w rec cs t none_yet row h,
        ap (λ o. compute f env' o again w')
            (reads-some cs _ again read (
              subst
                (λ m.
                  m.0 ≡ ok cs
                  → ReadsChapters cs (get_transcript f now rec.video_id rec.language m.1).0)
                (sym (computed f env w rec none_yet)) (persist-ReadsChapters now env derived w) h)),
      )
