-- ===== src/Cache/Refinement/Decoding.antt =====
-- What the rows of src/app/cache.py decode to after each write, by what they decoded to before.
use mathlib.Core.Path.{subst}
use yt_service.Prelude.{
  ℕ, Bool, Option, none, some, List, ◌≡◌, refl, map, Outcome, ok, raise, ◌>>=◌, length, Float,
}
use yt_service.Domain.{Snippet, Chapter, TranscriptRecord}
use yt_service.Domain.Json.{ReadError}
use yt_service.World.{Transcript}
use yt_service.Cache.{chapters_payload, kept_chapters, new_row, merge_row}
use yt_service.Cache.Codec.{
  map_read, snippet_to_dict, dict_to_snippet, read_chapters, row_to_record,
}
use yt_service.Cache.RoundTrip.{map_read-snippets, read_chapters-payload}
use yt_service.Cache.Abstract.{Entry, own_or, put_entry}

module _ (f : Float) where
  abbrev built :
      Transcript f.Num
      → List (Snippet f.Num)
      → Option (List (Chapter f.Num))
      → TranscriptRecord f.Num
  built row snippets chapters = record {
    video_id = row.video_id;
    language = row.language;
    source = row.source;
    is_generated = row.is_generated;
    duration_seconds = row.duration_seconds;
    snippet_count = length snippets;
    cached_at = row.fetched_at;
    snippets = snippets;
    full_text = row.full_text;
    chapters = chapters;
    has_diarization = row.has_diarization;
  }

  -- The parts of a row that decodes.
  record Parts (t : Transcript f.Num) (rec : TranscriptRecord f.Num) : Type 0 where
    snippets : List (Snippet f.Num)
    chapters : Option (List (Chapter f.Num))
    reads_snippets : map_read (dict_to_snippet f) t.snippets_jsonb ≡ ok snippets
    reads_chapters : read_chapters f t.chapters_jsonb ≡ ok chapters
    whole : built t snippets chapters ≡ rec

  parts :
      (t : Transcript f.Num) (rec : TranscriptRecord f.Num)
      → row_to_record f t ≡ ok rec
      → Parts t rec
  unfolding row_to_record
  parts t rec h =
      go (map_read (dict_to_snippet f) t.snippets_jsonb) (read_chapters f t.chapters_jsonb) refl
        refl h
    where
      raised :
          {A : Type 0}
          → (e : ReadError) (a : A) → ◌≡◌ {A = Outcome ReadError A} (raise e) (ok a)
          → ⊥
      raised e a k = cc

      ok_eq : {A : Type 0} {a b : A} → ◌≡◌ {A = Outcome ReadError A} (ok a) (ok b) → a ≡ b
      ok_eq k = cc

      go :
          (a : Outcome ReadError (List (Snippet f.Num)))
          (b : Outcome ReadError (Option (List (Chapter f.Num))))
          → map_read (dict_to_snippet f) t.snippets_jsonb ≡ a
          → read_chapters f t.chapters_jsonb ≡ b
          → (a >>= λ ss. b >>= λ cs. ok (built t ss cs)) ≡ ok rec
          → Parts t rec
      go (raise e) b ea eb k = absurd (raised e rec k)
      go (ok ss) (raise e) ea eb k = absurd (raised e rec k)
      go (ok ss) (ok cs) ea eb k = record {
        snippets = ss;
        chapters = cs;
        reads_snippets = ea;
        reads_chapters = eb;
        whole = ok_eq k;
      }

  read_own_or :
      (o old : Option (List (Chapter f.Num))) (t : Transcript f.Num)
      → read_chapters f t.chapters_jsonb ≡ ok old
      → read_chapters f (kept_chapters (chapters_payload o) t.chapters_jsonb) ≡ ok (own_or o old)
  unfolding chapters_payload
  read_own_or none old t h = h
  read_own_or (some cs) old t h = read_chapters-payload f (some cs)

  own_or-none : (o : Option (List (Chapter f.Num))) → own_or o none ≡ o
  own_or-none none = refl
  own_or-none (some cs) = refl

  pub decode-inserted :
      (now days : ℕ) (rec : TranscriptRecord f.Num)
      → row_to_record f (new_row now days rec) ≡ ok (put_entry now days rec none).held
  unfolding row_to_record new_row
  decode-inserted now days rec = rw (
    map_read-snippets f rec.snippets,
    read_chapters-payload f rec.chapters,
    own_or-none rec.chapters,
  )

  pub decode-merge_row :
      (now days : ℕ) (rec : TranscriptRecord f.Num) (t : Transcript f.Num) (e : Entry f.Num)
      → row_to_record f t ≡ ok e.held
      → row_to_record f (merge_row (new_row now days rec) t)
        ≡ ok (put_entry now days rec (some e)).held
  unfolding row_to_record new_row
  decode-merge_row now days rec t e h =
      let p = parts t e.held h in
      rw (
        map_read-snippets f rec.snippets,
        read_own_or rec.chapters e.held.chapters t (
            subst (λ r. read_chapters f t.chapters_jsonb ≡ ok r.chapters) p.whole p.reads_chapters),
      )

  pub decode-speakers :
      (ss : List (Snippet f.Num)) (done : Bool) (t : Transcript f.Num)
      (rec : TranscriptRecord f.Num)
      → row_to_record f t ≡ ok rec
      → row_to_record f
          (record t { snippets_jsonb = map snippet_to_dict ss; has_diarization = done })
        ≡ ok (record rec { snippets = ss; snippet_count = length ss; has_diarization = done })
  unfolding row_to_record
  decode-speakers ss done t rec h =
      let p = parts t rec h in
      subst
        (λ r.
          row_to_record f
            (record t { snippets_jsonb = map snippet_to_dict ss; has_diarization = done })
          ≡ ok (record r { snippets = ss; snippet_count = length ss; has_diarization = done }))
        p.whole (rw (map_read-snippets f ss, p.reads_chapters))

  pub decode-chapters :
      (cs : Option (List (Chapter f.Num))) (t : Transcript f.Num) (rec : TranscriptRecord f.Num)
      → row_to_record f t ≡ ok rec
      → row_to_record f (record t { chapters_jsonb = chapters_payload cs })
        ≡ ok (record rec { chapters = cs })
  unfolding row_to_record
  decode-chapters cs t rec h =
      let p = parts t rec h in
      subst
        (λ r.
          row_to_record f (record t { chapters_jsonb = chapters_payload cs })
          ≡ ok (record r { chapters = cs }))
        p.whole (rw (p.reads_snippets, read_chapters-payload f cs))
