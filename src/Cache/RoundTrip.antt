-- ===== src/Cache/RoundTrip.antt =====
-- What src/app/cache.py reads back of what it wrote.
use text.Mathlib.TextEquality.{eq_iff}
use yt_service.Prelude.{
  ℕ, ◌+◌, ◌*◌, ◌<◌, String, Bool, true, Option, none, some, Option-cases, List, [], ◌∷◌, ◌&&◌, ◌≡◌,
  refl, ap, inl, inr, arith, map, Outcome, ok, Float, lt→ltb, find, find-update, update, length,
}
use yt_service.Domain.{Snippet, Chapter, TranscriptRecord}
use yt_service.Domain.Json.{ReadError, Dict}
use yt_service.World.{World, Transcript}
use yt_service.Cache.{
  is_row, is_live, chapters_payload, new_row, kept_chapters, merge_row, put_transcript, respond,
  get_transcript,
}
use yt_service.Cache.Codec.{
  map_read, snippet_to_dict, chapter_to_dict, dict_to_snippet, dict_to_chapter, optional_text,
  read_speaker, read_chapters, row_to_record,
}

read_speaker-optional_text :
    (N : Type 0) (o : Option String) → read_speaker (some (optional_text {N = N} o)) ≡ ok o
unfolding read_speaker optional_text
read_speaker-optional_text N none = refl
read_speaker-optional_text N (some s) = refl

module _ (f : Float) where
  dict_to_snippet-snippet_to_dict :
      (s : Snippet f.Num) → dict_to_snippet f (snippet_to_dict s) ≡ ok s
  unfolding dict_to_snippet snippet_to_dict
  dict_to_snippet-snippet_to_dict s = rw (read_speaker-optional_text f.Num s.speaker)

  dict_to_chapter-chapter_to_dict :
      (c : Chapter f.Num) → dict_to_chapter f (chapter_to_dict c) ≡ ok c
  unfolding dict_to_chapter chapter_to_dict
  dict_to_chapter-chapter_to_dict c = refl

  pub map_read-snippets :
      (ss : List (Snippet f.Num)) → map_read (dict_to_snippet f) (map snippet_to_dict ss) ≡ ok ss
  unfolding map_read
  map_read-snippets [] = refl
  map_read-snippets (s ∷ ss) = rw (dict_to_snippet-snippet_to_dict s, map_read-snippets ss)

  map_read-chapters :
      (cs : List (Chapter f.Num)) → map_read (dict_to_chapter f) (map chapter_to_dict cs) ≡ ok cs
  unfolding map_read
  map_read-chapters [] = refl
  map_read-chapters (c ∷ cs) = rw (dict_to_chapter-chapter_to_dict c, map_read-chapters cs)

  pub read_chapters-payload :
      (o : Option (List (Chapter f.Num))) → read_chapters f (chapters_payload o) ≡ ok o
  unfolding read_chapters chapters_payload
  read_chapters-payload none = refl
  read_chapters-payload (some cs) = rw (map_read-chapters cs)

  abbrev pub kept :
      Option (List (Chapter f.Num)) → Option (List (Chapter f.Num)) → Option (List (Chapter f.Num))
  kept none old = old
  kept (some new) old = some new

  kept-none : (o : Option (List (Chapter f.Num))) → kept o none ≡ o
  kept-none none = refl
  kept-none (some cs) = refl

  ok_eq :
      {a b : Option (List (Chapter f.Num))}
      → ◌≡◌ {A = Outcome ReadError (Option (List (Chapter f.Num)))} (ok a) (ok b)
      → a ≡ b
  ok_eq h = cc

  read_kept :
      (o old : Option (List (Chapter f.Num))) (raw : Option (List (Dict f.Num)))
      → read_chapters f raw ≡ ok old
      → read_chapters f (kept_chapters (chapters_payload o) raw) ≡ ok (kept o old)
  unfolding chapters_payload
  read_kept none old raw h = h
  read_kept (some cs) old raw h = read_chapters-payload (some cs)

  chapters_of : Option (Transcript f.Num) → Outcome ReadError (Option (List (Chapter f.Num)))
  chapters_of none = ok none
  chapters_of (some t) = read_chapters f t.chapters_jsonb

  -- The chapters that the cache holds for a key, expired or not.
  unfoldable pub stored_chapters :
      {Db : Type 0}
      → World f.Num Db
      → String
      → String
      → Outcome ReadError (Option (List (Chapter f.Num)))
  unfolding chapters_of
  stored_chapters w v l = chapters_of (find (is_row v l) w.transcripts)

  module _ (now later days : ℕ) (rec : TranscriptRecord f.Num)
      (fresh : later < now + days * 86400) where
    -- The record as it is read back: chapters that it lacks are those stored before.
    abbrev pub read_back : Option (List (Chapter f.Num)) → TranscriptRecord f.Num
    read_back old = record rec {
      snippet_count = length rec.snippets;
      chapters = kept rec.chapters old;
    }

    decode-new : row_to_record f (new_row now days rec) ≡ ok (read_back none)
    unfolding row_to_record new_row
    decode-new =
        rw (
          map_read-snippets rec.snippets,
          read_chapters-payload rec.chapters,
          kept-none rec.chapters,
        )

    decode-merged :
        (t : Transcript f.Num) (old : Option (List (Chapter f.Num)))
        → read_chapters f t.chapters_jsonb ≡ ok old
        → row_to_record f (merge_row (new_row now days rec) t) ≡ ok (read_back old)
    unfolding row_to_record new_row
    decode-merged t old h =
        rw (map_read-snippets rec.snippets, read_kept rec.chapters old t.chapters_jsonb h)

    abbrev key_row : Transcript f.Num → Bool
    key_row = is_row rec.video_id rec.language

    -- Every version of the new row has the key and is alive.
    new_row-live :
        (chapters : Option (List (Dict f.Num)))
        → (key_row (record (new_row now days rec) { chapters_jsonb = chapters })
            && is_live later (record (new_row now days rec) { chapters_jsonb = chapters }))
          ≡ true
    unfolding new_row
    new_row-live chapters = ground (
      arith,
      eq_iff rec.video_id rec.video_id,
      eq_iff rec.language rec.language,
      lt→ltb later (now + days * 86400) fresh,
    )

    find-inserted :
        (ts : List (Transcript f.Num))
        → find (λ t. key_row t && is_live later t) (new_row now days rec ∷ ts)
          ≡ some (new_row now days rec)
    find-inserted ts = ground (arith, new_row-live (new_row now days rec).chapters_jsonb)

    find-merged :
        (ts : List (Transcript f.Num)) (t : Transcript f.Num)
        → find key_row ts ≡ some t
        → find
            (λ u. key_row u && is_live later u)
            (update key_row (merge_row (new_row now days rec)) ts)
          ≡ some (merge_row (new_row now days rec) t)
    find-merged ts t h =
        find-update key_row (is_live later) (merge_row (new_row now days rec)) ts t
          (λ u e.
            new_row-live (kept_chapters (new_row now days rec).chapters_jsonb u.chapters_jsonb))
          h

    module _ {Db : Type 0} (default_days : ℕ) (w : World f.Num Db)
        (old : Option (List (Chapter f.Num))) where
      -- A record that was put is read back until it expires: with its own chapters, or, if it
      -- carries none, with those stored before for the key.
      pub get-put_transcript :
          stored_chapters w rec.video_id rec.language ≡ ok old
          → (get_transcript f later rec.video_id rec.language
              (put_transcript now default_days rec (some days) w)).0
            ≡ ok (some (read_back old))
      unfolding get_transcript put_transcript stored_chapters
      get-put_transcript h = elim (Option-cases (find key_row w.transcripts)) [
        | inl e ↦
            rw (e, find-inserted w.transcripts, respond)
              (rw decode-new (ap (λ o. ok (some (read_back o))) (ok_eq (rw (e, chapters_of) at h))))
        | inr (t, e) ↦
            rw (e, find-merged w.transcripts t e, respond)
              (rw (decode-merged t old (rw (e, chapters_of) at h)))
      ]
