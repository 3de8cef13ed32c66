-- ===== src/Cache/Abstract.antt =====
-- What src/app/cache.py promises, with neither rows nor JSON: a map from keys to records with the time
-- when they expire.
use text.Mathlib.Text.{◌==◌}
use yt_service.Prelude.{
  ℕ, ◌+◌, ◌*◌, String, Bool, true, false, ◌&&◌, Option, none, some, List, [], ◌∷◌, length, ltb,
  Outcome, ok, Float, zero, suc, if◌then◌else◌,
}
use yt_service.Domain.{Snippet, Chapter, TranscriptRecord}
use yt_service.Domain.Json.{ReadError}
use yt_service.World.{World}
use yt_service.Cache.{
  put_transcript, put_chapters, put_diarization, purge_transcript, get_transcript,
}

pub record Entry (N : Type 0) : Type 0 where
  pub held : TranscriptRecord N
  pub expires_at : ℕ

abbrev pub Entries : Type 0 → Type 0
Entries N = String → String → Option (Entry N)

-- The operations with their arguments: the time of the call, and for a put the days.
pub data Operation (N : Type 0) : Type 0 where
  get : ℕ → String → String → Operation N
  put : ℕ → ℕ → TranscriptRecord N → Operation N
  set_chapters : String → String → Option (List (Chapter N)) → Operation N
  set_speakers : String → String → List (Snippet N) → Bool → Operation N
  purge : String → Operation N

-- What the caller sees: the answer of a read, and whether the update of the speakers found a row.
pub data Answer (N : Type 0) : Type 0 where
  record_answer : Outcome ReadError (Option (TranscriptRecord N)) → Answer N
  found : Bool → Answer N
  silent : Answer N

abbrev pub is_positive : ℕ → Bool
is_positive zero = false
is_positive (suc n) = true

module _ {N : Type 0} where
  abbrev pub unexpired : ℕ → Option (Entry N) → Option (TranscriptRecord N)
  unexpired now none = none
  unexpired now (some e) = if ltb now e.expires_at then some e.held else none

  abbrev pub at_key : String → String → Option (Entry N) → Entries N → Entries N
  at_key v l o s v' l' = if v == v' && l == l' then o else s v' l'

  abbrev pub own_or :
      Option (List (Chapter N)) → Option (List (Chapter N)) → Option (List (Chapter N))
  own_or none old = old
  own_or (some cs) old = some cs

  abbrev pub old_chapters : Option (Entry N) → Option (List (Chapter N))
  old_chapters none = none
  old_chapters (some e) = e.held.chapters

  -- Chapters that the record lacks stay those of before, expired or not.
  abbrev pub put_entry : ℕ → ℕ → TranscriptRecord N → Option (Entry N) → Entry N
  put_entry now days rec old = record {
    held = record rec {
      snippet_count = length rec.snippets;
      chapters = own_or rec.chapters (old_chapters old);
    };
    expires_at = now + days * 86400;
  }

  abbrev pub with_chapters : Option (List (Chapter N)) → Option (Entry N) → Option (Entry N)
  with_chapters cs none = none
  with_chapters cs (some e) = some (record e { held = record e.held { chapters = cs } })

  abbrev pub with_speakers : List (Snippet N) → Bool → Option (Entry N) → Option (Entry N)
  with_speakers ss done none = none
  with_speakers ss done (some e) = some (record e {
    held = record e.held { snippets = ss; snippet_count = length ss; has_diarization = done };
  })

  abbrev pub is_there : Option (Entry N) → Bool
  is_there none = false
  is_there (some e) = true

  unfoldable pub step_entries : Operation N → Entries N → Answer N × Entries N
  step_entries (get now v l) s = (record_answer (ok (unexpired now (s v l))), s)
  step_entries (put now days rec) s = (
    silent,
    at_key rec.video_id rec.language (some (put_entry now days rec (s rec.video_id rec.language)))
        s,
  )
  step_entries (set_chapters v l cs) s = (silent, at_key v l (with_chapters cs (s v l)) s)
  step_entries (set_speakers v l ss done) s =
      (found (is_there (s v l)), at_key v l (with_speakers ss done (s v l)) s)
  step_entries (purge v) s = (silent, λ v' l'. if v == v' then none else s v' l')

  unfoldable pub run_entries : List (Operation N) → Entries N → List (Answer N)
  unfolding step_entries
  run_entries [] s = []
  run_entries (o ∷ os) s = let (a, s') = step_entries o s in a ∷ run_entries os s'

module _ (f : Float) {Db : Type 0} where
  -- The same on the table; the days are given, so the default of the settings is not used.
  unfoldable pub step_cache : Operation f.Num → World f.Num Db → Answer f.Num × World f.Num Db
  unfolding get_transcript put_transcript put_chapters put_diarization purge_transcript
  step_cache (get now v l) w = let (o, w') = get_transcript f now v l w in (record_answer o, w')
  step_cache (put now days rec) w = (silent, put_transcript now days rec (some days) w)
  step_cache (set_chapters v l cs) w = (silent, put_chapters v l cs w)
  step_cache (set_speakers v l ss done) w =
      let (n, w') = put_diarization v l ss done w in (found (is_positive n), w')
  step_cache (purge v) w = (silent, (purge_transcript v w).1)

  unfoldable pub run_cache : List (Operation f.Num) → World f.Num Db → List (Answer f.Num)
  unfolding step_cache
  run_cache [] w = []
  run_cache (o ∷ os) w = let (a, w') = step_cache o w in a ∷ run_cache os w'
