-- ===== src/Cache/Refinement.antt =====
-- The table of src/app/cache.py implements the map of Abstract: it forgets the order of the rows, their
-- JSON, and the rows of before.
pub mod Decoding
pub mod Rows
use text.Mathlib.Text.{◌==◌}
use text.Mathlib.TextEquality.{eq_iff}
use mathlib.Core.Path.{subst}
use yt_service.Prelude.{
  ℕ, String, Bool, true, false, Bool-cases, Option, none, some, List, [], ◌∷◌, ◌&&◌, ◌≡◌, refl, ap,
  sym, ◌∙◌, inl, inr, arith, not, ok, count, find, update, select, find-update_self,
  find-update_other, find-select, find-select-none, ltb, map, length, Float, if◌then◌else◌,
}
use yt_service.Domain.{Snippet, Chapter, TranscriptRecord}
use yt_service.World.{World, Transcript}
use yt_service.Cache.{
  is_row, is_live, chapters_payload, new_row, merge_row, upsert, put_transcript, put_chapters,
  put_diarization, purge_transcript, respond, get_transcript,
}
use yt_service.Cache.Codec.{snippet_to_dict, row_to_record}
use yt_service.Cache.Keyed.{
  IsKeyed, SameKey, row_key, is_row-same, kept_if, find-kept_if, find-update-none, update-IsKeyed,
  select-IsKeyed, upsert-IsKeyed,
}
use yt_service.Cache.Abstract.{
  Entry, Entries, Operation, get, put, set_chapters, set_speakers, purge, record_answer,
  is_positive, unexpired, at_key, put_entry, with_chapters, with_speakers, is_there, step_entries,
  run_entries, step_cache, run_cache, Answer, found,
}
use yt_service.Cache.Refinement.Decoding.{
  decode-inserted, decode-merge_row, decode-speakers, decode-chapters,
}
use yt_service.Cache.Refinement.Rows.{
  StandsFor, Refines, written, updated_other, updated_own, put_own, upsert_other, counted,
  found_stands, is_found,
}

module _ (f : Float) where
  module _ {Db : Type 0} where
    -- The answer is that of the map, and the table stands for the map again.
    abbrev Follows : Operation f.Num → World f.Num Db → Entries f.Num → Type 0
    Follows o w s =
        ((step_cache f o w).0 ≡ (step_entries o s).0)
        × Refines f (step_cache f o w).1.transcripts (step_entries o s).1

    answer-kept_if :
        (now : ℕ) (w : World f.Num Db) (o : Option (Transcript f.Num)) (e : Option (Entry f.Num))
        → StandsFor f o e
        → (respond f (kept_if (is_live now) o) w).0 ≡ ok (unexpired now e)
    unfolding respond row_to_record
    answer-kept_if now w none none st = refl
    answer-kept_if now w none (some e) st = absurd st
    answer-kept_if now w (some t) none st = absurd st
    answer-kept_if now w (some t) (some e) st = elim (Bool-cases (ltb now e.expires_at)) [
      | inl c ↦ rw (st.1, c) (rw st.0)
      | inr c ↦ rw (st.1, c)
    ]

    transcripts-respond :
        (o : Option (Transcript f.Num)) (w : World f.Num Db)
        → (respond f o w).1.transcripts ≡ w.transcripts
    unfolding respond
    transcripts-respond none w = refl
    transcripts-respond (some t) w = refl

    get-Follows :
        (now : ℕ) (v l : String) (w : World f.Num Db) (s : Entries f.Num)
        → Refines f w.transcripts s
        → Follows (get now v l) w s
    unfolding step_cache step_entries get_transcript
    get-Follows now v l w s h = (
      ap record_answer (
          rw (find-kept_if v l (is_live now) w.transcripts h.keyed)
            (answer-kept_if now w (find (is_row v l) w.transcripts) (s v l) (h.rows v l))),
      subst (λ ts. Refines f ts s) (sym (transcripts-respond _ w)) h,
    )

    put-Follows :
        (now days : ℕ) (rec : TranscriptRecord f.Num) (w : World f.Num Db) (s : Entries f.Num)
        → Refines f w.transcripts s
        → Follows (put now days rec) w s
    unfolding step_cache step_entries put_transcript
    put-Follows now days rec w s h =
        let v = rec.video_id in
        let l = rec.language in
        let row = new_row now days rec in
        (
          refl,
          record {
            keyed = unfold new_row in upsert-IsKeyed row w.transcripts h.keyed;
            rows =
                written f v l w.transcripts _ s _ h.rows
                  (put_own f now days rec w.transcripts (find (is_row v l) w.transcripts) (s v l)
                    refl (h.rows v l))
                  (λ v' l' e.
                    upsert_other f now days rec w.transcripts (find (is_row v l) w.transcripts) v'
                      l' e);
          },
        )

    chapters-Follows :
        (v l : String) (cs : Option (List (Chapter f.Num))) (w : World f.Num Db) (s : Entries f.Num)
        → Refines f w.transcripts s
        → Follows (set_chapters v l cs) w s
    unfolding step_cache step_entries put_chapters
    chapters-Follows v l cs w s h =
        let g = λ (t : Transcript f.Num). record t { chapters_jsonb = chapters_payload cs } in
        (
          refl,
          record {
            keyed = update-IsKeyed (is_row v l) g (λ t k. (refl, refl)) w.transcripts h.keyed;
            rows =
                written f v l w.transcripts _ s _ h.rows
                  (updated_own f v l g (λ t k. (refl, refl)) (with_chapters cs) refl
                    (λ t e st. (decode-chapters f cs t e.held st.0, st.1)) w.transcripts
                    (find (is_row v l) w.transcripts) (s v l) refl (h.rows v l))
                  (updated_other f v l g (λ t k. (refl, refl)) w.transcripts);
          },
        )

    speakers-Follows :
        (v l : String) (ss : List (Snippet f.Num)) (done : Bool) (w : World f.Num Db)
        (s : Entries f.Num)
        → Refines f w.transcripts s
        → Follows (set_speakers v l ss done) w s
    unfolding step_cache step_entries put_diarization
    speakers-Follows v l ss done w s h =
        let g = λ (t : Transcript f.Num). record t {
          snippets_jsonb = map snippet_to_dict ss;
          has_diarization = done;
        } in
        (
          ap found (
              counted f (is_row v l) w.transcripts
              ∙ found_stands f (find (is_row v l) w.transcripts) (s v l) (h.rows v l)),
          record {
            keyed = update-IsKeyed (is_row v l) g (λ t k. (refl, refl)) w.transcripts h.keyed;
            rows =
                written f v l w.transcripts _ s _ h.rows
                  (updated_own f v l g (λ t k. (refl, refl)) (with_speakers ss done) refl
                    (λ t e st. (decode-speakers f ss done t e.held st.0, st.1)) w.transcripts
                    (find (is_row v l) w.transcripts) (s v l) refl (h.rows v l))
                  (updated_other f v l g (λ t k. (refl, refl)) w.transcripts);
          },
        )

    purge-Follows :
        (v : String) (w : World f.Num Db) (s : Entries f.Num)
        → Refines f w.transcripts s
        → Follows (purge v) w s
    unfolding step_cache step_entries purge_transcript
    purge-Follows v w s h =
        let kept = λ (t : Transcript f.Num). not (t.video_id == v) in
        (
          refl,
          record {
            keyed = select-IsKeyed kept w.transcripts h.keyed;
            rows = λ v' l'. elim (Bool-cases (v == v')) [
              | inl e ↦
                  rw
                    (
                      e,
                      find-select-none kept (is_row v' l') w.transcripts (λ t k.
                          ground (arith, eq_iff t.video_id v, eq_iff t.video_id v', eq_iff v v')),
                    )
                    tt
              | inr e ↦
                  rw
                    (
                      e,
                      find-select kept (is_row v' l') w.transcripts (λ t k.
                          ground (arith, eq_iff t.video_id v, eq_iff t.video_id v', eq_iff v v')),
                    )
                    (h.rows v' l')
            ];
          },
        )

    step-Follows :
        (o : Operation f.Num) (w : World f.Num Db) (s : Entries f.Num)
        → Refines f w.transcripts s
        → Follows o w s
    step-Follows (get now v l) = get-Follows now v l
    step-Follows (put now days rec) = put-Follows now days rec
    step-Follows (set_chapters v l cs) = chapters-Follows v l cs
    step-Follows (set_speakers v l ss done) = speakers-Follows v l ss done
    step-Follows (purge v) = purge-Follows v

    run-Follows :
        (os : List (Operation f.Num)) (w : World f.Num Db) (s : Entries f.Num)
        → Refines f w.transcripts s
        → run_cache f os w ≡ run_entries os s
    unfolding run_cache run_entries
    run-Follows [] w s h = refl
    run-Follows (o ∷ os) w s h =
        let step = step-Follows o w s h in
        let rest = run-Follows os (step_cache f o w).1 (step_entries o s).1 step.1 in
        cons_eq step.0 rest
      where
        cons_eq :
            {a b : Answer f.Num} {cs ds : List (Answer f.Num)}
            → a ≡ b
            → cs ≡ ds
            → (a ∷ cs) ≡ (b ∷ ds)
        cons_eq p q = cc

    -- From an empty table, any sequence of reads, puts, updates of chapters and of speakers, and
    -- purges, at any times, gives the answers of the map from keys to records and expiry times: each
    -- read answers with the record of the last write to its key that is neither purged nor expired.
    pub run_cache-run_entries :
        (os : List (Operation f.Num)) (w : World f.Num Db)
        → w.transcripts ≡ []
        → run_cache f os w ≡ run_entries os (λ v l. none)
    run_cache-run_entries os w empty =
        run-Follows os w (λ v l. none) (rw empty (record { keyed = tt; rows = λ v l. tt }))
