-- ===== src/Cache/Refinement/Rows.antt =====
-- The rows of src/app/cache.py, key by key, against the entries of Abstract.
use text.Mathlib.Text.{◌==◌}
use text.Mathlib.TextEquality.{eq_iff}
use mathlib.Core.Path.{subst}
use yt_service.Prelude.{
  ℕ, String, Bool, true, false, Bool-cases, Option, none, some, List, [], ◌∷◌, ◌&&◌, ◌≡◌, refl, sym,
  ◌∙◌, inl, inr, arith, ok, count, find, update, find-update_self, find-update_other, Float,
}
use yt_service.Domain.{TranscriptRecord}
use yt_service.World.{Transcript}
use yt_service.Cache.{is_row, new_row, merge_row, upsert}
use yt_service.Cache.Codec.{row_to_record}
use yt_service.Cache.Keyed.{IsKeyed, SameKey, row_key, is_row-same, find-update-none}
use yt_service.Cache.Abstract.{Entry, Entries, is_positive, at_key, put_entry, is_there}
use yt_service.Cache.Refinement.Decoding.{decode-inserted, decode-merge_row}

module _ (f : Float) where
  abbrev pub is_found : Option (Transcript f.Num) → Bool
  is_found none = false
  is_found (some t) = true

  -- The row of a key, and the entry that it stands for.
  abbrev pub StandsFor : Option (Transcript f.Num) → Option (Entry f.Num) → Type 0
  StandsFor none none = Unit
  StandsFor none (some e) = ⊥
  StandsFor (some t) none = ⊥
  StandsFor (some t) (some e) = (row_to_record f t ≡ ok e.held) × (t.expires_at ≡ e.expires_at)

  pub record Refines (ts : List (Transcript f.Num)) (s : Entries f.Num) : Type 0 where
    pub keyed : IsKeyed ts
    pub rows : (v l : String) → StandsFor (find (is_row v l) ts) (s v l)

  pub own_key : (v l : String) → (v == v && l == l) ≡ true
  own_key v l = ground (arith, eq_iff v v, eq_iff l l)

  pub same_key : (v l v' l' : String) → (v == v' && l == l') ≡ true → (v ≡ v') × (l ≡ l')
  same_key v l v' l' h = (ground (arith, eq_iff v v'), ground (arith, eq_iff l l'))

  pub other_key :
      (v l v' l' : String) (t : Transcript f.Num)
      → (v == v' && l == l') ≡ false
      → is_row v l t ≡ true
      → is_row v' l' t ≡ false
  other_key v l v' l' t h e = ground (
    arith,
    eq_iff t.video_id v,
    eq_iff t.video_id v',
    eq_iff t.language l,
    eq_iff t.language l',
    eq_iff v v',
    eq_iff l l',
  )

  -- A write to one key: what its row stands for there, and nothing elsewhere.
  pub written :
      (v l : String) (ts ts' : List (Transcript f.Num)) (s : Entries f.Num)
      (o : Option (Entry f.Num))
      → ((v' l' : String) → StandsFor (find (is_row v' l') ts) (s v' l'))
      → StandsFor (find (is_row v l) ts') o
      → ((v' l' : String)
          → (v == v' && l == l') ≡ false
          → find (is_row v' l') ts' ≡ find (is_row v' l') ts)
      → (v' l' : String) → StandsFor (find (is_row v' l') ts') (at_key v l o s v' l')
  written v l ts ts' s o rows here others v' l' = elim (Bool-cases (v == v' && l == l')) [
    | inl e ↦
        let (ev, el) = same_key v l v' l' e in
        rw e (
          subst (λ a. StandsFor (find (is_row a l') ts') o) ev
            (subst (λ b. StandsFor (find (is_row v b) ts') o) el here))
    | inr e ↦ rw e (subst (λ a. StandsFor a (s v' l')) (sym (others v' l' e)) (rows v' l'))
  ]

  module _ (v l : String) (g : Transcript f.Num → Transcript f.Num)
      (same : (t : Transcript f.Num) → is_row v l t ≡ true → SameKey (g t) t) where
    pub updated_other :
        (ts : List (Transcript f.Num)) (v' l' : String)
        → (v == v' && l == l') ≡ false
        → find (is_row v' l') (update (is_row v l) g ts) ≡ find (is_row v' l') ts
    updated_other ts v' l' e =
        find-update_other (is_row v l) (is_row v' l') g ts (λ t h. other_key v l v' l' t e h)
          (λ t h. is_row-same v' l' (g t) t (same t h) ∙ other_key v l v' l' t e h)

    pub updated_own :
        (h : Option (Entry f.Num) → Option (Entry f.Num))
        → h none ≡ none
        → ((t : Transcript f.Num) (e : Entry f.Num)
            → StandsFor (some t) (some e)
            → StandsFor (some (g t)) (h (some e)))
        → (ts : List (Transcript f.Num)) (o : Option (Transcript f.Num)) (e : Option (Entry f.Num))
        → find (is_row v l) ts ≡ o
        → StandsFor o e
        → StandsFor (find (is_row v l) (update (is_row v l) g ts)) (h e)
    updated_own h hn hs ts none none eq st =
        rw (find-update-none (is_row v l) g same v l ts eq, hn) tt
    updated_own h hn hs ts none (some e) eq st = absurd st
    updated_own h hn hs ts (some t) none eq st = absurd st
    updated_own h hn hs ts (some t) (some e) eq st =
        rw (find-update_self (is_row v l) g ts t (λ u k. is_row-same v l (g u) u (same u k) ∙ k) eq)
          (hs t e st)

  pub put_own :
      (now days : ℕ) (rec : TranscriptRecord f.Num) (ts : List (Transcript f.Num))
      (o : Option (Transcript f.Num)) (e : Option (Entry f.Num))
      → find (is_row rec.video_id rec.language) ts ≡ o
      → StandsFor o e
      → StandsFor
          (find (is_row rec.video_id rec.language) (upsert o (new_row now days rec) ts))
          (some (put_entry now days rec e))
  unfolding new_row
  put_own now days rec ts none none eq st =
      rw (own_key rec.video_id rec.language)
        (unfold new_row in (decode-inserted f now days rec, refl))
  put_own now days rec ts none (some e) eq st = absurd st
  put_own now days rec ts (some t) none eq st = absurd st
  put_own now days rec ts (some t) (some e) eq st =
      rw
        (find-update_self (is_row rec.video_id rec.language) (merge_row (new_row now days rec)) ts t
          (λ u k. own_key rec.video_id rec.language) eq)
        (decode-merge_row f now days rec t e st.0, refl)

  pub upsert_other :
      (now days : ℕ) (rec : TranscriptRecord f.Num) (ts : List (Transcript f.Num))
      (o : Option (Transcript f.Num)) (v' l' : String)
      → (rec.video_id == v' && rec.language == l') ≡ false
      → find (is_row v' l') (upsert o (new_row now days rec) ts) ≡ find (is_row v' l') ts
  unfolding new_row
  upsert_other now days rec ts none v' l' e = rw e
  upsert_other now days rec ts (some t) v' l' e =
      updated_other rec.video_id rec.language (merge_row (new_row now days rec))
        (λ u k. let key = row_key rec.video_id rec.language u k in (sym key.0, sym key.1)) ts v' l'
        e

  pub counted :
      (p : Transcript f.Num → Bool) (ts : List (Transcript f.Num))
      → is_positive (count p ts) ≡ is_found (find p ts)
  counted p [] = refl
  counted p (t ∷ ts) = elim (Bool-cases (p t)) [ inl e ↦ rw e | inr e ↦ rw e (counted p ts) ]

  pub found_stands :
      (o : Option (Transcript f.Num)) (e : Option (Entry f.Num))
      → StandsFor o e
      → is_found o ≡ is_there e
  found_stands none none st = refl
  found_stands none (some e) st = absurd st
  found_stands (some t) none st = absurd st
  found_stands (some t) (some e) st = refl
