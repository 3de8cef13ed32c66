-- ===== src/Monitors/Collecting.antt =====
-- The new videos of src/app/monitor_scheduler.py after the last one seen has moved.
use text.Mathlib.Text.{◌==◌}
use text.Mathlib.TextEquality.{eq_iff}
use yt_service.Prelude.{
  String, false, Bool-cases, not, ◌&&◌, Option, some, List, [], ◌∷◌, ◌++◌, ◌≡◌, ◌≢◌, sym, ap, ◌∙◌,
  inl, inr, arith, All, is_empty,
}
use yt_service.Monitors.{seen, collect}

nil-ne_cons : (v : String) (vs : List String) → ◌≡◌ {A = List String} [] (v ∷ vs) → ⊥
nil-ne_cons v vs h = cc

nil-ne_split :
    (left older : List String) (n : String) → ◌≡◌ {A = List String} [] (left ++ n ∷ older) → ⊥
nil-ne_split [] older n h = nil-ne_cons n older h
nil-ne_split (u ∷ left) older n h = nil-ne_cons u (left ++ n ∷ older) h

cons_eq :
    (u v : String) (us vs : List String)
    → ◌≡◌ {A = List String} (u ∷ us) (v ∷ vs)
    → (u ≡ v) × (us ≡ vs)
cons_eq u v us vs h = (cc, cc)

-- The step for a video that is new.
kept :
    {rest : List String} (v : String) (es : List String) (n : String) (older : List String)
    → is_empty n ≡ false
    → is_empty v ≡ false
    → ((left : List String)
        → All (λ u. u ≢ n) left
        → rest ≡ left ++ n ∷ older
        → collect (some n) es ≡ left)
    → (left : List String) → All (λ u. u ≢ n) left
    → v ∷ rest ≡ left ++ n ∷ older
    → collect (some n) (v ∷ es) ≡ left
unfolding collect
kept {rest = rest} v es n older given e ih [] apart h =
    ground (arith, given, e, (cons_eq v n rest older h).0, eq_iff v n)
kept {rest = rest} v es n older given e ih (u ∷ left) apart h =
    let (same, more) = cons_eq v u rest (left ++ n ∷ older) h in
    let other : v ≢ n = λ q. apart.0 (sym same ∙ q) in
    rw (e, unseen v n given other, collect)
      (ap (λ vs. v ∷ vs) (ih left apart.1 more) ∙ ap (λ x. x ∷ left) same)
  where
    unseen : (x y : String) → is_empty y ≡ false → x ≢ y → (not (is_empty y) && x == y) ≡ false
    unseen x y full other = ground (arith, full, eq_iff x y, other)

-- If a video is in the list of new ones, then with it as the last one seen the new ones are those
-- before it, if it is not among these.
pub collect-split :
    (last : Option String) (es left older : List String) (n : String)
    → is_empty n ≡ false
    → All (λ u. u ≢ n) left
    → collect last es ≡ left ++ n ∷ older
    → collect (some n) es ≡ left
unfolding collect
collect-split last [] left older n given apart h = absurd (nil-ne_split left older n h)
collect-split last (v ∷ es) left older n given apart h = elim (Bool-cases (is_empty v)) [
  | inl e ↦ rw (e, collect) (collect-split last es left older n given apart (rw (e, collect) at h))
  | inr e ↦ elim (Bool-cases (seen last v)) [
    | inl s ↦ absurd (nil-ne_split left older n (rw (e, s, collect) at h))
    | inr s ↦
        kept v es n older given e (λ left' apart'. collect-split last es left' older n given apart')
          left apart (rw (e, s, collect) at h)
  ]
]
