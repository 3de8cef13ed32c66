-- ===== src/Monitors/Progress.antt =====
-- A poll of src/app/monitor_scheduler.py neither skips a video nor dispatches one twice.
use yt_service.Prelude.{
  String, true, false, Bool-cases, Option, none, some, List, [], ◌∷◌, ◌++◌, ◌≡◌, ◌≢◌, refl, sym, ap,
  ◌∙◌, inl, inr, All, Outcome, ok, raise, is_empty, Float, if◌then◌else◌,
}
use mathlib.Core.Path.{subst}
use yt_service.Errors.{Error}
use yt_service.World.{Redis, World}
use yt_service.Monitors.{
  Monitor, MonitorEnv, seen, collect, mark_polled, Dispatched, dispatch_video, advance,
  dispatch_all, poll_new, poll_feed, poll_one,
}
use yt_service.Monitors.Collecting.{collect-split}

-- No video is there twice.
abbrev pub IsDistinct : List String → Type 0
IsDistinct [] = Unit
IsDistinct (v ∷ vs) = All (λ u. v ≢ u) vs × IsDistinct vs

-- The list is the part that is left and then the newest success with what is older, or all is left.
abbrev Splits : List String → List String → Option String → Type 0
Splits vs left none = left ≡ vs
Splits vs left (some n) = (older : List String) × (vs ≡ left ++ n ∷ older)

true-ne_false : true ≡ false → ⊥
true-ne_false e = cc

middle :
    (P : String → Type 0) (left older : List String) (n : String) → All P (left ++ n ∷ older) → P n
middle P [] older n h = h.0
middle P (u ∷ left) older n h = middle P left older n h.1

distinct-apart :
    (left older : List String) (n : String) → IsDistinct (left ++ n ∷ older) → All (λ u. u ≢ n) left
distinct-apart [] older n h = tt
distinct-apart (u ∷ left) older n h =
    (middle (λ x. u ≢ x) left older n h.0, distinct-apart left older n h.1)

collect-given :
    (last : Option String) (es : List String) → All (λ v. is_empty v ≡ false) (collect last es)
unfolding collect
collect-given last [] = tt
collect-given last (v ∷ es) = elim (Bool-cases (is_empty v)) [
  | inl e ↦ rw (e, collect) (collect-given last es)
  | inr e ↦ elim (Bool-cases (seen last v)) [
    | inl s ↦ rw (e, s, collect) tt
    | inr s ↦ rw (e, s, collect) (e, collect-given last es)
  ]
]

module _ (f : Float) (r : Redis) (env : MonitorEnv f.Num (World f.Num r.Db)) (m : Monitor) where
  -- The videos that were not dispatched: that which failed, and all that are newer.
  abbrev pub after_dispatch : String → Outcome Error (Unit {0}) → List String
  after_dispatch v (ok u) = []
  after_dispatch v (raise e) = v ∷ []

  abbrev pub pending : List String → World f.Num r.Db → List String
  pending [] w = []
  pending (v ∷ vs) w =
      let older = dispatch_all f r env m vs w in
      let rest = pending vs w in
      if older.going then after_dispatch v (dispatch_video f r env m v older.world).0 else v ∷ rest

  record IsSplit (vs left : List String) (out : Dispatched (World f.Num r.Db)) : Type 0 where
    pub splits : Splits vs left out.newest
    pub done : out.going ≡ true → left ≡ []

  newer :
      (v : String) (vs left : List String) (o : Option String)
      → Splits vs left o
      → Splits (v ∷ vs) (v ∷ left) o
  newer v vs left none h = ap (λ us. v ∷ us) h
  newer v vs left (some n) (older, h) = (older, ap (λ us. v ∷ us) h)

  advanced :
      (v : String) (vs : List String) (o : Option String)
      (out : Outcome Error (Unit {0}) × World f.Num r.Db)
      → Splits vs [] o
      → IsSplit (v ∷ vs) (after_dispatch v out.0) (advance f r env m v o out)
  advanced v vs o (ok u, w) h = record { splits = (vs, refl); done = λ e. refl }
  advanced v vs o (raise e, w) h = record {
    splits = newer v vs [] o h;
    done = λ g. absurd (false-ne_true g);
  }
    where
      false-ne_true : false ≡ true → ⊥
      false-ne_true g = cc

  dispatch_all-IsSplit :
      (vs : List String) (w : World f.Num r.Db)
      → IsSplit vs (pending vs w) (dispatch_all f r env m vs w)
  unfolding dispatch_all
  dispatch_all-IsSplit [] w = record { splits = refl; done = λ e. refl }
  dispatch_all-IsSplit (v ∷ vs) w =
      let ih = dispatch_all-IsSplit vs w in
      let older = dispatch_all f r env m vs w in
      elim (Bool-cases older.going) [
        | inl e ↦
            rw (e, dispatch_all)
              (advanced v vs older.newest (dispatch_video f r env m v older.world)
                (subst (λ left. Splits vs left older.newest) (ih.done e) ih.splits))
        | inr e ↦
            rw (e, dispatch_all)
              (record {
                splits = newer v vs (pending vs w) older.newest ih.splits;
                done = λ g. absurd (true-ne_false (sym g));
              })
      ]

  next_new :
      (es vs : List String) (w : World f.Num r.Db) (o : Option String)
      → vs ≡ collect m.last_video_id es
      → IsDistinct vs
      → Splits vs (pending vs w) o
      → collect (mark_polled env.now o m).last_video_id es ≡ pending vs w
  unfolding mark_polled
  next_new es vs w none new distinct h = sym new ∙ sym h
  next_new es vs w (some n) new distinct (older, h) =
      collect-split m.last_video_id es (pending vs w) older n
        (middle (λ v. is_empty v ≡ false) (pending vs w) older n
          (subst (All (λ v. is_empty v ≡ false)) (sym new ∙ h) (collect-given m.last_video_id es)))
        (distinct-apart (pending vs w) older n (subst IsDistinct h distinct)) (sym new ∙ h)

  poll_new-pending :
      (es vs : List String) (w : World f.Num r.Db)
      → vs ≡ collect m.last_video_id es
      → IsDistinct vs
      → collect (poll_new f r env m vs w).0.last_video_id es ≡ pending vs w
  unfolding poll_one
  poll_new-pending es [] w new distinct = next_new es [] w none new distinct refl
  poll_new-pending es (v ∷ vs) w new distinct =
      next_new es (v ∷ vs) w (dispatch_all f r env m (v ∷ vs) w).newest new distinct
        (dispatch_all-IsSplit (v ∷ vs) w).splits

  poll_feed-pending :
      (es : List String) (w : World f.Num r.Db)
      → IsDistinct (collect m.last_video_id es)
      → collect (poll_feed f r env m (ok es) w).0.last_video_id es
        ≡ pending (collect m.last_video_id es) w
  unfolding collect
  poll_feed-pending [] w distinct = refl
  poll_feed-pending (v ∷ vs) w distinct =
      poll_new-pending (v ∷ vs) (collect m.last_video_id (v ∷ vs)) w refl distinct

  -- After a poll whose feed names no new video twice, the videos of that feed that are new by the
  -- monitor's row are those that were not dispatched: the one that failed and all newer ones.
  pub poll_one-pending :
      (es : List String) (w : World f.Num r.Db)
      → env.feed ≡ ok es
      → IsDistinct (collect m.last_video_id es)
      → collect (poll_one f r env m w).0.last_video_id es ≡ pending (collect m.last_video_id es) w
  unfolding poll_one
  poll_one-pending es w h distinct =
      subst
        (λ o.
          collect (poll_feed f r env m o w).0.last_video_id es
          ≡ pending (collect m.last_video_id es) w)
        (sym h) (poll_feed-pending es w distinct)
