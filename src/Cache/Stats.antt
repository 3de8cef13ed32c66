-- ===== src/Cache/Stats.antt =====
-- `stats` of src/app/cache.py.
use yt_service.Prelude.{
  ℕ, zero, suc, ◌+◌, ◌≤◌, All, All-map, All-both, Bool, true, false, Option, none, some, List, [],
  ◌∷◌, ◌≡◌, refl, arith, count, length, ltb, if◌then◌else◌,
}
use yt_service.Domain.{Source, youtube_captions, whisper_openai, whisper_local}
use yt_service.World.{World, Transcript}

pub record CacheStats : Type 0 where
  pub total_rows : ℕ
  pub by_source : List (Source × ℕ)
  pub oldest_cached_at : Option ℕ
  pub newest_cached_at : Option ℕ

abbrev same_source : Source → Source → Bool
same_source youtube_captions youtube_captions = true
same_source whisper_openai whisper_openai = true
same_source whisper_local whisper_local = true
same_source _ _ = false

-- A group exists only where it has a row.
abbrev group : Source → ℕ → List (Source × ℕ) → List (Source × ℕ)
group s zero rest = rest
group s (suc n) rest = (s, suc n) ∷ rest

abbrev first_of_two : ℕ → Option ℕ → Option ℕ
first_of_two n none = some n
first_of_two n (some m) = some (if ltb n m then n else m)

abbrev last_of_two : ℕ → Option ℕ → Option ℕ
last_of_two n none = some n
last_of_two n (some m) = some (if ltb m n then n else m)

module _ {N : Type 0} where
  -- `func.min`, `func.max` over `fetched_at`: null on an empty table
  abbrev oldest : List (Transcript N) → Option ℕ
  oldest [] = none
  oldest (t ∷ ts) = first_of_two t.fetched_at (oldest ts)

  abbrev newest : List (Transcript N) → Option ℕ
  newest [] = none
  newest (t ∷ ts) = last_of_two t.fetched_at (newest ts)

  abbrev of_source : Source → List (Transcript N) → ℕ
  of_source s = count (λ t. same_source t.source s)

  -- `GROUP BY source`, the groups in the order of the type's constructors
  unfoldable pub by_source : List (Transcript N) → List (Source × ℕ)
  by_source ts = group youtube_captions (of_source youtube_captions ts) (
      group whisper_openai (of_source whisper_openai ts)
        (group whisper_local (of_source whisper_local ts) []))

  unfoldable pub stats : {Db : Type 0} → World N Db → CacheStats
  unfolding by_source
  stats w = record {
    total_rows = length w.transcripts;
    by_source = by_source w.transcripts;
    oldest_cached_at = oldest w.transcripts;
    newest_cached_at = newest w.transcripts;
  }

abbrev pub sum_groups : List (Source × ℕ) → ℕ
sum_groups [] = 0
sum_groups ((s, n) ∷ rest) = n + sum_groups rest

-- The first number is there and at most the second.
abbrev pub AtMost : Option ℕ → ℕ → Type 0
AtMost none n = ⊥
AtMost (some a) n = a ≤ n

abbrev pub AtLeast : Option ℕ → ℕ → Type 0
AtLeast none n = ⊥
AtLeast (some b) n = n ≤ b

first_head : (n : ℕ) (o : Option ℕ) → AtMost (first_of_two n o) n
first_head n none = omega arith
first_head n (some m) = ground arith

first_tail : (n : ℕ) (o : Option ℕ) (k : ℕ) → AtMost o k → AtMost (first_of_two n o) k
first_tail n none k h = absurd h
first_tail n (some m) k h = ground arith

last_head : (n : ℕ) (o : Option ℕ) → AtLeast (last_of_two n o) n
last_head n none = omega arith
last_head n (some m) = ground arith

last_tail : (n : ℕ) (o : Option ℕ) (k : ℕ) → AtLeast o k → AtLeast (last_of_two n o) k
last_tail n none k h = absurd h
last_tail n (some m) k h = ground arith

sum-group :
    (s : Source) (n : ℕ) (rest : List (Source × ℕ))
    → sum_groups (group s n rest) ≡ n + sum_groups rest
sum-group s zero rest = omega arith
sum-group s (suc n) rest = refl

module _ {N : Type 0} where
  of_source-total :
      (ts : List (Transcript N))
      → of_source youtube_captions ts + (of_source whisper_openai ts + of_source whisper_local ts)
        ≡ length ts
  of_source-total [] = refl
  of_source-total (t ∷ ts) = split t.source (of_source-total ts) refl
    where
      split :
          (s : Source)
          → of_source youtube_captions ts
              + (of_source whisper_openai ts + of_source whisper_local ts)
            ≡ length ts
          → t.source ≡ s
          → of_source youtube_captions (t ∷ ts)
              + (of_source whisper_openai (t ∷ ts) + of_source whisper_local (t ∷ ts))
            ≡ length (t ∷ ts)
      split youtube_captions ih e = rw e (omega (arith, ih))
      split whisper_openai ih e = rw e (omega (arith, ih))
      split whisper_local ih e = rw e (omega (arith, ih))

  sum-by_source : (ts : List (Transcript N)) → sum_groups (by_source ts) ≡ length ts
  unfolding by_source
  sum-by_source ts = rw (sum-group, sum-group, sum-group) (omega (arith, of_source-total ts))

  oldest-le : (ts : List (Transcript N)) → All (λ t. AtMost (oldest ts) t.fetched_at) ts
  oldest-le [] = tt
  oldest-le (t ∷ ts) = (
    first_head t.fetched_at (oldest ts),
    All-map ts (λ u. first_tail t.fetched_at (oldest ts) u.fetched_at) (oldest-le ts),
  )

  le-newest : (ts : List (Transcript N)) → All (λ t. AtLeast (newest ts) t.fetched_at) ts
  le-newest [] = tt
  le-newest (t ∷ ts) = (
    last_head t.fetched_at (newest ts),
    All-map ts (λ u. last_tail t.fetched_at (newest ts) u.fetched_at) (le-newest ts),
  )

  -- The counts by source add up to the number of rows, and every row was fetched between the oldest
  -- and the newest time that are reported.
  pub stats-total :
      {Db : Type 0} (w : World N Db)
      → (sum_groups (stats w).by_source ≡ (stats w).total_rows)
        × All
            (λ t.
              AtMost (stats w).oldest_cached_at t.fetched_at
              × AtLeast (stats w).newest_cached_at t.fetched_at)
            w.transcripts
  unfolding stats
  stats-total w = (
    sum-by_source w.transcripts,
    All-both _ _ w.transcripts (oldest-le w.transcripts) (le-newest w.transcripts),
  )
