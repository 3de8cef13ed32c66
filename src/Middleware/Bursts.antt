-- ===== src/Middleware/Bursts.antt =====
-- How many requests of a burst src/app/middleware.py lets through in one window.
use text.Mathlib.TextEquality.{eq_iff}
use yt_service.Prelude.{
  ℕ, zero, suc, ◌+◌, ◌-◌, ◌≡◌, ◌≢◌, String, true, false, Bool-cases, ◌⊎◌, inl, inr, refl, ◌∙◌,
  arith, Outcome, ok, raise, ltb, ◌==◌, min, str_eq, if◌then◌else◌,
}
use yt_service.Errors.{Error}
use yt_service.Middleware.Keys.{is_plain, rate_limit_key-injective}
use yt_service.Middleware.{Counters, rate_limit_key, enforce_rate_limit}

module _ (c : Counters) (limit window : ℕ) (category principal : String) where
  abbrev pub key : String
  key = rate_limit_key category principal

  abbrev pub passes : Outcome Error (Unit {0}) → ℕ
  passes (ok u) = 1
  passes (raise e) = 0

  -- So many requests one after the other: the number that passes, and the counters.
  abbrev pub burst : ℕ → c.Db → ℕ × c.Db
  burst zero d = (0, d)
  burst (suc n) d =
      let out = enforce_rate_limit c limit window category principal d in
      let rest = burst n out.1 in (passes out.0 + rest.0, rest.1)

  value-enforce :
      (d : c.Db) (j : String)
      → c.value (enforce_rate_limit c limit window category principal d).1 j
        ≡ (if str_eq key j then suc (c.value d key) else c.value d j)
  unfolding enforce_rate_limit
  value-enforce d j = elim (Bool-cases (ltb limit (c.incr d key).0)) [
    | inl e ↦ rw e (counted (Bool-cases ((c.incr d key).0 == 1)))
    | inr e ↦ rw e (counted (Bool-cases ((c.incr d key).0 == 1)))
  ]
    where
      counted :
          (((c.incr d key).0 == 1) ≡ true) ⊎ (((c.incr d key).0 == 1) ≡ false)
          → c.value
              (if (c.incr d key).0 == 1
                then c.expire (c.incr d key).1 key window
                else (c.incr d key).1)
              j
            ≡ (if str_eq key j then suc (c.value d key) else c.value d j)
      counted (inl e) = rw e (c.value-expire (c.incr d key).1 key window j ∙ c.value-incr d key j)
      counted (inr e) = rw e (c.value-incr d key j)

  passes-enforce :
      (d : c.Db)
      → passes (enforce_rate_limit c limit window category principal d).0
        ≡ (if ltb limit (suc (c.value d key)) then 0 else 1)
  unfolding enforce_rate_limit
  passes-enforce d = elim (Bool-cases (ltb limit (suc (c.value d key)))) [
    | inl e ↦ rw (c.incr-count d key, e) refl
    | inr e ↦ rw (c.incr-count d key, e) refl
  ]

  value_self :
      (d : c.Db)
      → c.value (enforce_rate_limit c limit window category principal d).1 key ≡ suc (c.value d key)
  value_self d = ground (arith, value-enforce d key, eq_iff key key)

  burst-keys :
      (n : ℕ) (d : c.Db)
      → ((burst n d).0 ≡ min n (limit - c.value d key))
        × ((j : String) → key ≢ j → c.value (burst n d).1 j ≡ c.value d j)
  burst-keys zero d = (omega arith, λ j other. refl)
  burst-keys (suc n) d =
      let out = enforce_rate_limit c limit window category principal d in
      let rest = burst-keys n out.1 in
      (
        ground (arith, rest.0, value_self d, passes-enforce d),
        λ j other. rest.1 j other ∙ ground (arith, value-enforce d j, eq_iff key j, other),
      )

  -- Of a burst within one window as many requests pass as the limit has left; and the counters of every
  -- other category, and of every other principal, stay as they were. The categories have no colon.
  pub burst_passes :
      (n : ℕ) (d : c.Db)
      → is_plain category ≡ true
      → ((burst n d).0 ≡ min n (limit - c.value d key))
        × ((other stranger : String)
            → is_plain other ≡ true
            → (category ≢ other) ⊎ (principal ≢ stranger)
            → c.value (burst n d).1 (rate_limit_key other stranger)
              ≡ c.value d (rate_limit_key other stranger))
  burst_passes n d plain = (
    (burst-keys n d).0,
    λ other stranger plain' apart. (burst-keys n d).1 (rate_limit_key other stranger) (λ same.
        differs other stranger
          (rate_limit_key-injective category other principal stranger plain plain' same) apart),
  )
    where
      differs :
          (other stranger : String)
          → (category ≡ other) × (principal ≡ stranger)
          → (category ≢ other) ⊎ (principal ≢ stranger)
          → ⊥
      differs other stranger same (inl h) = h same.0
      differs other stranger same (inr h) = h same.1
