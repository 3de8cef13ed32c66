-- ===== src/Prelude/Outcomes.antt =====
-- Code that may raise: what it returns or raises, and, where it has a state, the state beside it,
-- since what was written before a raise stays written.

pub data Outcome {ℓ κ} (E : Type ℓ) (A : Type κ) : Type (ℓ ⊔ κ) where
  ok : A → Outcome E A
  raise : E → Outcome E A

infixl 5 ◌>>=◌ ◌>>◌
abbrev pub ◌>>=◌ {ℓ κ ν} :
    {E : Type ℓ} {A : Type κ} {B : Type ν} → Outcome E A → (A → Outcome E B) → Outcome E B
ok a >>= f = f a
raise e >>= f = raise e

abbrev pub ◌>>◌ {ℓ ν} : {E : Type ℓ} {B : Type ν} → Outcome E (Unit {0}) → Outcome E B → Outcome E B
m >> k = m >>= λ _. k
