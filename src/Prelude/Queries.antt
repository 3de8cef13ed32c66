-- ===== src/Prelude/Queries.antt =====
-- What a query finds after an update or a deletion.
use mathlib.Core.Path.{◌≡◌, refl}
use mathlib.Core.Bool.{Bool, true, false, ◌&&◌}
use mathlib.Core.Logic.{inl, inr}
use mathlib.Core.List.{List, [], ◌∷◌}
use mathlib.Core.Option.{none, some}
use native.Mathlib.Omega.{arith}
use yt_service.Prelude.Tests.{Bool-cases}
use yt_service.Prelude.Lists.{find, select, update}

module _ {ℓ} {A : Type ℓ} (p q : A → Bool) where
  -- The rewritten rows still pass, and pass a second test too.
  pub find-update :
      (g : A → A) (xs : List A) (x : A)
      → ((a : A) → p a ≡ true → (p (g a) && q (g a)) ≡ true)
      → find p xs ≡ some x
      → find (λ a. p a && q a) (update p g xs) ≡ some (g x)
  find-update g [] x keeps h = cc
  find-update g (a ∷ xs) x keeps h = elim (Bool-cases (p a)) [
    | inl e ↦ rw (e, keeps a e) (ground (arith, e, h))
    | inr e ↦ rw (e, e) (find-update g xs x keeps (rw e at h))
  ]

  -- No row passes where each that passes the first test, and only such, is rewritten to fail.
  pub find-update_dead :
      (g : A → A) (xs : List A)
      → ((a : A) → p a ≡ true → q (g a) ≡ false)
      → find (λ a. p a && q a) (update p g xs) ≡ none
  find-update_dead g [] dead = refl
  find-update_dead g (a ∷ xs) dead = elim (Bool-cases (p a)) [
    | inl e ↦ ground (arith, e, dead a e, find-update_dead g xs dead)
    | inr e ↦ ground (arith, e, find-update_dead g xs dead)
  ]

  -- A row that the update touches is not in the query, before or after.
  pub find-update_other :
      (g : A → A) (xs : List A)
      → ((a : A) → p a ≡ true → q a ≡ false)
      → ((a : A) → p a ≡ true → q (g a) ≡ false)
      → find q (update p g xs) ≡ find q xs
  find-update_other g [] before after = refl
  find-update_other g (a ∷ xs) before after = elim (Bool-cases (p a)) [
    | inl e ↦ ground (arith, e, before a e, after a e, find-update_other g xs before after)
    | inr e ↦ ground (arith, e, find-update_other g xs before after)
  ]

  -- A row that the query finds is kept.
  pub find-select :
      (xs : List A) → ((a : A) → q a ≡ true → p a ≡ true) → find q (select p xs) ≡ find q xs
  find-select [] keeps = refl
  find-select (a ∷ xs) keeps = elim (Bool-cases (p a)) [
    | inl e ↦ ground (arith, e, find-select xs keeps)
    | inr e ↦ ground (arith, e, keeps a, find-select xs keeps)
  ]

  -- A row that the query finds is deleted.
  pub find-select-none :
      (xs : List A) → ((a : A) → p a ≡ true → q a ≡ false) → find q (select p xs) ≡ none
  find-select-none [] drops = refl
  find-select-none (a ∷ xs) drops = elim (Bool-cases (p a)) [
    | inl e ↦ ground (arith, e, drops a e, find-select-none xs drops)
    | inr e ↦ ground (arith, e, find-select-none xs drops)
  ]

  pub find-and-none : (xs : List A) → find p xs ≡ none → find (λ a. p a && q a) xs ≡ none
  find-and-none [] h = refl
  find-and-none (a ∷ xs) h = elim (Bool-cases (p a)) [
    | inl e ↦ ground (arith, e)
    | inr e ↦ ground (arith, e, find-and-none xs)
  ]

module _ {ℓ} {A : Type ℓ} where
  -- The row that is found is the rewritten one.
  pub find-update_self :
      (p : A → Bool) (g : A → A) (xs : List A) (x : A)
      → ((a : A) → p a ≡ true → p (g a) ≡ true)
      → find p xs ≡ some x
      → find p (update p g xs) ≡ some (g x)
  find-update_self p g [] x keeps h = cc
  find-update_self p g (a ∷ xs) x keeps h = elim (Bool-cases (p a)) [
    | inl e ↦ rw (e, keeps a e) (ground (arith, e, h))
    | inr e ↦ rw (e, e) (find-update_self p g xs x keeps (rw e at h))
  ]

  -- What the query finds passes its test.
  pub find_sound : (p : A → Bool) (xs : List A) (x : A) → find p xs ≡ some x → p x ≡ true
  find_sound p [] x h = cc
  find_sound p (a ∷ xs) x h = elim (Bool-cases (p a)) [
    | inl e ↦ ground (arith, e)
    | inr e ↦ find_sound p xs x (rw e at h)
  ]
