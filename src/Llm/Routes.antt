-- ===== src/Llm/Routes.antt =====
-- The routes of src/app/llm/routing.py against the tables of providers and prices.
use text.Mathlib.Text.{◌==◌}
use yt_service.Prelude.{
  String, Bool, true, false, Bool-cases, Option, none, some, Option-cases, ◌∷◌, ◌≡◌, refl, ap, inl,
  inr, arith, ◌&&◌, ◌||◌, All, is_empty, str_cat, split_once, split_once_sound,
}
use yt_service.Llm.{RouteEntry, task_routing, split_provider_model, api_key_field, prices}

abbrev has {ℓ} : {A : Type ℓ} → Option A → Bool
has none = false
has (some a) = true

-- The provider has a key's field, and the model has a price.
abbrev pub is_served : Option (String × String) → Bool
is_served none = false
is_served (some (provider, model)) = has (api_key_field provider) && has (prices model)

abbrev pub IsServed : Option RouteEntry → Type 0
IsServed none = Unit
IsServed (some route) =
    All (λ entry. is_served (split_provider_model entry) ≡ true) (route.primary ∷ route.fallbacks)

-- Every entry of every route names a provider that is registered and a model that has a price, so the
-- cap on the day's cost sees each routed call.
pub task_routing-IsServed : (task : String) → IsServed (task_routing task)
unfolding task_routing split_provider_model api_key_field prices
task_routing-IsServed task = elim (Bool-cases (task == "chapters")) [
  | inl e ↦ rw e (refl, (refl, (refl, tt)))
  | inr a ↦ elim (Bool-cases (task == "summarize")) [
    | inl e ↦ rw (a, e) (refl, (refl, (refl, tt)))
    | inr b ↦ elim (Bool-cases (task == "summarize_exec_deep")) [
      | inl e ↦ rw (a, b, e) (refl, (refl, (refl, tt)))
      | inr c ↦ elim (Bool-cases (task == "topics")) [
        | inl e ↦ rw (a, b, c, e) (refl, (refl, (refl, tt)))
        | inr d ↦ elim (Bool-cases (task == "sentiment")) [
          | inl e ↦ rw (a, b, c, d, e) (refl, (refl, tt))
          | inr g ↦ elim (Bool-cases (task == "diff")) [
            | inl e ↦ rw (a, b, c, d, g, e) (refl, (refl, (refl, tt)))
            | inr h ↦ rw (a, b, c, d, g, h) tt
          ]
        ]
      ]
    ]
  ]
]

abbrev left_part : Option (String × String) → String
left_part none = ""
left_part (some (p, m)) = p

abbrev right_part : Option (String × String) → String
right_part none = ""
right_part (some (p, m)) = m

none-ne_some : (p : String × String) → ◌≡◌ {A = Option (String × String)} none (some p) → ⊥
none-ne_some p e = cc

-- An entry that splits is its provider, a slash and its model, and neither is empty.
pub split_provider_model_sound :
    (entry provider model : String)
    → split_provider_model entry ≡ some (provider, model)
    → (entry ≡ str_cat provider (str_cat "/" model))
      × (is_empty provider ≡ false)
      × (is_empty model ≡ false)
unfolding split_provider_model
split_provider_model_sound entry provider model h = elim (Option-cases (split_once "/" entry)) [
  | inl n ↦ absurd (none-ne_some (provider, model) (rw (n, split_provider_model) at h))
  | inr ((p, m), n) ↦ elim (Bool-cases (is_empty p || is_empty m)) [
    | inl e ↦ absurd (none-ne_some (provider, model) (rw (n, split_provider_model, e) at h))
    | inr e ↦
        let parts = rw (n, split_provider_model, e) at h in
        rw (← ap left_part parts, ← ap right_part parts)
          (split_once_sound "/" entry p m n, ground (arith, e), ground (arith, e))
  ]
]
