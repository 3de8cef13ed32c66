-- ===== src/Webhooks/Bounds.antt =====
-- How often and how a webhook of src/app/webhooks.py is sent.
use yt_service.Prelude.{
  ℕ, zero, suc, ◌+◌, ◌-◌, ◌≤◌, ◌<◌, ◌≡◌, true, false, Bool-cases, Option, none, some, Option-cases,
  [], ◌∷◌, inl, inr, refl, sym, ap, ◌∙◌, arith, All, length, leb,
}
use yt_service.World.{Delivery}
use yt_service.Webhooks.{
  WebhookRequest, WebhookEnv, payload_of, request_of, sign_payload, retry_delay, maybe_retry,
  after_status, is_delivered, is_retryable_status, next_attempt,
}
use yt_service.Webhooks.Retries.{sent}

module _ (env : WebhookEnv) where
  -- A scheduled attempt is the next one of the same delivery, and the budget is not spent.
  record Continues (d : Delivery) (o : Option (ℕ × Delivery)) : Type 0 where
    pub step :
        (delay : ℕ) (next : Delivery)
        → o ≡ some (delay, next)
        → (next ≡ record d { attempt = d.attempt + 1 }) × (d.attempt < env.webhook_max_attempts)

  none-ne_some : (p : ℕ × Delivery) → ◌≡◌ {A = Option (ℕ × Delivery)} none (some p) → ⊥
  none-ne_some p e = cc

  Continues-none : (d : Delivery) → Continues d none
  Continues-none d = record { step = λ delay next e. absurd (none-ne_some (delay, next) e) }

  abbrev next_of : Delivery → Option (ℕ × Delivery) → Delivery
  next_of d none = d
  next_of d (some (delay, next)) = next

  maybe_retry-Continues : (d : Delivery) → Continues d (maybe_retry env d)
  unfolding maybe_retry
  maybe_retry-Continues d = elim (Bool-cases (leb env.webhook_max_attempts d.attempt)) [
    | inl e ↦ rw e (Continues-none d)
    | inr e ↦ rw e (record { step = λ delay next h. (sym (ap (next_of d) h), ground (arith, e)) })
  ]

  next_attempt-Continues : (d : Delivery) → Continues d (next_attempt env d)
  unfolding next_attempt
  next_attempt-Continues d = status-Continues (env.post (request_of env d))
    where
      status-Continues : (o : Option ℕ) → Continues d (after_status env o d)
      status-Continues none = maybe_retry-Continues d
      status-Continues (some code) = elim (Bool-cases (is_delivered code)) [
        | inl e ↦ rw e (Continues-none d)
        | inr e ↦ elim (Bool-cases (is_retryable_status code)) [
          | inl r ↦ rw (e, r) (maybe_retry-Continues d)
          | inr r ↦ rw (e, r) (Continues-none d)
        ]
      ]

  -- By cases on what the attempt schedules.
  sent-stop :
      (n : ℕ) (d : Delivery)
      → next_attempt env d ≡ none
      → sent env (suc n) d ≡ request_of env d ∷ []
  unfolding sent
  sent-stop n d e = rw (e, sent) refl

  sent-go :
      (n delay : ℕ) (d next : Delivery)
      → next_attempt env d ≡ some (delay, next)
      → sent env (suc n) d ≡ request_of env d ∷ sent env n (record d { attempt = d.attempt + 1 })
  unfolding sent
  sent-go n delay d next e = rw (e, sent, ((next_attempt-Continues d).step delay next e).0) refl

  bounded :
      (n : ℕ) (d : Delivery) → length (sent env n d) ≤ 1 + (env.webhook_max_attempts - d.attempt)
  bounded zero d = unfold sent in omega arith
  bounded (suc n) d = elim (Option-cases (next_attempt env d)) [
    | inl e ↦ rw (sent-stop n d e) (omega arith)
    | inr ((delay, next), e) ↦
        let left = ((next_attempt-Continues d).step delay next e).1 in
        rw (sent-go n delay d next e)
          (omega (arith, left, bounded n (record d { attempt = d.attempt + 1 })))
  ]

  settled :
      (n k : ℕ) (d : Delivery)
      → env.webhook_max_attempts ≤ n + d.attempt
      → sent env (suc (n + k)) d ≡ sent env (suc n) d
  settled zero k d h = elim (Option-cases (next_attempt env d)) [
    | inl e ↦ rw (sent-stop _ d e, sent-stop zero d e) refl
    | inr ((delay, next), e) ↦
        absurd (omega (arith, h, ((next_attempt-Continues d).step delay next e).1))
  ]
  settled (suc n) k d h = elim (Option-cases (next_attempt env d)) [
    | inl e ↦ rw (sent-stop _ d e, sent-stop (suc n) d e) refl
    | inr ((delay, next), e) ↦
        let d' : Delivery = record d { attempt = d.attempt + 1 } in
        let one_more : suc n + k ≡ suc (n + k) = omega arith in
        sent-go (suc n + k) delay d next e
        ∙ ap (λ m. request_of env d ∷ sent env m d') one_more
        ∙ ap (λ qs. request_of env d ∷ qs) (settled n k d' (omega (arith, h)))
        ∙ sym (sent-go (suc n) delay d next e)
  ]

  -- A delivery is sent at most once for each attempt that its budget still has, beside the first, and
  -- once the worker may run that often it sends nothing more however long it may run.
  pub length-sent_le :
      (n k : ℕ) (d : Delivery)
      → (length (sent env n d) ≤ 1 + (env.webhook_max_attempts - d.attempt))
        × (env.webhook_max_attempts ≤ n + d.attempt → sent env (suc (n + k)) d ≡ sent env (suc n) d)
  length-sent_le n k d = (bounded n d, settled n k d)

  failing :
      (d : Delivery) → env.post (request_of env d) ≡ none → next_attempt env d ≡ maybe_retry env d
  unfolding next_attempt
  failing d h = rw h refl

  last : (d : Delivery) → leb env.webhook_max_attempts d.attempt ≡ true → maybe_retry env d ≡ none
  unfolding maybe_retry
  last d h = rw h refl

  retried :
      (d : Delivery)
      → leb env.webhook_max_attempts d.attempt ≡ false
      → maybe_retry env d ≡ some (retry_delay d.attempt, record d { attempt = d.attempt + 1 })
  unfolding maybe_retry
  retried d h = rw h refl

  -- A delivery whose receiver never answers is sent once for every attempt of its budget, if the worker
  -- may run that often.
  pub length-sent_failing :
      (n : ℕ) (d : Delivery)
      → ((q : WebhookRequest) → env.post q ≡ none)
      → env.webhook_max_attempts ≤ n + d.attempt
      → length (sent env (suc n) d) ≡ 1 + (env.webhook_max_attempts - d.attempt)
  length-sent_failing zero d fails h = elim (Bool-cases (leb env.webhook_max_attempts d.attempt)) [
    | inl e ↦ rw (sent-stop zero d (failing d (fails _) ∙ last d e)) (ground (arith, e))
    | inr e ↦ absurd (ground (arith, e, h))
  ]
  length-sent_failing (suc n) d fails h =
      elim (Bool-cases (leb env.webhook_max_attempts d.attempt)) [
        | inl e ↦ rw (sent-stop (suc n) d (failing d (fails _) ∙ last d e)) (ground (arith, e))
        | inr e ↦
            rw
              (sent-go (suc n) (retry_delay d.attempt) d (record d { attempt = d.attempt + 1 })
                (failing d (fails _) ∙ retried d e))
              (ground (
                arith,
                e,
                h,
                length-sent_failing n (record d { attempt = d.attempt + 1 }) fails
                    (omega (arith, h)),
              ))
      ]

  abbrev pub IsSigned : Delivery → WebhookRequest → Type 0
  IsSigned d q =
      (q.url ≡ d.callback_url)
      × (q.content ≡ env.serialize_body (payload_of d))
      × (q.signature ≡ sign_payload env d.secret q.content)

  request_of-IsSigned : (d : Delivery) → IsSigned d (request_of env d)
  unfolding request_of
  request_of-IsSigned d = (refl, refl, refl)

  -- Every request of a delivery goes to its address with the same body, signed with its secret.
  pub sent-IsSigned : (n : ℕ) (d : Delivery) → All (IsSigned d) (sent env n d)
  sent-IsSigned zero d = unfold sent in tt
  sent-IsSigned (suc n) d = elim (Option-cases (next_attempt env d)) [
    | inl e ↦ rw (sent-stop n d e) (request_of-IsSigned d, tt)
    | inr ((delay, next), e) ↦
        rw (sent-go n delay d next e)
          (request_of-IsSigned d, sent-IsSigned n (record d { attempt = d.attempt + 1 }))
  ]
