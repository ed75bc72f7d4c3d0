-- ===== src/Webhooks/Attempts.antt =====
-- One attempt on a delivery, of app/webhooks/worker.py, by what its request met.
use custom_domain.Common.{
  ℕ, zero, suc, ◌+◌, ◌-◌, ◌/◌, ◌≤◌, ◌<◌, ◌≡◌, ◌↔◌, refl, inl, inr, Bool, true, ◌&&◌, leb, min,
  Option, none, some, is_none, List, [], ◌∷◌, length, All, Text, Time, minutes, hours, arith,
  Bool-cases,
}
use custom_domain.Model.{WebhookSubscription, WebhookPayload, WebhookDelivery}
use custom_domain.Webhooks.Delivery.{
  retry_backoff, retry_entry, Sent, answered, crashed, succeeded, AttemptOutcome, finish_attempt,
  abandon, send, attempt_row,
}

abbrev pub is_pending_delivery : WebhookDelivery → Bool
is_pending_delivery v = is_none v.delivered_at && is_none v.abandoned_at

retry_entry-All {κ} :
    (P : Time → Type κ) (index : ℕ) (ts : List Time)
    → All P ts
    → index < length ts
    → P (retry_entry index ts)
unfolding retry_entry
retry_entry-All P index [] a h = absurd (omega arith)
retry_entry-All P zero (t ∷ ts) a h = a.0
retry_entry-All P (suc index) (t ∷ ts) a h = retry_entry-All P index ts a.1 (omega arith)

abbrev Spaced : Time → Type 0
Spaced t = (minutes 1 ≤ t) × (t ≤ hours 24)

retry_backoff-Spaced : All Spaced retry_backoff
retry_backoff-Spaced = omega arith

-- An answer with a status of the class 2xx.
abbrev pub Welcome : Option Sent → Type 0
Welcome (some (answered status text)) = status / 100 ≡ 2
Welcome _ = ⊥

-- What an attempt on a delivery leaves, by its outcome and by what the request met: `none` where there was no request.
abbrev pub Left : Option Sent → AttemptOutcome → Time → WebhookDelivery → WebhookDelivery → Type 0
Left met AttemptOutcome.skipped now v v' = ⊥
Left met AttemptOutcome.delivered now v v' =
    Welcome met × (v'.delivered_at ≡ some now) × (v'.next_attempt_at ≡ none)
Left none AttemptOutcome.abandoned now v v' =
    (v'.abandoned_at ≡ some now) × (v'.attempts ≡ v.attempts)
Left (some sent) AttemptOutcome.abandoned now v v' =
    (Welcome (some sent) → ⊥)
    × (7 ≤ v.attempts)
    × (v'.abandoned_at ≡ some now)
    × (v'.next_attempt_at ≡ none)
Left none AttemptOutcome.retry now v v' = ⊥
Left (some sent) AttemptOutcome.retry now v v' =
    (Welcome (some sent) → ⊥)
    × ((at : Time) × (v'.next_attempt_at ≡ some at)
        × (now + minutes 1 ≤ at)
        × (at ≤ now + hours 24)
        × (is_pending_delivery v' ≡ is_pending_delivery v)
        × (v'.attempts ≡ suc v.attempts)
        × (v'.attempts < 8))

succeeded-Welcome : (sent : Sent) → (succeeded sent ≡ true) ↔ Welcome (some sent)
succeeded-Welcome (answered status text) = (λ h. ground arith, λ h. ground arith)
succeeded-Welcome (crashed text) = (λ h. cc, λ h. absurd h)

module _ (hmac : Text → Text → Text) (dumps : WebhookPayload → Text) (unix : Time → ℕ)
    (sender : Text → Text → Text → Sent) (message : Sent → Text) where
  finish_attempt-Left :
      (sent : Sent) (now : Time) (v : WebhookDelivery)
      → Left
          (some sent)
          (finish_attempt message sent now v).0
          now
          v
          (finish_attempt message sent now v).1
  unfolding finish_attempt
  finish_attempt-Left sent now v = elim (Bool-cases (succeeded sent)) [
    | inl t ↦ rw t ((succeeded-Welcome sent).0 t, refl, refl)
    | inr f ↦
        let refused : Welcome (some sent) → ⊥ =
          λ w. let t = (succeeded-Welcome sent).1 w in ground arith in
        elim (Bool-cases (leb 8 (v.attempts + 1))) [
          | inl t ↦ rw (f, t) (refused, ground arith, refl, refl)
          | inr g ↦
              let index = min (v.attempts + 1) 6 - 1 in
              let spaced =
                retry_entry-All Spaced index retry_backoff retry_backoff-Spaced (omega arith) in
              rw (f, g)
                (
                  refused,
                  (
                    now + retry_entry index retry_backoff,
                    refl,
                    omega (arith, spaced.0),
                    omega (arith, spaced.1),
                    refl,
                    omega arith,
                    ground arith,
                  ),
                )
        ]
  ]

  -- What the request of a delivery meets, if its subscription is active.
  abbrev pub met : Option WebhookSubscription → Time → WebhookDelivery → Option Sent
  met none now v = none
  met (some s) now v = some (send hmac dumps unix sender message s now v)

  -- An attempt leaves a delivery delivered only if the request was answered with a status of the class 2xx; abandoned only if there
  -- was no active subscription, or the request met anything else and seven attempts came before; and otherwise pending with one
  -- attempt more, fewer than eight in all, and due again after at least one minute and at most 24 hours.
  pub attempt_row-Left :
      (s : Option WebhookSubscription) (now : Time) (v : WebhookDelivery)
      → let r = attempt_row hmac dumps unix sender message s now v in
        Left (met s now v) r.0 now v r.1
  unfolding attempt_row abandon
  attempt_row-Left none now v = (refl, refl)
  attempt_row-Left (some s) now v =
      finish_attempt-Left (send hmac dumps unix sender message s now v) now v
