-- ===== src/Webhooks/DeliveryLaws.antt =====
-- Laws of the attempts of app/webhooks/worker.py.
use custom_domain.Common.{
  ℕ, ◌+◌, ◌-◌, ◌≤◌, ◌≡◌, not, ◌&&◌, ◌==◌, max, List, [], ◌∷◌, All, Text, Time, if◌then◌else◌,
}
use custom_domain.Model.{WebhookPayload, WebhookDelivery, Log}
use custom_domain.Webhooks.Delivery.{Sent, is_skipped, attempt_delivery}
use custom_domain.Webhooks.Attempts.{is_pending_delivery}

-- The attempts that a delivery has left, at most.
left : WebhookDelivery → ℕ
left v = if is_pending_delivery v then max 1 (8 - v.attempts) else 0

module _ (hmac : Text → Text → Text) (dumps : WebhookPayload → Text) (unix : Time → ℕ)
    (sender : Text → Text → Text → Sent) (message : Sent → Text) where
  -- Every row with an identifier has no more than so many attempts left.
  Bounded : ℕ → ℕ → Log → Type 0
  Bounded id k log = All (λ r. r.id ≡ id → left r ≤ k) log.deliveries

  -- The attempts on a delivery in a schedule of attempts on any deliveries, at any instants.
  pub tries : ℕ → List (ℕ × Time) → Log → ℕ
  tries id [] log = 0
  tries id ((i, now) ∷ rest) log =
      let (outcome, log') = attempt_delivery hmac dumps unix sender message i now log in
      (if i == id && not (is_skipped outcome) then 1 else 0) + tries id rest log'
