-- ===== src/Webhooks/Rotation.antt =====
-- `rotate_secret` of app/services/webhooks.py, as the consumer of the deliveries sees it.
use custom_domain.Common.{
  ℕ, suc, ◌+◌, ◌≤◌, ◌<◌, ◌≡◌, ◌==◌, ==_iff, ◌&&◌, refl, subst, inl, inr, Bool, Bool-cases, true,
  false, some, List, [], ◌∷◌, first, first_sound, update, member, Text, text_eq, text_eq_refl, Time,
  pos, arith,
}
use custom_domain.Errors.{ok}
use custom_domain.Model.{Application, WebhookSubscription, Log, is_active}
use custom_domain.Webhooks.Signature.{verified, distance, sign, verify}
use custom_domain.Webhooks.SignatureLaws.{Hexadecimal, verify-sign}
use custom_domain.Webhooks.Subscriptions.{
  Network, get_subscription, signing_secrets, put_subscription, rotate_secret,
}
use custom_domain.Webhooks.Delivery.{live_subscription}

-- The row that is read back under an identifier is the one that was written.
first-updated :
    (p : WebhookSubscription → Bool) (d : WebhookSubscription) (rows : List WebhookSubscription)
    {c : WebhookSubscription}
    → first p rows ≡ some c
    → ((r : WebhookSubscription) → p r ≡ true → (r.id == d.id) ≡ true)
    → d.id ≡ c.id
    → first (λ r. r.id == d.id) (update (λ r. r.id == d.id) (λ _. d) rows) ≡ some d
first-updated p d [] found own same = cc
first-updated p d (r ∷ rs) found own same = elim (Bool-cases (r.id == d.id)) [
  | inl t ↦ rw (t, (==_iff d.id d.id).1 refl) refl
  | inr f ↦
      let passed : p r ≡ false = elim (Bool-cases (p r)) [
        | inl y ↦ absurd (let q = own r y in ground arith)
        | inr n ↦ n
      ] in
      rw (f, f) (first-updated p d rs (rw passed at found) own same)
]

-- The worker reads an active row that was written.
live-put :
    (a : Application) (id : ℕ) (log : Log) {old : WebhookSubscription} (new : WebhookSubscription)
    → get_subscription a id log ≡ ok old
    → new.id ≡ old.id
    → is_active new ≡ true
    → live_subscription id (put_subscription new log) ≡ some new
unfolding get_subscription live_subscription
live-put a id log {old} new found same active =
    let p = λ (r : WebhookSubscription). r.id == id && r.application_id == a.id in
    let got : first p log.subscriptions ≡ some old = ground arith in
    let sound = first_sound p log.subscriptions got in
    let own : new.id ≡ id = ground (arith, ==_iff old.id id) in
    let written =
      first-updated p new log.subscriptions got (λ r h. ground (arith, ==_iff r.id id)) same in
    let read =
      subst
        (λ (i : ℕ).
          first (λ r. r.id == i) (update (λ r. r.id == new.id) (λ _. new) log.subscriptions)
          ≡ some new)
        own written in
    rw (live_subscription, read, active) refl

module _ (net : Network) (token_urlsafe : ℕ → ℕ → Text) where
  -- What the rotation left of the row.
  rotated :
      (a : Application) (id : ℕ) (grace now : Time) (log : Log) {old : WebhookSubscription}
      {out : WebhookSubscription × Log}
      → get_subscription a id log ≡ ok old
      → rotate_secret net token_urlsafe a id grace now log ≡ ok out
      → (out.0.previous_secret ≡ some old.secret)
        × (out.0.previous_secret_expires_at ≡ some (now + grace))
        × (out.0.id ≡ old.id)
        × (out.0.revoked_at ≡ old.revoked_at)
        × (record (put_subscription out.0 log) { next_id = suc log.next_id } ≡ out.1)
  unfolding rotate_secret
  rotated a id grace now log found h = ground arith

  current-signs :
      (s : WebhookSubscription) (at : Time) → member s.secret (signing_secrets s at) ≡ true
  unfolding signing_secrets
  current-signs s at = ground (arith, text_eq_refl s.secret)

  previous-signs :
      (s : WebhookSubscription) (previous : Text) (until at : Time)
      → s.previous_secret ≡ some previous
      → s.previous_secret_expires_at ≡ some until
      → text_eq previous [] ≡ false
      → at < until
      → member previous (signing_secrets s at) ≡ true
  unfolding signing_secrets
  previous-signs s previous until at p u e l = ground (arith, text_eq_refl previous)

  -- Where digests are hexadecimal texts: after a secret of an active subscription that is not empty was rotated, the worker reads the
  -- rotated subscription, and a delivery that it signs before the end of the grace period is verified by a consumer that holds
  -- either secret alone, the old one or the new one, whatever the body, if the consumer's clock is within the tolerance of the
  -- timestamp.
  pub rotation_keeps_consumers :
      (hmac : Text → Text → Text)
      → Hexadecimal hmac
      → (a : Application) (id : ℕ) (grace now : Time) (log : Log) {old : WebhookSubscription}
        {out : WebhookSubscription × Log}
      → get_subscription a id log ≡ ok old
      → is_active old ≡ true
      → text_eq old.secret [] ≡ false
      → rotate_secret net token_urlsafe a id grace now log ≡ ok out
      → (at : Time) (body : Text) (stamp current tolerance : ℕ) → at < now + grace
      → distance current (pos stamp) ≤ tolerance
      → (s : WebhookSubscription) × (live_subscription id out.1 ≡ some s)
        × (s.secret ≡ out.0.secret)
        × (let header = sign hmac body (signing_secrets s at) stamp in
            (verify hmac (some header) body (old.secret ∷ []) current tolerance
              ≡ verified (pos stamp))
            × (verify hmac (some header) body (out.0.secret ∷ []) current tolerance
                ≡ verified (pos stamp)))
  unfolding get_subscription is_active
  rotation_keeps_consumers hmac hex a id grace now log {old} {out} found active some_secret h at
        body stamp current tolerance early near =
      let (previous, until, same, still, written) = rotated a id grace now log found h in
      let old_signs =
        previous-signs out.0 old.secret (now + grace) at previous until some_secret early in
      (
        out.0,
        subst (λ l. live_subscription id l ≡ some out.0) written
            (live-put a id (record log { next_id = suc log.next_id }) {old = old} out.0 found same
              (rw still active)),
        refl,
        (
          verify-sign hmac hex body (signing_secrets out.0 at) (old.secret ∷ []) stamp current
              tolerance (rw old_signs refl) near,
          verify-sign hmac hex body (signing_secrets out.0 at) (out.0.secret ∷ []) stamp current
              tolerance (rw (current-signs out.0 at) refl) near,
        ),
      )
