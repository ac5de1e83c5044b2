-- ===== src/Payments/Once.antt =====
-- The events of Stripe, in any order: `handleStripeWebhookEvent` of
-- src/payments/payments.service.ts.
use verity_backend.Prelude.{
  ◌≡◌, refl, sym, ap, ◌∙◌, Bool, true, Option, none, some, List, [], ◌∷◌, find, is_some,
}
use verity_backend.Exec.{Result, ok, err, continue}
use verity_backend.Schema.{TokenTransaction}
use verity_backend.World.{Servers, World}
use verity_backend.Payments.Webhook.{
  Purchase, purchase_of, StripeEvent, credit, report_purchase, handle_purchase,
  handle_stripe_webhook_event,
}
use verity_backend.Payments.Credit.{
  of_event, has_transaction, credit_known, has-credit, has-credited,
}

module _ {b : Servers} where
  -- The users and the transactions of the database.
  abbrev pub accounts : World b → b.users.State × b.transactions.State
  accounts w = (w.users, w.transactions)

  -- The events that Stripe delivers, one after the other, whatever the reply.
  abbrev pub deliver : List StripeEvent → World b → World b
  deliver [] w = w
  deliver (e ∷ es) w = deliver es (handle_stripe_webhook_event e w).1

  pub no_purchase : (w : World b) → handle_purchase none w ≡ (ok tt, w)
  unfolding handle_purchase
  no_purchase w = refl

  continue-accounts :
      (p : Purchase) (r : Result (Unit {0})) (w : World b)
      → accounts (continue r (λ _. report_purchase p) w).1 ≡ accounts w
  unfolding report_purchase
  continue-accounts p (ok _) w = refl
  continue-accounts p (err e) w = refl

  continue-reply :
      (p : Purchase) (r : Result (Unit {0})) (w : World b)
      → (continue r (λ _. report_purchase p) w).0 ≡ r
  unfolding report_purchase
  continue-reply p (ok _) w = refl
  continue-reply p (err e) w = refl

  pub accounts-handle :
      (p : Purchase) (w : World b)
      → accounts (handle_purchase (some p) w).1 ≡ accounts (credit p w).1
  unfolding handle_purchase
  accounts-handle p w = continue-accounts p (credit p w).0 (credit p w).1

  pub reply-handle : (p : Purchase) (w : World b) → (handle_purchase (some p) w).0 ≡ (credit p w).0
  unfolding handle_purchase
  reply-handle p w = continue-reply p (credit p w).0 (credit p w).1

  has_transaction-accounts :
      (q : TokenTransaction → Bool) (v w : World b)
      → accounts v ≡ accounts w
      → has_transaction q v ≡ has_transaction q w
  has_transaction-accounts q v w h = ap (λ a. is_some (find q (b.transactions.rows a.1))) h

  has-handle :
      (q : TokenTransaction → Bool) (o : Option Purchase) (w : World b)
      → has_transaction q w ≡ true
      → has_transaction q (handle_purchase o w).1 ≡ true
  has-handle q none w h = rw (no_purchase w) h
  has-handle q (some p) w h =
      has_transaction-accounts q (handle_purchase (some p) w).1 (credit p w).1 (accounts-handle p w)
      ∙ has-credit q p w h

  has-deliver :
      (q : TokenTransaction → Bool) (es : List StripeEvent) (w : World b)
      → has_transaction q w ≡ true
      → has_transaction q (deliver es w) ≡ true
  unfolding handle_stripe_webhook_event
  has-deliver q [] w h = h
  has-deliver q (e ∷ es) w h =
      has-deliver q es (handle_purchase (purchase_of e) w).1 (has-handle q (purchase_of e) w h)

  handle_again :
      (o : Option Purchase) (es : List StripeEvent) (w : World b)
      → (handle_purchase o w).0 ≡ ok tt
      → let w' = deliver es (handle_purchase o w).1 in
        accounts (handle_purchase o w').1 ≡ accounts w'
  handle_again none es w h =
      ap (λ r. accounts r.1) (no_purchase (deliver es (handle_purchase none w).1))
  handle_again (some p) es w h =
      let known = has-deliver (of_event p.event) es (handle_purchase (some p) w).1 (
        has_transaction-accounts (of_event p.event) (handle_purchase (some p) w).1 (credit p w).1
          (accounts-handle p w)
        ∙ has-credited p w (sym (reply-handle p w) ∙ h)) in
      let w' = deliver es (handle_purchase (some p) w).1 in
      accounts-handle p w' ∙ ap (λ r. accounts r.1) (credit_known p w' known)

  -- When a Stripe event has been taken, its redelivery changes no balance and no transaction,
  -- whatever events came in between.
  pub deliver-again :
      (e : StripeEvent) (es : List StripeEvent) (w : World b)
      → (handle_stripe_webhook_event e w).0 ≡ ok tt
      → let w' = deliver es (handle_stripe_webhook_event e w).1 in
        accounts (handle_stripe_webhook_event e w').1 ≡ accounts w'
  unfolding handle_stripe_webhook_event
  deliver-again e es w h = handle_again (purchase_of e) es w h
