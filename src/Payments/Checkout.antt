-- ===== src/Payments/Checkout.antt =====
-- The balance, the token packs and the checkout of src/payments/payments.service.ts. Stripe's calls
-- are parameters.
use verity_backend.Prelude.{
  ℕ, Option, none, some, List, [], ◌∷◌, ◌==◌, find, if◌then◌else◌, get_or_else,
}
use verity_backend.Exec.{
  Result, ok, err, Exec, user_not_found, unknown_pack, missing_price, missing_secret,
  missing_signature,
}
use verity_backend.Schema.{Event, track}
use verity_backend.World.{Servers, World, send}

-- The texts 'starter', 'plus' and 'pro'.
pub record TokenPack : Type 0 where
  pub id : ℕ
  pub tokens : ℕ

abbrev pub token_packs : List TokenPack
token_packs =
    record { id = 2; tokens = 5 }
    ∷ record { id = 4; tokens = 15 }
    ∷ record { id = 6; tokens = 30 }
    ∷ []

abbrev pub pack_or_error : Option TokenPack → Result TokenPack
pack_or_error none = err unknown_pack
pack_or_error (some pack) = ok pack

unfoldable pub get_pack : ℕ → Result TokenPack
get_pack id = pack_or_error (find (λ p. p.id == id) token_packs)

-- What is sent to Stripe, and what Stripe replies.
pub record CheckoutRequest : Type 0 where
  pub price : ℕ
  pub success_url : ℕ
  pub cancel_url : ℕ
  pub user : ℕ
  pub pack : ℕ
  pub tokens : ℕ

pub record CheckoutReply : Type 0 where
  pub session_id : ℕ
  pub url : ℕ

-- The environment: the URLs, the price of a pack (the empty text is 0), and the webhook's secret.
pub record StripeEnv : Type 0 where
  pub success_url : Option ℕ
  pub cancel_url : Option ℕ
  pub price_of : ℕ → Option ℕ
  pub webhook_secret : Option ℕ

abbrev pub default_success_url : ℕ
default_success_url = 8

abbrev pub default_cancel_url : ℕ
default_cancel_url = 10

-- A text that is set and not empty.
abbrev pub non_empty : Option ℕ → Option ℕ
non_empty none = none
non_empty (some n) = if n == 0 then none else some n

abbrev pub request_for : StripeEnv → ℕ → TokenPack → ℕ → CheckoutRequest
request_for env user pack price = record {
  price = price;
  success_url = get_or_else env.success_url default_success_url;
  cancel_url = get_or_else env.cancel_url default_cancel_url;
  user = user;
  pack = pack.id;
  tokens = pack.tokens;
}

module _ {b : Servers} where
  unfoldable pub get_balance : ℕ → Exec (World b) ℕ
  get_balance user w = elim (b.users.find_first (λ u. u.id == user) w.users) [
    | none ↦ (err user_not_found, w)
    | some u ↦
        (ok u.token_balance, send (track user (Event.token_balance_viewed u.token_balance) ∷ []) w)
  ]

  unfoldable pub create_checkout_session :
      StripeEnv → (CheckoutRequest → CheckoutReply) → ℕ → ℕ → Exec (World b) CheckoutReply
  unfolding get_pack
  create_checkout_session env stripe user pack_id w = elim (get_pack pack_id) [
    | err e ↦ (err e, w)
    | ok pack ↦ elim (non_empty (env.price_of pack.id)) [
      | none ↦ (err missing_price, w)
      | some price ↦
          let reply = stripe (request_for env user pack price) in
          (
            ok reply,
            send
                (track user (Event.token_purchase_started pack.id pack.tokens reply.session_id)
                  ∷ [])
                w,
          )
    ]
  ]

-- `construct` is Stripe's check of a payload, a signature and the secret, which may throw.
unfoldable pub verify_stripe_signature :
    {Payload StripeEvent : Type 0}
    → StripeEnv
    → (Payload → ℕ → ℕ → Result StripeEvent)
    → Payload
    → Option ℕ
    → Result StripeEvent
verify_stripe_signature env construct payload signature = elim (non_empty env.webhook_secret) [
  | none ↦ err missing_secret
  | some secret ↦ elim (non_empty signature) [
    | none ↦ err missing_signature
    | some sig ↦ construct payload sig secret
  ]
]
