-- ===== src/Notifications/Owner.antt =====
-- Who is notified through a device, by src/notifications/notifications.service.ts.
use verity_backend.Prelude.{
  ℕ, ◌≡◌, refl, ◌∙◌, Bool, true, false, ◌&&◌, ◌||◌, List, [], ◌∷◌, ◌++◌, map, filter, find, any,
  contains, ◌==◌, same_text, same_text_refl, trim, is_some, if◌then◌else◌, arith, Bool-cases, inl,
  inr,
}
use verity_backend.Schema.{PushToken}
use verity_backend.World.{Servers, World}
use verity_backend.Notifications.{
  RegisterPushToken, owned_by, is_active, Delivery, delivery_of, register_push_token, deliveries,
}

-- Whether a delivery goes to the device by this token, for the user.
abbrev pub is_delivered : ℕ → List ℕ → List Delivery → Bool
is_delivered user token ds = any (λ d. d.user == user && same_text d.token token) ds

-- Whether the row makes such a delivery.
abbrev delivers : List ℕ → ℕ → List ℕ → PushToken → Bool
delivers users user token t =
    (contains t.user users && is_active t) && (t.user == user && same_text t.token token)

is_delivered-rows :
    (users : List ℕ) (user : ℕ) (token : List ℕ) (ts : List PushToken)
    → is_delivered user token
        (map delivery_of (filter (λ t. contains t.user users && is_active t) ts))
      ≡ any (delivers users user token) ts
is_delivered-rows users user token [] = refl
is_delivered-rows users user token (t ∷ ts) = ground (arith, is_delivered-rows users user token ts)

module _ (users : List ℕ) (owner user : ℕ) (dto : RegisterPushToken) (now : ℕ)
    (token : List ℕ) where
  any-owned :
      (ts : List PushToken)
      → any
          (delivers users user token)
          (map (λ t. if same_text t.token token then owned_by owner dto now t else t) ts)
        ≡ (is_some (find (λ t. same_text t.token token) ts)
            && (contains owner users && (owner == user)))
  any-owned [] = refl
  any-owned (t ∷ ts) = ground (arith, any-owned ts)

any-unknown :
    (users : List ℕ) (user : ℕ) (token : List ℕ) (ts : List PushToken)
    → is_some (find (λ t. same_text t.token token) ts) ≡ false
    → any (delivers users user token) ts ≡ false
any-unknown users user token [] h = refl
any-unknown users user token (t ∷ ts) h = elim (Bool-cases (same_text t.token token)) [
  | inl e ↦ absurd (found (rw e at h))
  | inr e ↦ rw e (ground (arith, any-unknown users user token ts (rw e at h)))
]
  where
    found : true ≡ false → ⊥
    found h = cc

any-append :
    (p : PushToken → Bool) (ts us : List PushToken) → any p (ts ++ us) ≡ (any p ts || any p us)
any-append p [] us = refl
any-append p (t ∷ ts) us = ground (arith, any-append p ts us)

module _ {b : Servers} where
  delivered_rows :
      (users : List ℕ) (user : ℕ) (token : List ℕ) (w : World b)
      → is_delivered user token (deliveries users w)
        ≡ any (delivers users user token) (b.push_tokens.rows w.push_tokens)
  unfolding deliveries
  delivered_rows users user token w =
      rw b.push_tokens.find_many_lem
        (is_delivered-rows users user token (b.push_tokens.rows w.push_tokens))

  -- After a device has been registered by a user, what it is sent is for this user only, and it
  -- is sent what goes to this user, whoever had registered it before.
  pub register_push_token-deliveries :
      (owner user : ℕ) (users : List ℕ) (dto : RegisterPushToken) (w : World b)
      → is_delivered user (trim dto.token) (deliveries users (register_push_token owner dto w))
        ≡ (contains owner users && (owner == user))
  unfolding register_push_token
  register_push_token-deliveries owner user users dto w =
      let token = trim dto.token in
      let rows = b.push_tokens.rows w.push_tokens in
      delivered_rows users user token (register_push_token owner dto w)
      ∙ elim (Bool-cases (is_some (find (λ t. same_text t.token token) rows))) [
        | inl known ↦
            rw (b.push_tokens.find_first_lem, known, b.push_tokens.rows-update_many)
              (any-owned users owner user dto w.now token rows ∙ rw known refl)
        | inr unknown ↦
            rw (b.push_tokens.find_first_lem, unknown, b.push_tokens.rows-create)
              (any-append (delivers users user token) rows _
                ∙ rw (any-unknown users user token rows unknown, same_text_refl token)
                    (ground arith))
      ]
