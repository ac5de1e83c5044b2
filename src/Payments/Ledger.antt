-- ===== src/Payments/Ledger.antt =====
-- The ledger that `handleStripeWebhookEvent` of src/payments/payments.service.ts writes.
use verity_backend.Prelude.{
  ℕ, ◌+◌, ◌≤◌, ◌≡◌, refl, sym, ap, subst, ◌∙◌, inl, inr, Bool, true, false, Option, none, some,
  List, [], ◌∷◌, ◌++◌, map, arith, ◌==◌, if◌then◌else◌, filter, find, length, is_some, Bool-cases,
  length-filter-append, filter-find-none,
}
use verity_backend.Exec.{ok}
use verity_backend.Schema.{User, TokenTransaction}
use verity_backend.World.{Servers, World}
use verity_backend.Balances.{is_user, HasBalance, Balance, find-HasBalance}
use verity_backend.Payments.Webhook.{
  Purchase, purchase_of, StripeEvent, add_tokens, transaction_of, booked, book, credit,
  handle_purchase, handle_stripe_webhook_event, max_int,
}
use verity_backend.Payments.Credit.{of_event, of_session, has_transaction, credit-cases, credit_new}
use verity_backend.Payments.Once.{accounts, accounts-handle, reply-handle, no_purchase}

filter-add :
    (user k : ℕ) (us : List User)
    → length (filter (is_user user) (map (λ u. if u.id == user then add_tokens k u else u) us))
      ≡ length (filter (is_user user) us)
filter-add user k [] = refl
filter-add user k (u ∷ us) = ground (arith, filter-add user k us)

HasBalance-add :
    (user n k : ℕ) (us : List User)
    → HasBalance user n us
    → HasBalance user (n + k) (map (λ u. if u.id == user then add_tokens k u else u) us)
HasBalance-add user n k [] h = h
HasBalance-add user n k (u ∷ us) h =
    ground (arith, filter-add user k us, HasBalance-add user n k us)

-- A new row meets a test that no row met, and the tests that it does not meet keep their count.
length-filter-new :
    (p : TokenTransaction → Bool) (ts : List TokenTransaction) (t : TokenTransaction)
    → (p t ≡ true → is_some (find p ts) ≡ false)
    → length (filter p ts) ≤ 1
    → length (filter p (ts ++ t ∷ [])) ≤ 1
length-filter-new p ts t h bound = elim (Bool-cases (p t)) [
  | inl e ↦ rw (length-filter-append, filter-find-none p ts (h e), e) (omega arith)
  | inr e ↦ rw (length-filter-append, e) (omega (arith, bound))
]

same_event : (x : ℕ) (t : TokenTransaction) → of_event x t ≡ true → x ≡ t.stripe_event
same_event x t h = ground arith

same_session : (x : ℕ) (t : TokenTransaction) → of_session x t ≡ true → x ≡ t.stripe_session
same_session x t h = ground arith

-- Each event and each checkout session stands behind one transaction at most.
abbrev pub Single : List TokenTransaction → Type 0
Single ts =
    ((x : ℕ) → length (filter (of_event x) ts) ≤ 1)
    × ((x : ℕ) → length (filter (of_session x) ts) ≤ 1)

module _ {b : Servers} where
  abbrev pub transactions_of : World b → List TokenTransaction
  transactions_of w = b.transactions.rows w.transactions

  Single-booked :
      (p : Purchase) (n : ℕ) (w : World b)
      → has_transaction (of_event p.event) w ≡ false
      → has_transaction (of_session p.session) w ≡ false
      → Single (transactions_of w)
      → Single (transactions_of (booked p n w))
  Single-booked p n w event session (events, sessions) =
      let t = transaction_of p n (b.transactions.next_id w.transactions) in
      rw b.transactions.rows-create (
        (λ x.
            length-filter-new (of_event x) (transactions_of w) t (λ e. rw (same_event x t e) event)
              (events x)),
        (λ x.
            length-filter-new (of_session x) (transactions_of w) t
              (λ e. rw (same_session x t e) session) (sessions x)),
      )

  Single-credit :
      (p : Purchase) (w : World b)
      → Single (transactions_of w)
      → Single (transactions_of (credit p w).1)
  Single-credit p w h = elim (credit-cases p w) [
    | inl (e, r) ↦ rw r h
    | inr (inl (r, _)) ↦ rw r h
    | inr (inr (_, (n, r, event, session))) ↦ rw r (Single-booked p n w event session h)
  ]

  Single-handle :
      (o : Option Purchase) (w : World b)
      → Single (transactions_of w)
      → Single (transactions_of (handle_purchase o w).1)
  Single-handle none w h = rw (no_purchase w) h
  Single-handle (some p) w h =
      subst (λ a. Single (b.transactions.rows a.1)) (sym (accounts-handle p w))
        (Single-credit p w h)

  -- Whatever Stripe sends, no event and no checkout session gets a second transaction.
  pub handle-Single :
      (e : StripeEvent) (w : World b)
      → Single (transactions_of w)
      → Single (transactions_of (handle_stripe_webhook_event e w).1)
  unfolding handle_stripe_webhook_event
  handle-Single e w h = Single-handle (purchase_of e) w h

  book-books :
      (p : Purchase) (u : User) (w : World b)
      → u.token_balance + p.tokens ≤ max_int
      → has_transaction (of_session p.session) w ≡ false
      → book p (some u) w ≡ (ok tt, booked p (u.token_balance + p.tokens) w)
  unfolding book
  book-books p u w fits fresh = rw (b.transactions.find_first_lem, fresh) (ground (arith, fits))

  credit-books :
      (p : Purchase) (n : ℕ) (w : World b)
      → Balance p.user n w
      → n + p.tokens ≤ max_int
      → has_transaction (of_event p.event) w ≡ false
      → has_transaction (of_session p.session) w ≡ false
      → credit p w ≡ (ok tt, booked p (n + p.tokens) w)
  credit-books p n w balance fits event session =
      let (u, found, same) = find-HasBalance p.user n (b.users.rows w.users) balance in
      credit_new p w event
      ∙ ap (λ o. book p o w) found
      ∙ book-books p u w (rw same fits) session
      ∙ ap (λ m. (ok tt, booked p (m + p.tokens) w)) same

  handle-books :
      (o : Option Purchase) (p : Purchase) (n : ℕ) (w : World b)
      → o ≡ some p
      → credit p w ≡ (ok tt, booked p n w)
      → ((handle_purchase o w).0 ≡ ok tt)
        × (accounts (handle_purchase o w).1 ≡ accounts (booked p n w))
  handle-books o p n w e h =
      rw e (reply-handle p w ∙ ap (λ r. r.0) h, accounts-handle p w ∙ ap (λ r. accounts r.1) h)

  -- A paid purchase that is new adds its tokens to the balance of the user, and one transaction
  -- that says so, if the balance stays within the column.
  pub handle-credits :
      (e : StripeEvent) (p : Purchase) (n : ℕ) (w : World b)
      → purchase_of e ≡ some p
      → Balance p.user n w
      → n + p.tokens ≤ max_int
      → has_transaction (of_event p.event) w ≡ false
      → has_transaction (of_session p.session) w ≡ false
      → let r = handle_stripe_webhook_event e w in
        (r.0 ≡ ok tt)
        × Balance p.user (n + p.tokens) r.1
        × (transactions_of r.1
            ≡ transactions_of w
              ++ transaction_of p (n + p.tokens) (b.transactions.next_id w.transactions) ∷ [])
  unfolding handle_stripe_webhook_event
  handle-credits e p n w bought balance fits event session =
      let (reply, books) =
        handle-books (purchase_of e) p (n + p.tokens) w bought
          (credit-books p n w balance fits event session) in
      (
        reply,
        subst (λ a. HasBalance p.user (n + p.tokens) (b.users.rows a.0)) (sym books)
            (rw b.users.rows-update_many
              (HasBalance-add p.user n p.tokens (b.users.rows w.users) balance)),
        ap (λ a. b.transactions.rows a.1) books ∙ b.transactions.rows-create _ _,
      )
