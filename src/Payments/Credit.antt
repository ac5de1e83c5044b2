-- ===== src/Payments/Credit.antt =====
-- What an event of Stripe does to the rows: lemmas on `handleStripeWebhookEvent`.
use verity_backend.Prelude.{
  ℕ, ◌≡◌, refl, sym, ap, ◌⊎◌, inl, inr, Bool, true, false, Option, none, some, ◌==◌, if◌then◌else◌,
  find, is_some, ==_refl, Bool-cases, is_some-find-append, is_some-find-last,
}
use verity_backend.Exec.{Result, ok, err, out_of_range, no_such_row, duplicate_session}
use verity_backend.Schema.{User, TokenTransaction}
use verity_backend.World.{Servers, World}
use verity_backend.Balances.{is_user}
use verity_backend.Payments.Webhook.{Purchase, booked, book, credit}

abbrev pub of_event : ℕ → TokenTransaction → Bool
of_event event t = t.stripe_event == event

abbrev pub of_session : ℕ → TokenTransaction → Bool
of_session session t = t.stripe_session == session

module _ {b : Servers} where
  -- Whether a transaction of the database meets the test.
  abbrev pub has_transaction : (TokenTransaction → Bool) → World b → Bool
  has_transaction p w = is_some (find p (b.transactions.rows w.transactions))

  -- The purchase has been booked between the two worlds.
  abbrev pub Booked : Purchase → World b → World b → Type 0
  Booked p w w' =
      (n : ℕ) × (w' ≡ booked p n w)
      × (has_transaction (of_event p.event) w ≡ false)
      × (has_transaction (of_session p.session) w ≡ false)

  -- Booking throws and changes nothing, or books.
  BookCase : Purchase → World b → Result (Unit {0}) × World b → Type 0
  BookCase p w r =
      ((e : _) × (r ≡ (err e, w)))
      ⊎ ((n : ℕ) × (r ≡ (ok tt, booked p n w)) × (has_transaction (of_session p.session) w ≡ false))

  refused_or_booked :
      (p : Purchase) (w : World b) (n : ℕ) (full taken : Bool)
      → has_transaction (of_session p.session) w ≡ taken
      → BookCase p w (
          if full
          then (err out_of_range, w)
          else if taken
          then (err duplicate_session, w)
          else (ok tt, booked p n w))
  unfolding BookCase
  refused_or_booked p w n true taken h = inl (out_of_range, refl)
  refused_or_booked p w n false true h = inl (duplicate_session, refl)
  refused_or_booked p w n false false h = inr (n, refl, h)

  book-cases : (p : Purchase) (u : Option User) (w : World b) → BookCase p w (book p u w)
  unfolding BookCase book
  book-cases p none w = inl (no_such_row, refl)
  book-cases p (some u) w =
      refused_or_booked p w _ _ _
        (ap is_some (sym (b.transactions.find_first_lem (of_session p.session) w.transactions)))

  pub credit_known :
      (p : Purchase) (w : World b)
      → has_transaction (of_event p.event) w ≡ true
      → credit p w ≡ (ok tt, w)
  unfolding credit
  credit_known p w h = rw (b.transactions.find_first_lem, h)

  pub credit_new :
      (p : Purchase) (w : World b)
      → has_transaction (of_event p.event) w ≡ false
      → credit p w ≡ book p (find (is_user p.user) (b.users.rows w.users)) w
  unfolding credit
  credit_new p w h = rw (b.transactions.find_first_lem, h, b.users.find_first_lem)

  -- Crediting throws and changes nothing, or finds the event booked, or books it.
  abbrev pub CreditCase : Purchase → World b → Result (Unit {0}) × World b → Type 0
  CreditCase p w r =
      ((e : _) × (r ≡ (err e, w)))
      ⊎ (((r ≡ (ok tt, w)) × (has_transaction (of_event p.event) w ≡ true))
          ⊎ ((r.0 ≡ ok tt) × Booked p w r.1))

  new-cases :
      (p : Purchase) (w : World b) (r : Result (Unit {0}) × World b)
      → has_transaction (of_event p.event) w ≡ false
      → BookCase p w r
      → CreditCase p w r
  unfolding BookCase
  new-cases p w r h (inl c) = inl c
  new-cases p w r h (inr (n, e, session)) =
      inr (inr (ap (λ x. x.0) e, (n, ap (λ x. x.1) e, h, session)))

  pub credit-cases : (p : Purchase) (w : World b) → CreditCase p w (credit p w)
  credit-cases p w = elim (Bool-cases (has_transaction (of_event p.event) w)) [
    | inl h ↦ inr (inl (credit_known p w h, h))
    | inr h ↦
        rw (credit_new p w h)
          (new-cases p w _ h (book-cases p (find (is_user p.user) (b.users.rows w.users)) w))
  ]

  -- A booked purchase is found by its event.
  has-booked :
      (p : Purchase) (n : ℕ) (w : World b)
      → has_transaction (of_event p.event) (booked p n w) ≡ true
  has-booked p n w = rw b.transactions.rows-create (
      is_some-find-last (of_event p.event) (b.transactions.rows w.transactions) _ (==_refl p.event))

  -- Transactions stay.
  pub has-credit :
      (q : TokenTransaction → Bool) (p : Purchase) (w : World b)
      → has_transaction q w ≡ true
      → has_transaction q (credit p w).1 ≡ true
  has-credit q p w h = elim (credit-cases p w) [
    | inl (e, r) ↦ rw r h
    | inr (inl (r, _)) ↦ rw r h
    | inr (inr (_, (n, r, _, _))) ↦
        rw (r, b.transactions.rows-create)
          (is_some-find-append q (b.transactions.rows w.transactions) _ h)
  ]

  -- A purchase that was taken is on record.
  pub has-credited :
      (p : Purchase) (w : World b)
      → (credit p w).0 ≡ ok tt
      → has_transaction (of_event p.event) (credit p w).1 ≡ true
  has-credited p w accepted = elim (credit-cases p w) [
    | inl (e, r) ↦ cc (accepted, ap (λ x. x.0) r)
    | inr (inl (r, known)) ↦ rw r known
    | inr (inr (_, (n, r, _, _))) ↦ rw r (has-booked p n w)
  ]
