-- ===== src/Payments/Webhook.antt =====
-- `handleStripeWebhookEvent` of src/payments/payments.service.ts.
use Prim.Native.Nat.{◌^◌}
use verity_backend.Prelude.{
  ℕ, ◌+◌, ◌-◌, ◌*◌, Bool, ◌&&◌, ◌||◌, Option, none, some, List, [], ◌∷◌, ◌==◌, ltb, leb,
  if◌then◌else◌, is_some, drop_spaces,
}
use verity_backend.Exec.{ok, err, Exec, ◌>>◌, no_such_row, out_of_range, duplicate_session}
use verity_backend.Schema.{User, TokenTransaction, Event, Output, track}
use verity_backend.World.{Servers, World, send}
use verity_backend.Payments.Checkout.{non_empty}

-- What `Number.parseInt(text, 10)` reads.
pub data Parsed : Type 0 where
  nan : Parsed
  plus minus : ℕ → Parsed

abbrev pub is_digit : ℕ → Bool
is_digit c = leb b'0' c && leb c b'9'

unfoldable pub read_digits : ℕ → List ℕ → ℕ
read_digits n [] = n
read_digits n (c ∷ cs) =
    let rest = read_digits (n * 10 + (c - b'0')) cs in if is_digit c then rest else n

unfoldable pub read_number : List ℕ → Option ℕ
unfolding read_digits
read_number [] = none
read_number (c ∷ cs) = if is_digit c then some (read_digits 0 (c ∷ cs)) else none

abbrev pub signed : (ℕ → Parsed) → Option ℕ → Parsed
signed sign none = nan
signed sign (some n) = sign n

unfoldable pub parse_int : List ℕ → Parsed
unfolding read_number
parse_int text = elim (drop_spaces text) [
  | [] ↦ nan
  | c ∷ cs ↦
      if c == b'-'
      then signed minus (read_number cs)
      else if c == b'+'
      then signed plus (read_number cs)
      else signed plus (read_number (c ∷ cs))
]

-- From this number on, a number is read as Infinity.
abbrev pub infinity : ℕ
infinity = 2 ^ 1024 - 2 ^ 970

-- The number of tokens of a purchase: finite and above 0.
unfoldable pub token_count : Parsed → Option ℕ
token_count (plus n) = if n == 0 || leb infinity n then none else some n
token_count _ = none

pub record CheckoutSession : Type 0 where
  pub id : ℕ
  pub is_paid : Bool
  pub user : Option ℕ
  pub pack : Option ℕ
  pub tokens : Option (List ℕ)
  pub currency : Option ℕ

-- An event of Stripe, and whether it is `checkout.session.completed`.
pub record StripeEvent : Type 0 where
  pub id : ℕ
  pub is_completed : Bool
  pub session : CheckoutSession

pub record Purchase : Type 0 where
  pub event : ℕ
  pub session : ℕ
  pub user : ℕ
  pub pack : ℕ
  pub tokens : ℕ
  pub currency : Option ℕ

abbrev pub with_tokens : StripeEvent → ℕ → ℕ → Option ℕ → Option Purchase
with_tokens e user pack none = none
with_tokens e user pack (some tokens) = some (record {
  event = e.id;
  session = e.session.id;
  user = user;
  pack = pack;
  tokens = tokens;
  currency = e.session.currency;
})

abbrev pub from_metadata : StripeEvent → Option ℕ → Option ℕ → Option (List ℕ) → Option Purchase
unfolding token_count parse_int
from_metadata e (some user) (some pack) (some (c ∷ cs)) =
    with_tokens e user pack (token_count (parse_int (c ∷ cs)))
from_metadata e _ _ _ = none

-- The purchase that an event reports. An event that reports none is only acknowledged.
unfoldable pub purchase_of : StripeEvent → Option Purchase
purchase_of e =
    if e.is_completed && e.session.is_paid
    then from_metadata e (non_empty e.session.user) (non_empty e.session.pack) e.session.tokens
    else none

-- The largest value of a column of type Int.
abbrev pub max_int : ℕ
max_int = 2_147_483_647

abbrev pub purchase_messages : Purchase → List Output
purchase_messages p =
    track p.user (Event.token_purchase_succeeded p.pack p.tokens p.session p.currency)
    ∷ track p.user (Event.token_purchase_completed p.pack p.tokens p.session p.currency)
    ∷ []

abbrev pub add_tokens : ℕ → User → User
add_tokens n u = record u { token_balance = u.token_balance + n }

abbrev pub transaction_of : Purchase → ℕ → ℕ → TokenTransaction
transaction_of p balance id = record {
  id = id;
  user = p.user;
  amount = p.tokens;
  balance_after = balance;
  stripe_session = p.session;
  stripe_event = p.event;
  pack = p.pack;
}

module _ {b : Servers} where
  abbrev pub booked : Purchase → ℕ → World b → World b
  booked p balance w = record w {
    users = (b.users.update_many (λ u. u.id == p.user) (add_tokens p.tokens) w.users).1;
    transactions = (b.transactions.create (transaction_of p balance) w.transactions).1;
  }

  -- The user's row is updated and the transaction created. Where the database refuses one of them
  -- (no such user, a balance beyond the column, a second transaction for a Stripe session, whose
  -- column is unique) both are rolled back.
  unfoldable pub book : Purchase → Option User → Exec (World b) (Unit {0})
  book p none w = (err no_such_row, w)
  book p (some u) w =
      if ltb max_int (u.token_balance + p.tokens)
      then (err out_of_range, w)
      else if is_some
          (b.transactions.find_first (λ t. t.stripe_session == p.session) w.transactions)
      then (err duplicate_session, w)
      else (ok tt, booked p (u.token_balance + p.tokens) w)

  -- the transaction of the database, which does nothing for an event that has been booked
  unfoldable pub credit : Purchase → Exec (World b) (Unit {0})
  credit p w =
      if is_some (b.transactions.find_first (λ t. t.stripe_event == p.event) w.transactions)
      then (ok tt, w)
      else book p (b.users.find_first (λ u. u.id == p.user) w.users) w

  unfoldable pub report_purchase : Purchase → Exec (World b) (Unit {0})
  report_purchase p w = (ok tt, send (purchase_messages p) w)

  unfoldable pub handle_purchase : Option Purchase → Exec (World b) (Unit {0})
  handle_purchase none w = (ok tt, w)
  handle_purchase (some p) w = (do credit p; report_purchase p) w

  unfoldable pub handle_stripe_webhook_event : StripeEvent → Exec (World b) (Unit {0})
  unfolding handle_purchase
  handle_stripe_webhook_event e w = handle_purchase (purchase_of e) w
