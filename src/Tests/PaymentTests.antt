-- ===== src/Tests/PaymentTests.antt =====
-- Examples of the payments.
use verity_backend.Prelude.{◌≡◌, refl, true, none, some, [], ◌∷◌, codes, arith}
use verity_backend.Exec.{ok}
use verity_backend.Balances.{Balance}
use verity_backend.Payments.Webhook.{
  StripeEvent, Purchase, read_digits, read_number, parse_int, token_count, purchase_of,
  transaction_of, book, credit, report_purchase, handle_purchase, handle_stripe_webhook_event,
}
use verity_backend.Payments.Once.{accounts, deliver, deliver-again}
use verity_backend.Payments.Ledger.{Single, transactions_of, handle-Single, handle-credits}
use verity_backend.Tests.Worlds.{funded}

-- The first user has paid for 15 tokens.
abbrev paid_event : StripeEvent
paid_event = record {
  id = 50;
  is_completed = true;
  session = record {
    id = 52;
    is_paid = true;
    user = some 2;
    pack = some 4;
    tokens = some (codes "15");
    currency = none;
  };
}

abbrev paid : Purchase
paid = record { event = 50; session = 52; user = 2; pack = 4; tokens = 15; currency = none }

reports : purchase_of paid_event ≡ some paid
unfolding purchase_of read_digits read_number parse_int token_count
reports = refl

takes : (handle_stripe_webhook_event paid_event funded).0 ≡ ok tt
unfolding handle_stripe_webhook_event handle_purchase credit book report_purchase purchase_of
    read_digits read_number parse_int token_count
takes = refl

deliver-again_example :
    let w = deliver (paid_event ∷ []) (handle_stripe_webhook_event paid_event funded).1 in
    accounts (handle_stripe_webhook_event paid_event w).1 ≡ accounts w
deliver-again_example = deliver-again paid_event (paid_event ∷ []) funded takes

handle-Single_example : Single (transactions_of (handle_stripe_webhook_event paid_event funded).1)
handle-Single_example = handle-Single paid_event funded ((λ x. omega arith), λ x. omega arith)

handle-credits_example :
    let r = handle_stripe_webhook_event paid_event funded in
    (r.0 ≡ ok tt) × Balance 2 16 r.1 × (transactions_of r.1 ≡ transaction_of paid 16 2 ∷ [])
handle-credits_example =
    handle-credits paid_event paid 1 funded reports (refl, refl) (omega arith) refl refl
