-- ===== src/Analytics/Values.antt =====
-- The names and the properties of events: src/analytics/analytics.types.ts, and the constants of
-- src/analytics/analytics.service.ts.
use verity_backend.Prelude.{
  ℕ, zero, suc, ◌+◌, ◌-◌, ◌/◌, ◌%◌, Bool, Option, none, some, List, [], ◌∷◌, leb, codes, same_text,
  if◌then◌else◌,
}
use verity_backend.Services.Numbers.{Numbers}

-- `AnalyticsEventName`
pub data EventName : Type 0 where
  auth_signup_completed : EventName
  queue_join_requested queue_joined queue_cancel queue_left : EventName
  queue_timeout_shown queue_timeout_continue queue_timeout_leave : EventName
  queue_match_found : EventName
  session_started session_ended session_choice_submitted : EventName
  session_choice_resolved session_result : EventName
  message_sent first_message_sent match_chat_opened match_message_sent : EventName
  token_balance_viewed token_purchase_started token_purchase_succeeded : EventName
  token_purchase_completed token_spent : EventName
  safety_report_submitted safety_violation_detected safety_action_taken : EventName
  safety_appeal_opened safety_appeal_resolved : EventName

-- `ANALYTICS_EVENT_NAMES`, with what each text stands for.
abbrev pub analytics_event_names : List (List ℕ × EventName)
analytics_event_names =
    (codes "auth_signup_completed", auth_signup_completed)
    ∷ (codes "queue_join_requested", queue_join_requested)
    ∷ (codes "queue_joined", queue_joined)
    ∷ (codes "queue_cancel", queue_cancel)
    ∷ (codes "queue_left", queue_left)
    ∷ (codes "queue_timeout_shown", queue_timeout_shown)
    ∷ (codes "queue_timeout_continue", queue_timeout_continue)
    ∷ (codes "queue_timeout_leave", queue_timeout_leave)
    ∷ (codes "queue_match_found", queue_match_found)
    ∷ (codes "session_started", session_started)
    ∷ (codes "session_ended", session_ended)
    ∷ (codes "session_choice_submitted", session_choice_submitted)
    ∷ (codes "session_choice_resolved", session_choice_resolved)
    ∷ (codes "session_result", session_result)
    ∷ (codes "message_sent", message_sent)
    ∷ (codes "first_message_sent", first_message_sent)
    ∷ (codes "match_chat_opened", match_chat_opened)
    ∷ (codes "match_message_sent", match_message_sent)
    ∷ (codes "token_balance_viewed", token_balance_viewed)
    ∷ (codes "token_purchase_started", token_purchase_started)
    ∷ (codes "token_purchase_succeeded", token_purchase_succeeded)
    ∷ (codes "token_purchase_completed", token_purchase_completed)
    ∷ (codes "token_spent", token_spent)
    ∷ (codes "safety_report_submitted", safety_report_submitted)
    ∷ (codes "safety_violation_detected", safety_violation_detected)
    ∷ (codes "safety_action_taken", safety_action_taken)
    ∷ (codes "safety_appeal_opened", safety_appeal_opened)
    ∷ (codes "safety_appeal_resolved", safety_appeal_resolved)
    ∷ []

-- A value of a JSON object. `infinite` is a number such as 1e999, `nested` an array or an object.
pub data Value (n : Numbers) : Type 0 where
  null_value infinite nested : Value n
  boolean : Bool → Value n
  number : n.Number → Value n
  text : List ℕ → Value n

abbrev pub Properties : Numbers → Type 0
Properties n = List (List ℕ × Value n)

-- An entry of a list of pairs with text keys.
abbrev pub entry_of {ℓ} : {A : Type ℓ} → List ℕ → List (List ℕ × A) → Option A
entry_of k [] = none
entry_of k ((j, v) ∷ xs) = if same_text j k then some v else entry_of k xs

-- `output[key] = value`
abbrev pub put_entry {ℓ} : {A : Type ℓ} → List ℕ → A → List (List ℕ × A) → List (List ℕ × A)
put_entry k v [] = (k, v) ∷ []
put_entry k v ((j, w) ∷ xs) = if same_text j k then (j, v) ∷ xs else (j, w) ∷ put_entry k v xs

-- `text.slice(0, n)`, in UTF-16 units: a pair of surrogates can be cut.
abbrev pub high_surrogate : ℕ → ℕ
high_surrogate c = 55296 + (c - 65536) / 1024 % 1024

abbrev pub slice : ℕ → List ℕ → List ℕ
slice zero cs = []
slice (suc n) [] = []
slice (suc zero) (c ∷ cs) = (if leb 65536 c then high_surrogate c else c) ∷ []
slice (suc (suc n)) (c ∷ cs) =
    let short = slice n cs in
    let long = slice (suc n) cs in if leb 65536 c then c ∷ short else c ∷ long
