-- ===== src/Telemetry/Metrics.antt =====
-- The metrics of a window of events: the loop of `computeAndPersistSnapshot` in
-- src/telemetry/telemetry-metrics.service.ts, and the rates.
use verity_backend.Prelude.{
  ℕ, ◌+◌, ◌*◌, Bool, false, not, ◌||◌, Option, none, some, List, [], ◌∷◌, ◌++◌, leb, ltb, codes,
  trim, same_text, if◌then◌else◌,
}
use verity_backend.Services.Numbers.{Numbers}
use verity_backend.Analytics.Values.{
  EventName, queue_match_found, queue_joined, queue_left, session_started, session_ended,
  session_result, match_chat_opened, safety_action_taken, safety_appeal_resolved, Value, number,
  text, Properties, entry_of,
}
use verity_backend.Analytics.Rows.{AnalyticsEvent}
use verity_backend.Queue.City.{non_empty}
use verity_backend.Telemetry.Percentile.{percentile}

-- A rate as its two counts. A double rate a / b is on the same side of a limit p / q as the exact
-- one for counts below 2 ^ 40.
pub record Ratio : Type 0 where
  pub num : ℕ
  pub den : ℕ

-- `den > 0 ? num / den : null`
abbrev pub ratio : ℕ → ℕ → Option Ratio
ratio num den = if ltb 0 den then some (record { num = num; den = den }) else none

-- `rate <= p / q` and `rate >= p / q`
abbrev pub is_at_most : Ratio → ℕ → ℕ → Bool
is_at_most r p q = leb (r.num * q) (p * r.den)

abbrev pub is_at_least : Ratio → ℕ → ℕ → Bool
is_at_least r p q = leb (p * r.den) (r.num * q)

-- `value === word`
abbrev pub is_word : List ℕ → Option (List ℕ) → Bool
is_word word none = false
is_word word (some t) = same_text t word

module _ (n : Numbers) where
  unfoldable pub number_property : Option (Value n) → Option n.Number
  number_property (some (number x)) = some x
  number_property _ = none

  unfoldable pub string_property : Option (Value n) → Option (List ℕ)
  string_property (some (text t)) = non_empty (trim t)
  string_property _ = none

  pub record Tally : Type 0 where
    pub waits : List n.Number
    pub action_latencies : List n.Number
    pub queue_joined_count : ℕ
    pub queue_abandoned : ℕ
    pub session_started_count : ℕ
    pub session_completed : ℕ
    pub session_results : ℕ
    pub mutual_results : ℕ
    pub chat_opened : ℕ
    pub severe_actions : ℕ
    pub appeal_resolved : ℕ
    pub appeal_overturned : ℕ

  abbrev pub empty_tally : Tally
  empty_tally = record {
    waits = [];
    action_latencies = [];
    queue_joined_count = 0;
    queue_abandoned = 0;
    session_started_count = 0;
    session_completed = 0;
    session_results = 0;
    mutual_results = 0;
    chat_opened = 0;
    severe_actions = 0;
    appeal_resolved = 0;
    appeal_overturned = 0;
  }

  -- `if (value !== null) values.push(value)`
  abbrev pub push : List n.Number → Option n.Number → List n.Number
  push xs none = xs
  push xs (some x) = xs ++ x ∷ []

  -- `count += 1` where the test holds
  abbrev pub add_if : Bool → ℕ → ℕ
  add_if test count = if test then count + 1 else count

  unfoldable pub is_abandoned : Properties n → Bool
  unfolding string_property
  is_abandoned ps = not (is_word (codes "matched") (string_property (entry_of (codes "reason") ps)))

  abbrev pub lasted : Option n.Number → Bool
  lasted none = false
  lasted (some duration) = n.le (n.literal 40) duration

  unfoldable pub is_completed : Properties n → Bool
  unfolding number_property
  is_completed ps = lasted (number_property (entry_of (codes "durationSeconds") ps))

  unfoldable pub is_mutual_result : Properties n → Bool
  unfolding string_property
  is_mutual_result ps =
      is_word (codes "mutual_match") (string_property (entry_of (codes "result") ps))

  unfoldable pub is_severe : Properties n → Bool
  unfolding string_property
  is_severe ps =
      let action = string_property (entry_of (codes "action") ps) in
      is_word (codes "ban") action || is_word (codes "terminate_session") action

  unfoldable pub is_overturned : Properties n → Bool
  unfolding string_property
  is_overturned ps =
      is_word (codes "overturned") (string_property (entry_of (codes "resolution") ps))

  unfoldable pub wait_of : Properties n → Option n.Number
  unfolding number_property
  wait_of ps = number_property (entry_of (codes "waitSeconds") ps)

  unfoldable pub latency_of : Properties n → Option n.Number
  unfolding number_property
  latency_of ps = number_property (entry_of (codes "actionLatencyMs") ps)

  -- the `switch`
  unfoldable pub count_event : EventName → Properties n → Tally → Tally
  count_event queue_match_found ps t = record t { waits = push t.waits (wait_of ps) }
  count_event queue_joined ps t = record t { queue_joined_count = t.queue_joined_count + 1 }
  count_event queue_left ps t = record t {
    queue_abandoned = add_if (is_abandoned ps) t.queue_abandoned;
  }
  count_event session_started ps t = record t {
    session_started_count = t.session_started_count + 1;
  }
  count_event session_ended ps t = record t {
    session_completed = add_if (is_completed ps) t.session_completed;
  }
  count_event session_result ps t = record t {
    session_results = t.session_results + 1;
    mutual_results = add_if (is_mutual_result ps) t.mutual_results;
  }
  count_event match_chat_opened ps t = record t { chat_opened = t.chat_opened + 1 }
  count_event safety_action_taken ps t = record t {
    action_latencies = push t.action_latencies (latency_of ps);
    severe_actions = add_if (is_severe ps) t.severe_actions;
  }
  count_event safety_appeal_resolved ps t = record t {
    appeal_resolved = t.appeal_resolved + 1;
    appeal_overturned = add_if (is_overturned ps) t.appeal_overturned;
  }
  count_event _ ps t = t

  unfoldable pub count_events : List (AnalyticsEvent n) → Tally → Tally
  unfolding count_event
  count_events [] t = t
  count_events (e ∷ es) t = count_events es (count_event e.event_name e.properties t)

  pub record Metrics : Type 0 where
    pub wait_p50_seconds : Option n.Number
    pub wait_p90_seconds : Option n.Number
    pub abandonment_rate : Option Ratio
    pub completion_rate : Option Ratio
    pub mutual_match_rate : Option Ratio
    pub chat_activation_rate : Option Ratio
    pub severe_incident_per_10k : Option Ratio
    pub appeal_overturn_rate : Option Ratio
    pub severe_action_latency_p95 : Option n.Number

  unfoldable pub metrics_of : Tally → Metrics
  metrics_of t = record {
    wait_p50_seconds = percentile n t.waits 50;
    wait_p90_seconds = percentile n t.waits 90;
    abandonment_rate = ratio t.queue_abandoned t.queue_joined_count;
    completion_rate = ratio t.session_completed t.session_started_count;
    mutual_match_rate = ratio t.mutual_results t.session_results;
    chat_activation_rate = ratio t.chat_opened t.mutual_results;
    severe_incident_per_10k = ratio (t.severe_actions * 10000) t.session_started_count;
    appeal_overturn_rate = ratio t.appeal_overturned t.appeal_resolved;
    severe_action_latency_p95 = percentile n t.action_latencies 95;
  }
