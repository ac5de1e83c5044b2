-- ===== src/Telemetry/Tallied.antt =====
-- The counts of the one pass over the events in src/telemetry/telemetry-metrics.service.ts.
use mathlib.Core.List.{append_assoc, append-nil}
use verity_backend.Prelude.{
  ℕ, ◌+◌, ◌≡◌, refl, ◌∙◌, Bool, true, false, ◌&&◌, Option, none, some, List, [], ◌∷◌, ◌++◌, arith,
  if◌then◌else◌,
}
use verity_backend.Services.Numbers.{Numbers}
use verity_backend.Analytics.Values.{
  EventName, queue_match_found, queue_joined, queue_left, session_started, session_ended,
  session_result, match_chat_opened, safety_action_taken, safety_appeal_resolved, Properties,
}
use verity_backend.Analytics.Rows.{AnalyticsEvent}
use verity_backend.Telemetry.Metrics.{
  Tally, empty_tally, push, count_event, count_events, is_abandoned, is_completed, is_mutual_result,
  is_severe, is_overturned, wait_of, latency_of,
}

abbrev pub is_found : EventName → Bool
is_found queue_match_found = true
is_found _ = false

abbrev pub is_joined : EventName → Bool
is_joined queue_joined = true
is_joined _ = false

abbrev pub is_left : EventName → Bool
is_left queue_left = true
is_left _ = false

abbrev pub is_started : EventName → Bool
is_started session_started = true
is_started _ = false

abbrev pub is_ended : EventName → Bool
is_ended session_ended = true
is_ended _ = false

abbrev pub is_result : EventName → Bool
is_result session_result = true
is_result _ = false

abbrev pub is_chat : EventName → Bool
is_chat match_chat_opened = true
is_chat _ = false

abbrev pub is_action : EventName → Bool
is_action safety_action_taken = true
is_action _ = false

abbrev pub is_resolved : EventName → Bool
is_resolved safety_appeal_resolved = true
is_resolved _ = false

module _ (n : Numbers) where
  abbrev prepend : Option n.Number → List n.Number → List n.Number
  prepend none xs = xs
  prepend (some x) xs = x ∷ xs

  -- the numbers of the events that a test on the name selects
  abbrev pub select :
      (EventName → Bool)
      → (Properties n → Option n.Number)
      → List (AnalyticsEvent n)
      → List n.Number
  select p f [] = []
  select p f (e ∷ es) = prepend (if p e.event_name then f e.properties else none) (select p f es)

  -- how many events have such a name and such properties
  abbrev pub count_where : (EventName → Bool) → (Properties n → Bool) → List (AnalyticsEvent n) → ℕ
  count_where p q [] = 0
  count_where p q (e ∷ es) =
      (if p e.event_name && q e.properties then 1 else 0) + count_where p q es

  abbrev any_properties : Properties n → Bool
  any_properties ps = true

  -- A query for each field.
  abbrev pub summary : List (AnalyticsEvent n) → Tally n
  summary es = record {
    waits = select is_found (wait_of n) es;
    action_latencies = select is_action (latency_of n) es;
    queue_joined_count = count_where is_joined any_properties es;
    queue_abandoned = count_where is_left (is_abandoned n) es;
    session_started_count = count_where is_started any_properties es;
    session_completed = count_where is_ended (is_completed n) es;
    session_results = count_where is_result any_properties es;
    mutual_results = count_where is_result (is_mutual_result n) es;
    chat_opened = count_where is_chat any_properties es;
    severe_actions = count_where is_action (is_severe n) es;
    appeal_resolved = count_where is_resolved any_properties es;
    appeal_overturned = count_where is_resolved (is_overturned n) es;
  }

  abbrev join : Tally n → Tally n → Tally n
  join t s = record {
    waits = t.waits ++ s.waits;
    action_latencies = t.action_latencies ++ s.action_latencies;
    queue_joined_count = t.queue_joined_count + s.queue_joined_count;
    queue_abandoned = t.queue_abandoned + s.queue_abandoned;
    session_started_count = t.session_started_count + s.session_started_count;
    session_completed = t.session_completed + s.session_completed;
    session_results = t.session_results + s.session_results;
    mutual_results = t.mutual_results + s.mutual_results;
    chat_opened = t.chat_opened + s.chat_opened;
    severe_actions = t.severe_actions + s.severe_actions;
    appeal_resolved = t.appeal_resolved + s.appeal_resolved;
    appeal_overturned = t.appeal_overturned + s.appeal_overturned;
  }

  push-append :
      (xs : List n.Number) (o : Option n.Number) (ys : List n.Number)
      → push n xs o ++ ys ≡ xs ++ prepend o ys
  push-append xs none ys = refl
  push-append xs (some x) ys = append_assoc xs (x ∷ []) ys

  abbrev one_if : Bool → ℕ
  one_if test = if test then 1 else 0

  -- The head of the list, added to the summary of the rest.
  abbrev with_head : EventName → Properties n → Tally n → Tally n
  with_head name ps s = record {
    waits = prepend (if is_found name then wait_of n ps else none) s.waits;
    action_latencies =
        prepend (if is_action name then latency_of n ps else none) s.action_latencies;
    queue_joined_count = one_if (is_joined name && true) + s.queue_joined_count;
    queue_abandoned = one_if (is_left name && is_abandoned n ps) + s.queue_abandoned;
    session_started_count = one_if (is_started name && true) + s.session_started_count;
    session_completed = one_if (is_ended name && is_completed n ps) + s.session_completed;
    session_results = one_if (is_result name && true) + s.session_results;
    mutual_results = one_if (is_result name && is_mutual_result n ps) + s.mutual_results;
    chat_opened = one_if (is_chat name && true) + s.chat_opened;
    severe_actions = one_if (is_action name && is_severe n ps) + s.severe_actions;
    appeal_resolved = one_if (is_resolved name && true) + s.appeal_resolved;
    appeal_overturned = one_if (is_resolved name && is_overturned n ps) + s.appeal_overturned;
  }

  join-count_event :
      (name : EventName) (ps : Properties n) (t s : Tally n)
      → join (count_event n name ps t) s ≡ join t (with_head name ps s)
  unfolding count_event
  join-count_event queue_match_found ps t s =
      ground (arith, push-append t.waits (wait_of n ps) s.waits)
  join-count_event safety_action_taken ps t s =
      ground (arith, push-append t.action_latencies (latency_of n ps) s.action_latencies)
  join-count_event name ps t s = ground arith

  count_events-join :
      (es : List (AnalyticsEvent n)) (t : Tally n) → count_events n es t ≡ join t (summary es)
  unfolding count_events
  count_events-join [] t = ground (arith, append-nil t.waits, append-nil t.action_latencies)
  count_events-join (e ∷ es) t =
      count_events-join es (count_event n e.event_name e.properties t)
      ∙ join-count_event e.event_name e.properties t (summary es)

  -- The one pass over the events refines a query for each count and each list: every field of
  -- the tally is what a query of its own returns.
  pub count_events-summary :
      (es : List (AnalyticsEvent n)) → count_events n es (empty_tally n) ≡ summary es
  count_events-summary es = count_events-join es (empty_tally n) ∙ ground arith
