-- ===== src/Telemetry/Snapshot.antt =====
-- The snapshots of src/telemetry/telemetry-metrics.service.ts: `computeAndPersistSnapshot`,
-- `getStageGateView` and `toView`. The database answers.
use verity_backend.Prelude.{
  ℕ, ◌*◌, Bool, true, false, not, ◌&&◌, Option, none, some, List, [], ◌∷◌, map, length, ltb,
}
use verity_backend.Prelude.Int.{ℤ, minus, less, exceeds, is_under}
use verity_backend.Services.Numbers.{Numbers}
use verity_backend.Services.Database.{Table, order_by_desc}
use verity_backend.Analytics.Values.{
  EventName, queue_match_found, queue_joined, queue_left, session_started, session_ended,
  session_result, match_chat_opened, safety_action_taken, safety_appeal_resolved,
}
use verity_backend.Analytics.Rows.{AnalyticsEvent}
use verity_backend.Analytics.Store.{EventTables, Store}
use verity_backend.Telemetry.Metrics.{Ratio, Metrics, empty_tally, count_events, metrics_of}
use verity_backend.Telemetry.Gates.{
  StageStatus, PauseReason, stage0_status, stage1_status, stage2_status, auto_pause_reasons,
}

-- SNAPSHOT_WINDOW_HOURS in milliseconds
abbrev pub snapshot_window_ms : ℕ
snapshot_window_ms = 24 * 60 * 60 * 1000

-- the names in the query
abbrev pub is_counted : EventName → Bool
is_counted queue_match_found = true
is_counted queue_left = true
is_counted queue_joined = true
is_counted session_ended = true
is_counted session_started = true
is_counted session_result = true
is_counted match_chat_opened = true
is_counted safety_action_taken = true
is_counted safety_appeal_resolved = true
is_counted _ = false

-- `gte: windowStart, lte: windowEnd`
abbrev pub in_window : ℕ → ℤ → Bool
in_window now at =
    let distance = less at now in
    not (exceeds distance 0) && not (is_under distance snapshot_window_ms)

-- An item of the stored JSON array of reasons.
pub data StoredReason : Type 0 where
  reason_text : PauseReason → StoredReason
  no_text : StoredReason

module _ (n : Numbers) where
  pub record StageGateSnapshot : Type 0 where
    pub window_start : ℤ
    pub window_end : ℕ
    pub wait_p50_seconds : Option n.Number
    pub wait_p90_seconds : Option n.Number
    pub abandonment_rate : Option Ratio
    pub completion_rate : Option Ratio
    pub mutual_match_rate : Option Ratio
    pub chat_activation_rate : Option Ratio
    pub severe_incident_per_10k : Option Ratio
    pub appeal_overturn_rate : Option Ratio
    pub severe_action_latency_p95 : Option n.Number
    pub stage0 : StageStatus
    pub stage1 : StageStatus
    pub stage2 : StageStatus
    pub auto_pause_triggered : Bool
    pub auto_pause_reasons : List PauseReason

  -- A row of the table of snapshots. The reasons are `none` where they are no array.
  pub record SnapshotRow : Type 0 where
    pub created_at : ℕ
    pub window_start : ℤ
    pub window_end : ℕ
    pub wait_p50_seconds : Option n.Number
    pub wait_p90_seconds : Option n.Number
    pub abandonment_rate : Option Ratio
    pub completion_rate : Option Ratio
    pub mutual_match_rate : Option Ratio
    pub chat_activation_rate : Option Ratio
    pub severe_incident_per_10k : Option Ratio
    pub appeal_overturn_rate : Option Ratio
    pub severe_action_latency_p95 : Option n.Number
    pub stage0_status : StageStatus
    pub stage1_status : StageStatus
    pub stage2_status : StageStatus
    pub auto_pause_triggered : Bool
    pub auto_pause_reasons : Option (List StoredReason)

  -- `StageGateView`, with the times that its ISO texts stand for.
  pub record StageGateView : Type 0 where
    pub window_start : ℤ
    pub window_end : ℕ
    pub metrics : Metrics n
    pub stage0 : StageStatus
    pub stage1 : StageStatus
    pub stage2 : StageStatus
    pub triggered : Bool
    pub reasons : List PauseReason

  unfoldable pub snapshot_of : ℕ → List (AnalyticsEvent n) → StageGateSnapshot
  unfolding count_events metrics_of stage0_status stage1_status stage2_status auto_pause_reasons
  snapshot_of now events =
      let m = metrics_of n (count_events n events (empty_tally n)) in
      let reasons = auto_pause_reasons n m in
      record {
        window_start = minus now snapshot_window_ms;
        window_end = now;
        wait_p50_seconds = m.wait_p50_seconds;
        wait_p90_seconds = m.wait_p90_seconds;
        abandonment_rate = m.abandonment_rate;
        completion_rate = m.completion_rate;
        mutual_match_rate = m.mutual_match_rate;
        chat_activation_rate = m.chat_activation_rate;
        severe_incident_per_10k = m.severe_incident_per_10k;
        appeal_overturn_rate = m.appeal_overturn_rate;
        severe_action_latency_p95 = m.severe_action_latency_p95;
        stage0 = stage0_status n m.severe_action_latency_p95;
        stage1 =
            stage1_status n m.wait_p50_seconds m.wait_p90_seconds m.abandonment_rate
              m.severe_incident_per_10k;
        stage2 = stage2_status n m.completion_rate m.mutual_match_rate m.chat_activation_rate;
        auto_pause_triggered = ltb 0 (length reasons);
        auto_pause_reasons = reasons;
      }

  unfoldable pub row_of : ℕ → StageGateSnapshot → SnapshotRow
  row_of now s = record {
    created_at = now;
    window_start = s.window_start;
    window_end = s.window_end;
    wait_p50_seconds = s.wait_p50_seconds;
    wait_p90_seconds = s.wait_p90_seconds;
    abandonment_rate = s.abandonment_rate;
    completion_rate = s.completion_rate;
    mutual_match_rate = s.mutual_match_rate;
    chat_activation_rate = s.chat_activation_rate;
    severe_incident_per_10k = s.severe_incident_per_10k;
    appeal_overturn_rate = s.appeal_overturn_rate;
    severe_action_latency_p95 = s.severe_action_latency_p95;
    stage0_status = s.stage0;
    stage1_status = s.stage1;
    stage2_status = s.stage2;
    auto_pause_triggered = s.auto_pause_triggered;
    auto_pause_reasons = some (map reason_text s.auto_pause_reasons);
  }

  unfoldable pub to_view : StageGateSnapshot → StageGateView
  to_view s = record {
    window_start = s.window_start;
    window_end = s.window_end;
    metrics = record {
      wait_p50_seconds = s.wait_p50_seconds;
      wait_p90_seconds = s.wait_p90_seconds;
      abandonment_rate = s.abandonment_rate;
      completion_rate = s.completion_rate;
      mutual_match_rate = s.mutual_match_rate;
      chat_activation_rate = s.chat_activation_rate;
      severe_incident_per_10k = s.severe_incident_per_10k;
      appeal_overturn_rate = s.appeal_overturn_rate;
      severe_action_latency_p95 = s.severe_action_latency_p95;
    };
    stage0 = s.stage0;
    stage1 = s.stage1;
    stage2 = s.stage2;
    triggered = s.auto_pause_triggered;
    reasons = s.auto_pause_reasons;
  }

-- the items of an array that are texts
abbrev pub texts_of : List StoredReason → List PauseReason
texts_of [] = []
texts_of (reason_text r ∷ items) = r ∷ texts_of items
texts_of (no_text ∷ items) = texts_of items

unfoldable pub parse_reasons : Option (List StoredReason) → List PauseReason
parse_reasons none = []
parse_reasons (some items) = texts_of items

abbrev pub latest {ℓ} : {A : Type ℓ} → List A → Option A
latest [] = none
latest (x ∷ xs) = some x

module _ (n : Numbers) where
  -- the view of a stored row
  unfoldable pub view_of_row : SnapshotRow n → StageGateView n
  unfolding parse_reasons
  view_of_row r = record {
    window_start = r.window_start;
    window_end = r.window_end;
    metrics = record {
      wait_p50_seconds = r.wait_p50_seconds;
      wait_p90_seconds = r.wait_p90_seconds;
      abandonment_rate = r.abandonment_rate;
      completion_rate = r.completion_rate;
      mutual_match_rate = r.mutual_match_rate;
      chat_activation_rate = r.chat_activation_rate;
      severe_incident_per_10k = r.severe_incident_per_10k;
      appeal_overturn_rate = r.appeal_overturn_rate;
      severe_action_latency_p95 = r.severe_action_latency_p95;
    };
    stage0 = r.stage0_status;
    stage1 = r.stage1_status;
    stage2 = r.stage2_status;
    triggered = r.auto_pause_triggered;
    reasons = parse_reasons r.auto_pause_reasons;
  }

module _ {n : Numbers} {t : EventTables n} (snapshots : Table (SnapshotRow n)) where
  unfoldable pub compute_and_persist_snapshot :
      ℕ → Store t → snapshots.State → StageGateSnapshot n × snapshots.State
  unfolding row_of snapshot_of
  compute_and_persist_snapshot now s rows =
      let events =
        t.events.find_many (λ e. in_window now e.occurred_at && is_counted e.event_name) s.events in
      let snapshot = snapshot_of n now events in
      (snapshot, (snapshots.create (λ id. row_of n now snapshot) rows).1)

  abbrev pub view_or_compute :
      Option (SnapshotRow n) → ℕ → Store t → snapshots.State → StageGateView n × snapshots.State
  unfolding to_view view_of_row compute_and_persist_snapshot
  view_or_compute (some row) now s rows = (view_of_row n row, rows)
  view_or_compute none now s rows =
      let (snapshot, rows') = compute_and_persist_snapshot now s rows in (to_view n snapshot, rows')

  unfoldable pub get_stage_gate_view :
      ℕ → Store t → snapshots.State → StageGateView n × snapshots.State
  unfolding view_or_compute
  get_stage_gate_view now s rows =
      view_or_compute (latest (order_by_desc (λ r. r.created_at) (snapshots.rows rows))) now s rows
