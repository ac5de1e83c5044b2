-- ===== src/Tests/TelemetryTests.antt =====
-- Examples of the stage gates and their alerts.
use verity_backend.Prelude.{ℕ, ◌+◌, ◌≤◌, ◌≡◌, refl, arith, true, none, some, [], ◌∷◌}
use verity_backend.World.{World}
use verity_backend.Telemetry.Percentile.{percentile, index_at}
use verity_backend.Telemetry.Rank.{IsNearestRank, percentile-IsNearestRank}
use verity_backend.Telemetry.Metrics.{
  empty_tally, count_events, count_event, metrics_of, wait_of, number_property,
}
use verity_backend.Telemetry.Tallied.{summary, count_events-summary}
use verity_backend.Telemetry.Gates.{green, is_over, stage1_status}
use verity_backend.Telemetry.Snapshot.{
  snapshot_of, to_view, compute_and_persist_snapshot, get_stage_gate_view,
}
use verity_backend.Telemetry.Views.{get_stage_gate_view-compute_and_persist_snapshot}
use verity_backend.Telemetry.Alerts.{
  AlertEnv, failed, is_sustained_wait_breach, send_auto_pause_alert, wait_p90_threshold_seconds,
  wait_p90_sustain_ms,
}
use verity_backend.Telemetry.Sustained.{
  OverSince, Run, start, evaluation, other, is_sustained_wait_breach-OverSince,
}
use verity_backend.Tests.Memory.{memory, empty_world}
use verity_backend.Tests.Events.{naturals, memory_tables, memory_snapshots, empty_store, calm_day}

percentile-IsNearestRank_example :
    (x : ℕ) × (percentile naturals (40 ∷ 10 ∷ 30 ∷ []) 90 ≡ some x)
    × IsNearestRank naturals (40 ∷ 10 ∷ 30 ∷ []) 90 x
percentile-IsNearestRank_example =
    percentile-IsNearestRank naturals 40 (10 ∷ 30 ∷ []) 90 (omega arith) (omega arith)

count_events-summary_example :
    count_events naturals calm_day (empty_tally naturals) ≡ summary naturals calm_day
count_events-summary_example = count_events-summary naturals calm_day

is_green : (snapshot_of naturals 5000 calm_day).stage1 ≡ green
unfolding snapshot_of count_events count_event metrics_of wait_of number_property percentile
    index_at stage1_status
is_green = refl

get_stage_gate_view-compute_and_persist_snapshot_example :
    let (snapshot, rows) =
      compute_and_persist_snapshot {t = memory_tables} memory_snapshots 5000 empty_store ([], 2) in
    get_stage_gate_view {t = memory_tables} memory_snapshots 6000 empty_store rows
    ≡ (to_view naturals snapshot, rows)
get_stage_gate_view-compute_and_persist_snapshot_example =
    get_stage_gate_view-compute_and_persist_snapshot {t = memory_tables} memory_snapshots 5000 6000
      empty_store empty_store ([], 2) tt

-- A wait of 200 seconds, seen at 1000 and again two hours later.
abbrev long_wait : World memory
long_wait = (is_sustained_wait_breach naturals (some 200) (empty_world 1000)).1

abbrev two_hours_on : World memory
two_hours_on = record long_wait { now = 7201000 }

waited : Run naturals ((1000, true) ∷ []) two_hours_on
waited = other (evaluation (start (λ m. refl)) (some 200)) (λ m. refl)

reported : (is_sustained_wait_breach naturals (some 200) two_hours_on).0 ≡ true
unfolding is_sustained_wait_breach
reported = refl

is_sustained_wait_breach-OverSince_example :
    (is_over naturals (some 200) wait_p90_threshold_seconds ≡ true)
    × ((s : ℕ) × (s + wait_p90_sustain_ms ≤ 7201000) × OverSince s ((1000, true) ∷ []))
is_sustained_wait_breach-OverSince_example =
    is_sustained_wait_breach-OverSince naturals (some 200) ((1000, true) ∷ []) two_hours_on waited
      reported

abbrev bare_alert_env : AlertEnv
bare_alert_env = record {
  webhook_url = none;
  escalation_owner = none;
  runbook_url = none;
  appeal_backlog_sla_hours = none;
}

abbrev minute_later : World memory
minute_later =
    record (send_auto_pause_alert naturals bare_alert_env failed
      (snapshot_of naturals 5000 calm_day) [] (empty_world 1000)).1 { now = 61000 }
