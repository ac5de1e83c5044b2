-- ===== src/Telemetry/Views.antt =====
-- The view of a stored snapshot in src/telemetry/telemetry-metrics.service.ts.
use verity_backend.Prelude.{
  ℕ, ◌≡◌, refl, ap, true, false, Option, none, some, List, [], ◌∷◌, ◌++◌, map, arith, ltb, length,
  All,
}
use verity_backend.Services.Numbers.{Numbers}
use verity_backend.Services.Database.{Table, insert_by, order_by_desc}
use verity_backend.Analytics.Rows.{AnalyticsEvent}
use verity_backend.Analytics.Store.{EventTables, Store}
use verity_backend.Telemetry.Metrics.{
  Ratio, is_at_most, Metrics, metrics_of, count_events, empty_tally,
}
use verity_backend.Telemetry.Gates.{
  green, PauseReason, is_over, is_over_ratio, stage1_status, auto_pause_reasons,
}
use verity_backend.Telemetry.Snapshot.{
  StageGateSnapshot, SnapshotRow, snapshot_of, row_of, to_view, texts_of, reason_text,
  parse_reasons, view_of_row, compute_and_persist_snapshot, get_stage_gate_view,
}

calm_ratio :
    (o : Option Ratio) (r : Ratio)
    → o ≡ some r
    → is_at_most r 3 1 ≡ true
    → is_over_ratio o 5 ≡ false
calm_ratio none r e h = refl
calm_ratio (some r') r e h = ground arith

module _ (n : Numbers) where
  calm_wait : (x : n.Number) → n.le x (n.literal 90) ≡ true → is_over n (some x) 150 ≡ false
  calm_wait x h = ground (arith, n.le_trans x (n.literal 90) (n.literal 150) h, n.le-literal 90 150)

  green_tests :
      (p50 p90 : Option n.Number) (abandonment severe : Option Ratio)
      → stage1_status n p50 p90 abandonment severe ≡ green
      → (is_over n p90 150 ≡ false) × (is_over_ratio severe 5 ≡ false)
  unfolding stage1_status
  green_tests none p90 abandonment severe e = cc
  green_tests (some x) none abandonment severe e = cc
  green_tests (some x) (some y) none severe e = cc
  green_tests (some x) (some y) (some a) none e = cc
  green_tests (some x) (some y) (some a) (some s) e =
      (ground (arith, calm_wait y), ground (arith, calm_ratio (some s) s refl))

  auto_pause_reasons-calm :
      (m : Metrics n)
      → is_over n m.wait_p90_seconds 150 ≡ false
      → is_over_ratio m.severe_incident_per_10k 5 ≡ false
      → auto_pause_reasons n m ≡ []
  unfolding auto_pause_reasons
  auto_pause_reasons-calm m wait severe = rw (severe, wait)

  -- A snapshot whose first stage is green gives no reason to pause.
  pub snapshot_of-green :
      (now : ℕ) (events : List (AnalyticsEvent n))
      → (snapshot_of n now events).stage1 ≡ green
      → ((snapshot_of n now events).auto_pause_reasons ≡ [])
        × ((snapshot_of n now events).auto_pause_triggered ≡ false)
  unfolding snapshot_of
  snapshot_of-green now events e =
      let m = metrics_of n (count_events n events (empty_tally n)) in
      let (wait, severe) =
        green_tests m.wait_p50_seconds m.wait_p90_seconds m.abandonment_rate
          m.severe_incident_per_10k e in
      let none_given = auto_pause_reasons-calm m wait severe in
      (none_given, ap (λ (rs : List PauseReason). ltb 0 (length rs)) none_given)

texts_of-map : (rs : List PauseReason) → texts_of (map reason_text rs) ≡ rs
texts_of-map [] = refl
texts_of-map (r ∷ rs) = ap (◌∷◌ r) (texts_of-map rs)

module _ {n : Numbers} where
  view-row : (now : ℕ) (s : StageGateSnapshot n) → view_of_row n (row_of n now s) ≡ to_view n s
  unfolding view_of_row row_of to_view parse_reasons
  view-row now s = rw texts_of-map

module _ {A : Type 0} (f : A → ℕ) where
  -- The newest row comes first.
  order_by_desc-newest :
      (xs : List A) (r : A)
      → All (λ x. ltb (f x) (f r) ≡ true) xs
      → (rest : List A) × (order_by_desc f (xs ++ r ∷ []) ≡ r ∷ rest)
  order_by_desc-newest [] r h = ([], refl)
  order_by_desc-newest (x ∷ xs) r (h, hs) =
      let (rest, e) = order_by_desc-newest xs r hs in (insert_by f x rest, rw (e, h))

module _ {n : Numbers} {t : EventTables n} (snapshots : Table (SnapshotRow n)) where
  -- Where all stored snapshots are older, the view after a snapshot is that of this snapshot,
  -- with each of its metrics, and stores nothing.
  pub get_stage_gate_view-compute_and_persist_snapshot :
      (now later : ℕ) (s s' : Store t) (rows : snapshots.State)
      → All (λ (r : SnapshotRow n). ltb r.created_at now ≡ true) (snapshots.rows rows)
      → let (snapshot, rows') = compute_and_persist_snapshot snapshots now s rows in
        get_stage_gate_view snapshots later s' rows' ≡ (to_view n snapshot, rows')
  unfolding get_stage_gate_view compute_and_persist_snapshot
  get_stage_gate_view-compute_and_persist_snapshot now later s s' rows older =
      let shot = (compute_and_persist_snapshot snapshots now s rows).0 in
      let (rest, first) =
        order_by_desc-newest (λ r. r.created_at) (snapshots.rows rows) (row_of n now shot) older in
      rw (snapshots.rows-create (λ id. row_of n now shot) rows, first, view-row now shot) refl
