-- ===== src/Telemetry/Tick.antt =====
-- The worker's tick, `computePersistAndAlert`, and `emitSyntheticBackendEvents` of
-- src/telemetry/telemetry-metrics.service.ts. The texts that are made of the clock and the UUIDs
-- are given.
use verity_backend.Prelude.{
  ℕ, Bool, true, Option, none, some, List, [], ◌∷◌, length, codes, get_or_else, if◌then◌else◌,
}
use verity_backend.Prelude.Int.{pos}
use verity_backend.Services.Numbers.{Numbers}
use verity_backend.Services.Database.{Table}
use verity_backend.World.{Servers, World}
use verity_backend.Environment.{is_switched_on}
use verity_backend.Analytics.Values.{
  EventName, queue_match_found, queue_joined, session_started, session_ended, session_result,
  match_chat_opened, safety_action_taken, safety_appeal_resolved, Properties, Value, boolean,
  number, text,
}
use verity_backend.Analytics.Rows.{AnalyticsEvent, backend}
use verity_backend.Analytics.Store.{EventTables, Store, Env, create_event}
use verity_backend.Telemetry.Snapshot.{SnapshotRow, compute_and_persist_snapshot}
use verity_backend.Telemetry.Alerts.{AlertEnv, Reply, evaluate_and_alert}

-- `isWorkerProcess`
unfoldable pub is_worker_process : Option (List ℕ) → Bool
unfolding is_switched_on
is_worker_process = is_switched_on

-- The identifiers of a run of synthetic events.
pub record SyntheticIds : Type 0 where
  pub user_id : List ℕ
  pub session_id : List ℕ
  pub match_id : List ℕ

abbrev pub synthetic_queue_key : List ℕ
synthetic_queue_key = codes "synthetic:default"

module _ (n : Numbers) where
  -- a property with a text, and one with a number
  abbrev pub said : List ℕ → List ℕ → List ℕ × Value n
  said key value = (key, text value)

  abbrev pub counted : List ℕ → ℕ → List ℕ × Value n
  counted key value = (key, number (n.literal value))

  unfoldable pub synthetic_events : SyntheticIds → List (EventName × Properties n)
  synthetic_events ids =
      (
        queue_joined,
        said (codes "queueKey") synthetic_queue_key
            ∷ counted (codes "usersSearchingSnapshot") 3
            ∷ [],
      )
      ∷ (
        queue_match_found,
        said (codes "queueKey") synthetic_queue_key
            ∷ said (codes "sessionId") ids.session_id
            ∷ counted (codes "waitSeconds") 24
            ∷ [],
      )
      ∷ (session_started, said (codes "sessionId") ids.session_id ∷ [])
      ∷ (
        session_ended,
        said (codes "sessionId") ids.session_id
            ∷ counted (codes "durationSeconds") 58
            ∷ said (codes "endedBy") (codes "timer")
            ∷ [],
      )
      ∷ (
        session_result,
        said (codes "sessionId") ids.session_id
            ∷ said (codes "matchId") ids.match_id
            ∷ said (codes "result") (codes "mutual_match")
            ∷ [],
      )
      ∷ (
        match_chat_opened,
        said (codes "matchId") ids.match_id ∷ counted (codes "timeFromMutualMatchSec") 8 ∷ [],
      )
      ∷ (
        safety_action_taken,
        said (codes "action") (codes "warn")
            ∷ counted (codes "actionLatencyMs") 850
            ∷ (codes "automated", boolean true)
            ∷ [],
      )
      ∷ (
        safety_appeal_resolved,
        said (codes "actionType") (codes "warn")
            ∷ said (codes "resolution") (codes "upheld")
            ∷ counted (codes "resolutionLatencySec") 45
            ∷ [],
      )
      ∷ []

  unfoldable pub synthetic_row :
      Env → SyntheticIds → ℕ → List ℕ → EventName × Properties n → AnalyticsEvent n
  synthetic_row env ids now uuid (name, properties) = record {
    schema_version = 1;
    event_id = uuid;
    event_name = name;
    occurred_at = pos now;
    received_at = now;
    source = backend;
    app_version = none;
    build_number = none;
    region = some (get_or_else env.app_region (codes "synthetic"));
    request_id = none;
    user = some ids.user_id;
    session_id = some ids.session_id;
    match_id = some ids.match_id;
    queue_key = some synthetic_queue_key;
    properties = properties;
  }

module _ {n : Numbers} {t : EventTables n} where
  -- Each insert is tried; one that fails is only logged.
  unfoldable pub insert_all :
      Env → SyntheticIds → ℕ → List (List ℕ) → List (EventName × Properties n) → Store t → Store t
  unfolding synthetic_row create_event
  insert_all env ids now (uuid ∷ uuids) (e ∷ es) s =
      insert_all env ids now uuids es (create_event (synthetic_row n env ids now uuid e) s).1
  insert_all env ids now _ _ s = s

  -- The reply says how many events were made, stored or not.
  unfoldable pub emit_synthetic_backend_events :
      Env → SyntheticIds → ℕ → List (List ℕ) → Store t → ℕ × Store t
  unfolding insert_all synthetic_events
  emit_synthetic_backend_events env ids now uuids s =
      let synthetic = synthetic_events n ids in
      (length synthetic, insert_all env ids now uuids synthetic s)

-- A process of the service: its flag and the states that it reads and writes.
pub record Process (b : Servers) {n : Numbers} (t : EventTables n)
    (snapshots : Table (SnapshotRow n)) : Type 0 where
  pub running : Bool
  pub world : World b
  pub store : Store t
  pub rows : snapshots.State

module _ {b : Servers} {n : Numbers} {t : EventTables n} {snapshots : Table (SnapshotRow n)} where
  -- A tick while another one runs does nothing. Where the database does not answer, the tick ends
  -- in its `catch`.
  unfoldable pub compute_persist_and_alert :
      AlertEnv → Reply → Process b t snapshots → Process b t snapshots
  unfolding compute_and_persist_snapshot evaluate_and_alert
  compute_persist_and_alert env reply p =
      if p.running
      then p
      else if p.store.database_up
      then (let (snapshot, rows) =
            compute_and_persist_snapshot snapshots p.world.now p.store p.rows in
          let (_, world) = evaluate_and_alert n env reply snapshot p.world in
          record p { world = world; rows = rows })
      else p
