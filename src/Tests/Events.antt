-- ===== src/Tests/Events.antt =====
-- Numbers and tables of events in memory, and the events of the examples.
use verity_backend.Prelude.{ℕ, ◌≡◌, refl, true, false, arith, none, List, [], ◌∷◌, leb, codes}
use verity_backend.Prelude.Int.{pos}
use verity_backend.Services.Numbers.{Numbers}
use verity_backend.Services.Database.{Table}
use verity_backend.Analytics.Values.{
  EventName, queue_joined, queue_match_found, session_started, Properties, number,
}
use verity_backend.Analytics.Rows.{AnalyticsEvent, web}
use verity_backend.Analytics.Store.{EventTables, Store, Env}
use verity_backend.Telemetry.Snapshot.{SnapshotRow}
use verity_backend.Tests.Memory.{memory_table}

pub leb_total : (x y : ℕ) → leb x y ≡ false → leb y x ≡ true
leb_total x y h = ground arith

pub leb_trans : (x y z : ℕ) → leb x y ≡ true → leb y z ≡ true → leb x z ≡ true
leb_trans x y z h k = ground arith

-- The natural numbers among those of JavaScript.
abbrev pub naturals : Numbers
naturals = record {
  Number = ℕ;
  le = leb;
  literal = λ k. k;
  le_total = leb_total;
  le_trans = leb_trans;
  le-literal = λ m k. refl;
}

abbrev pub memory_tables : EventTables naturals
memory_tables = record { events = memory_table _; hours = memory_table _ }

abbrev pub memory_snapshots : Table (SnapshotRow naturals)
memory_snapshots = memory_table _

abbrev pub empty_store : Store memory_tables
empty_store = record { database_up = true; events = ([], 2); hours = ([], 2) }

-- No variable is set, and no text is a date.
abbrev pub bare_env : Env
bare_env = record {
  app_region = none;
  max_future_skew_seconds = none;
  max_past_skew_seconds = none;
  parse_date = λ cs. none;
}

abbrev pub event : EventName → Properties naturals → AnalyticsEvent naturals
event name properties = record {
  schema_version = 1;
  event_id = codes "e";
  event_name = name;
  occurred_at = pos 1000;
  received_at = 1000;
  source = web;
  app_version = none;
  build_number = none;
  region = none;
  request_id = none;
  user = none;
  session_id = none;
  match_id = none;
  queue_key = none;
  properties = properties;
}

-- A user joins, is matched after ten seconds, and the session starts.
abbrev pub calm_day : List (AnalyticsEvent naturals)
calm_day =
    event queue_joined []
    ∷ event queue_match_found ((codes "waitSeconds", number 10) ∷ [])
    ∷ event session_started []
    ∷ []
