-- ===== src/Analytics/Ingest.antt =====
-- `trackClientEvent`, `trackServerEvent`, `normalizeEvent` and `persistEvent` of
-- src/analytics/analytics.service.ts. A UUID is given for an event without one. The lines that
-- are written to the console are left out.
use verity_backend.Prelude.{ℕ, Bool, true, false, Option, none, some, List, [], ◌∷◌, codes, trim}
use verity_backend.Prelude.Int.{ℤ}
use verity_backend.Services.Numbers.{Numbers}
use verity_backend.Exec.{Result, ok, err, Exec, pure, ◌>>=◌, sink_failed}
use verity_backend.Queue.City.{Input}
use verity_backend.Analytics.Values.{EventName, Value, text, Properties, entry_of, slice}
use verity_backend.Analytics.Rows.{Source, backend, AnalyticsEvent}
use verity_backend.Analytics.Store.{
  EventTables, Store, Env, Creation, created, duplicate, failed, create_event,
}
use verity_backend.Analytics.Counters.{accepted, dropped, increment_ingest_counter}
use verity_backend.Analytics.Fields.{
  Given, parse_event_name, parse_properties, parse_event_schema_version, parse_event_id,
  parse_occurred_at, parse_metadata_string, parse_client_platform,
}

-- The argument of `normalizeEvent`.
pub record EventInput (n : Numbers) : Type 0 where
  pub source : Source
  pub user : Option (List ℕ)
  pub name : List ℕ
  pub properties : Given n
  pub app_version : Option (List ℕ)
  pub build_number : Option (List ℕ)
  pub request_id : Option (List ℕ)
  pub region : Option (List ℕ)
  pub event_id : Input
  pub occurred_at : Input
  pub event_schema_version : Option (Option ℕ)

-- `EmitInput`; the name both as text and as what it stands for.
pub record EmitInput (n : Numbers) : Type 0 where
  pub source : Source
  pub user : Option (List ℕ)
  pub name_text : List ℕ
  pub name : EventName
  pub properties : Properties n
  pub app_version : Option (List ℕ)
  pub build_number : Option (List ℕ)
  pub request_id : Option (List ℕ)
  pub region : Option (List ℕ)
  pub event_id : List ℕ
  pub occurred_at : ℤ
  pub event_schema_version : ℕ

-- The context of a request: the platform and the other headers.
pub record ClientContext : Type 0 where
  pub platform : Option (List ℕ)
  pub app_version : Option (List ℕ)
  pub build_number : Option (List ℕ)
  pub request_id : Option (List ℕ)
  pub region : Option (List ℕ)
  pub event_id : Input
  pub occurred_at : Input
  pub event_schema_version : Option (Option ℕ)

pub data DropReason : Type 0 where
  duplicate_event_id sink_error : DropReason

pub record TrackReply : Type 0 where
  pub is_accepted : Bool
  pub dropped_reason : Option DropReason

abbrev pub accepted_reply : TrackReply
accepted_reply = record { is_accepted = true; dropped_reason = none }

abbrev pub dropped_reply : DropReason → TrackReply
dropped_reply reason = record { is_accepted = false; dropped_reason = some reason }

-- `a ?? b`
abbrev pub first_of : Option (List ℕ) → Option (List ℕ) → Option (List ℕ)
first_of none b = b
first_of (some a) b = some a

abbrev pub cut_text : List ℕ → Option (List ℕ)
cut_text [] = none
cut_text (c ∷ cs) = some (slice 128 (c ∷ cs))

module _ {n : Numbers} where
  unfoldable pub extract_property_string : Option (Value n) → Option (List ℕ)
  extract_property_string (some (text value)) = cut_text (trim value)
  extract_property_string _ = none

  -- The row of an event, with `extractCorrelationFields`.
  unfoldable pub event_row : EmitInput n → ℕ → AnalyticsEvent n
  unfolding extract_property_string
  event_row e received_at = record {
    schema_version = e.event_schema_version;
    event_id = e.event_id;
    event_name = e.name;
    occurred_at = e.occurred_at;
    received_at = received_at;
    source = e.source;
    app_version = e.app_version;
    build_number = e.build_number;
    region = e.region;
    request_id = e.request_id;
    user = e.user;
    session_id = extract_property_string (entry_of (codes "sessionId") e.properties);
    match_id = extract_property_string (entry_of (codes "matchId") e.properties);
    queue_key = extract_property_string (entry_of (codes "queueKey") e.properties);
    properties = e.properties;
  }

  abbrev pub client_input : List ℕ → List ℕ → Given n → ClientContext → EventInput n
  client_input user name properties context = record {
    source = parse_client_platform context.platform;
    user = some user;
    name = name;
    properties = properties;
    app_version = context.app_version;
    build_number = context.build_number;
    request_id = context.request_id;
    region = context.region;
    event_id = context.event_id;
    occurred_at = context.occurred_at;
    event_schema_version = context.event_schema_version;
  }

  abbrev pub server_input :
      Env → Option (List ℕ) → List ℕ → Given n → Input → Input → Option (Option ℕ) → EventInput n
  server_input env user name properties occurred_at event_id version = record {
    source = backend;
    user = user;
    name = name;
    properties = properties;
    app_version = none;
    build_number = none;
    request_id = none;
    region = env.app_region;
    event_id = event_id;
    occurred_at = occurred_at;
    event_schema_version = version;
  }

module _ {n : Numbers} {t : EventTables n} where
  unfoldable pub normalize_event : Env → ℕ → List ℕ → EventInput n → Exec (Store t) (EmitInput n)
  unfolding parse_event_name parse_properties parse_event_schema_version parse_event_id
      parse_occurred_at parse_metadata_string
  normalize_event env now uuid input = do
    name ← parse_event_name now input.name
    properties ← parse_properties now input.properties input.name
    version ← parse_event_schema_version now input.event_schema_version input.name
    event_id ← parse_event_id now uuid input.event_id input.name
    occurred_at ← parse_occurred_at env now input.occurred_at input.name
    pure (record {
      source = input.source;
      user = input.user;
      name_text = input.name;
      name = name;
      properties = properties;
      app_version = parse_metadata_string input.app_version 64;
      build_number = parse_metadata_string input.build_number 64;
      request_id = parse_metadata_string input.request_id 128;
      region =
          first_of (parse_metadata_string input.region 64)
            (parse_metadata_string env.app_region 64);
      event_id = event_id;
      occurred_at = occurred_at;
      event_schema_version = version;
    })

  -- What follows the insert.
  abbrev pub report_creation : Bool → List ℕ → ℕ → Creation × Store t → Result TrackReply × Store t
  unfolding increment_ingest_counter
  report_creation strict name now (created, s) =
      (ok accepted_reply, increment_ingest_counter name accepted now s)
  report_creation strict name now (duplicate, s) =
      (ok (dropped_reply duplicate_event_id), increment_ingest_counter name dropped now s)
  report_creation true name now (failed, s) = (err sink_failed, s)
  report_creation false name now (failed, s) = (ok (dropped_reply sink_error), s)

  unfoldable pub persist_event : EmitInput n → Bool → ℕ → Exec (Store t) TrackReply
  unfolding event_row create_event report_creation
  persist_event e strict now s =
      report_creation strict e.name_text now (create_event (event_row e now) s)

  unfoldable pub track_client_event :
      Env → ℕ → List ℕ → List ℕ → List ℕ → Given n → ClientContext → Exec (Store t) TrackReply
  unfolding normalize_event persist_event
  track_client_event env now uuid user name properties context = do
    normalized ← normalize_event env now uuid (client_input user name properties context)
    persist_event normalized true now

  -- `catch`: the exception is only logged
  abbrev pub caught : {A : Type 0} → Result A × Store t → Store t
  caught (r, s) = s

  unfoldable pub track_server_event :
      Env
      → ℕ
      → List ℕ
      → Option (List ℕ)
      → List ℕ
      → Given n
      → Input
      → Input
      → Option (Option ℕ)
      → Store t
      → Store t
  unfolding normalize_event persist_event
  track_server_event env now uuid user name properties occurred_at event_id version s = caught (
      (do
        normalized ←
            normalize_event env now uuid
              (server_input env user name properties occurred_at event_id version)
        persist_event normalized false now)
        s)
