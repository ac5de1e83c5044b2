-- ===== src/Analytics/Rows.antt =====
-- The rows of the event tables of prisma/schema.prisma.
use verity_backend.Prelude.{ℕ, Option, List}
use verity_backend.Prelude.Int.{ℤ}
use verity_backend.Services.Numbers.{Numbers}
use verity_backend.Analytics.Values.{EventName, Properties}

pub data Source : Type 0 where
  web ios android backend : Source

pub record AnalyticsEvent (n : Numbers) : Type 0 where
  pub schema_version : ℕ
  pub event_id : List ℕ
  pub event_name : EventName
  pub occurred_at : ℤ
  pub received_at : ℕ
  pub source : Source
  pub app_version : Option (List ℕ)
  pub build_number : Option (List ℕ)
  pub region : Option (List ℕ)
  pub request_id : Option (List ℕ)
  pub user : Option (List ℕ)
  pub session_id : Option (List ℕ)
  pub match_id : Option (List ℕ)
  pub queue_key : Option (List ℕ)
  pub properties : Properties n

-- The counts of an hour and an event name.
pub record IngestHour : Type 0 where
  pub hour_start : ℕ
  pub event_name : List ℕ
  pub accepted_count : ℕ
  pub dropped_count : ℕ
