-- ===== src/Analytics/Store.antt =====
-- The tables of events behind src/prisma/prisma.service.ts, and what the environment sets.
use verity_backend.Prelude.{ℕ, Bool, Option, List, same_text, is_some, if◌then◌else◌}
use verity_backend.Prelude.Int.{ℤ}
use verity_backend.Services.Numbers.{Numbers}
use verity_backend.Services.Database.{Table}
use verity_backend.Analytics.Rows.{AnalyticsEvent, IngestHour}

pub record EventTables (n : Numbers) : Type 1 where
  pub events : Table (AnalyticsEvent n)
  pub hours : Table IngestHour

-- The rows, and whether the database answers.
pub record Store {n : Numbers} (t : EventTables n) : Type 0 where
  pub database_up : Bool
  pub events : t.events.State
  pub hours : t.hours.State

-- The variables APP_REGION, ANALYTICS_MAX_FUTURE_SKEW_SECONDS and ANALYTICS_MAX_PAST_SKEW_SECONDS,
-- and `new Date(text)`, which is `none` where the text is no date.
pub record Env : Type 0 where
  pub app_region : Option (List ℕ)
  pub max_future_skew_seconds : Option (List ℕ)
  pub max_past_skew_seconds : Option (List ℕ)
  pub parse_date : List ℕ → Option ℤ

-- How `analyticsEvent.create` ends: the identifiers of events are unique.
pub data Creation : Type 0 where
  created duplicate failed : Creation

module _ {n : Numbers} {t : EventTables n} where
  abbrev pub has_event : List ℕ → Store t → Bool
  has_event id s = is_some (t.events.find_first (λ e. same_text e.event_id id) s.events)

  unfoldable pub create_event : AnalyticsEvent n → Store t → Creation × Store t
  create_event e s =
      if s.database_up
      then if has_event e.event_id s
        then (duplicate, s)
        else (created, record s { events = (t.events.create (λ id. e) s.events).1 })
      else (failed, s)
