-- ===== src/Analytics/Counters.antt =====
-- The hourly counts of src/analytics/analytics.service.ts: `incrementIngestCounter`,
-- `sanitizeEventNameForCounter` and `recordDropped`.
use verity_backend.Prelude.{
  ℕ, ◌+◌, ◌-◌, ◌*◌, ◌%◌, Bool, ◌&&◌, List, [], ◌∷◌, leb, ◌==◌, codes, trim, same_text, text_length,
  is_some, if◌then◌else◌,
}
use verity_backend.Services.Numbers.{Numbers}
use verity_backend.Exec.{Exception, Exec, err}
use verity_backend.Services.Database.{Table}
use verity_backend.Analytics.Values.{slice}
use verity_backend.Analytics.Rows.{IngestHour}
use verity_backend.Analytics.Store.{EventTables, Store}

-- `field`
pub data Field : Type 0 where
  accepted dropped : Field

abbrev pub hour_ms : ℕ
hour_ms = 60 * 60 * 1000

-- `setUTCMinutes(0, 0, 0)`
abbrev pub hour_start_of : ℕ → ℕ
hour_start_of now = now - now % hour_ms

-- `trimmed`, or 'unknown' where it is empty
abbrev pub name_or_unknown : List ℕ → List ℕ
name_or_unknown [] = codes "unknown"
name_or_unknown (c ∷ cs) = if leb (text_length (c ∷ cs)) 120 then c ∷ cs else slice 120 (c ∷ cs)

unfoldable pub sanitize_event_name_for_counter : List ℕ → List ℕ
sanitize_event_name_for_counter value = name_or_unknown (trim value)

abbrev pub is_hour : ℕ → List ℕ → IngestHour → Bool
is_hour start name h = h.hour_start == start && same_text h.event_name name

abbrev pub first_count : ℕ → List ℕ → Field → IngestHour
first_count start name accepted = record {
  hour_start = start;
  event_name = name;
  accepted_count = 1;
  dropped_count = 0;
}
first_count start name dropped = record {
  hour_start = start;
  event_name = name;
  accepted_count = 0;
  dropped_count = 1;
}

-- `{ increment: 1 }`
abbrev pub increment : Field → IngestHour → IngestHour
increment accepted h = record h { accepted_count = h.accepted_count + 1 }
increment dropped h = record h { dropped_count = h.dropped_count + 1 }

module _ (table : Table IngestHour) where
  unfoldable pub upsert_hour : ℕ → List ℕ → Field → table.State → table.State
  upsert_hour start name field hours =
      if is_some (table.find_first (is_hour start name) hours)
      then (table.update_many (is_hour start name) (increment field) hours).1
      else (table.create (λ id. first_count start name field) hours).1

module _ {n : Numbers} {t : EventTables n} where
  -- Where the database does not answer, the exception is caught by each caller that gets here.
  unfoldable pub increment_ingest_counter : List ℕ → Field → ℕ → Store t → Store t
  unfolding sanitize_event_name_for_counter upsert_hour
  increment_ingest_counter name field received_at s =
      if s.database_up
      then record s {
        hours =
            upsert_hour t.hours (hour_start_of received_at) (sanitize_event_name_for_counter name)
              field s.hours;
      }
      else s

  unfoldable pub record_dropped : ℕ → List ℕ → Store t → Store t
  unfolding increment_ingest_counter sanitize_event_name_for_counter
  record_dropped now name s =
      increment_ingest_counter (sanitize_event_name_for_counter name) dropped now s

  -- `recordDropped` and a `BadRequestException`
  abbrev pub refuse : {A : Type 0} → ℕ → List ℕ → Exception → Exec (Store t) A
  refuse now name e s = (err e, record_dropped now name s)
