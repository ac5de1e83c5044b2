-- ===== src/Analytics/Repeated.antt =====
-- Events with an identifier that is already stored, in src/analytics/analytics.service.ts.
use verity_backend.Prelude.{
  ℕ, ◌≡◌, refl, ◌∙◌, inl, inr, Bool, true, false, List, arith, is_some-find-last, same_text,
  same_text_refl, Bool-cases,
}
use verity_backend.Services.Numbers.{Numbers}
use verity_backend.Exec.{ok}
use verity_backend.Analytics.Rows.{AnalyticsEvent}
use verity_backend.Analytics.Store.{
  EventTables, Store, Creation, created, duplicate, failed, has_event, create_event,
}
use verity_backend.Analytics.Counters.{Field, accepted, dropped, increment_ingest_counter}
use verity_backend.Analytics.Sound.{report_creation-events}
use verity_backend.Analytics.Ingest.{
  EmitInput, dropped_reply, duplicate_event_id, event_row, report_creation, persist_event,
}

module _ {n : Numbers} {t : EventTables n} where
  has_event-create_event :
      (e : AnalyticsEvent n) (s : Store t)
      → s.database_up ≡ true
      → (has_event e.event_id (create_event e s).1 ≡ true)
        × ((create_event e s).1.database_up ≡ true)
  unfolding create_event
  has_event-create_event e s up = elim (Bool-cases (has_event e.event_id s)) [
    | inl old ↦ rw (up, old, create_event) (old, refl)
    | inr new ↦
        rw (up, new, create_event, t.events.find_first_lem, t.events.rows-create)
          (
            is_some-find-last (λ o. same_text o.event_id e.event_id) (t.events.rows s.events) e
                (same_text_refl e.event_id),
            refl,
          )
  ]

  create_event-duplicate :
      (e : AnalyticsEvent n) (s : Store t)
      → s.database_up ≡ true
      → has_event e.event_id s ≡ true
      → create_event e s ≡ (duplicate, s)
  unfolding create_event
  create_event-duplicate e s up old = rw (up, old, create_event)

  database_up-increment :
      (name : List ℕ) (f : Field) (now : ℕ) (s : Store t)
      → (increment_ingest_counter name f now s).database_up ≡ s.database_up
  unfolding increment_ingest_counter
  database_up-increment name f now s = ground arith

  has_event-cong :
      (id : List ℕ) (s s' : Store t)
      → s'.events ≡ s.events
      → has_event id s ≡ true
      → has_event id s' ≡ true
  has_event-cong id s s' same h = rw same h

  database_up-report_creation :
      (strict : Bool) (name : List ℕ) (now : ℕ) (c : Creation) (s : Store t)
      → (report_creation strict name now (c, s)).1.database_up ≡ s.database_up
  unfolding increment_ingest_counter
  database_up-report_creation strict name now created s = database_up-increment name accepted now s
  database_up-report_creation strict name now duplicate s = database_up-increment name dropped now s
  database_up-report_creation true name now failed s = refl
  database_up-report_creation false name now failed s = refl

  -- Where the database answers, an event whose identifier has been sent before is refused as a
  -- duplicate and changes no event, whoever sent the first one and however it ended.
  pub persist_event-persist_event :
      (e e' : EmitInput n) (strict strict' : Bool) (now later : ℕ) (s : Store t)
      → s.database_up ≡ true
      → e'.event_id ≡ e.event_id
      → let s' = (persist_event e strict now s).1 in
        ((persist_event e' strict' later s').0 ≡ ok (dropped_reply duplicate_event_id))
        × ((persist_event e' strict' later s').1.events ≡ s'.events)
  unfolding persist_event event_row
  persist_event-persist_event e e' strict strict' now later s up same =
      let p = create_event (event_row e now) s in
      let s' = (persist_event e strict now s).1 in
      let (has, is_up) = has_event-create_event (event_row e now) s up in
      let up' : s'.database_up ≡ true =
        database_up-report_creation strict e.name_text now p.0 p.1 ∙ is_up in
      let known : has_event (event_row e' later).event_id s' ≡ true = rw same (
        has_event-cong e.event_id p.1 s' (report_creation-events strict e.name_text now p.0 p.1)
          has) in
      let again = create_event-duplicate (event_row e' later) s' up' known in
      rw again (refl, report_creation-events strict' e'.name_text later duplicate s')
