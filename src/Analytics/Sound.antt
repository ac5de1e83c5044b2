-- ===== src/Analytics/Sound.antt =====
-- The stored events of src/analytics/analytics.service.ts.
use mathlib.Core.List.{append-nil, append_assoc}
use verity_backend.Prelude.{
  ℕ, ◌≡◌, refl, sym, ap, ◌∙◌, inl, inr, Bool, true, false, Option, List, [], ◌∷◌, ◌++◌, arith, find,
  is_some, same_text, Bool-cases,
}
use verity_backend.Services.Numbers.{Numbers}
use verity_backend.Exec.{Result, ok, err, ◌>>=◌, continue}
use verity_backend.Queue.City.{Input}
use verity_backend.Analytics.Rows.{AnalyticsEvent}
use verity_backend.Analytics.Store.{
  EventTables, Store, Env, Creation, created, duplicate, failed, has_event, create_event,
}
use verity_backend.Analytics.Counters.{increment_ingest_counter}
use verity_backend.Analytics.Fields.{Given, is_skewed, max_property_count}
use verity_backend.Analytics.Clean.{IsBounded, OnOk}
use verity_backend.Analytics.Checked.{IsWithin, IsChecked, normalize_event-Ensures}
use verity_backend.Analytics.Ingest.{
  EventInput, EmitInput, ClientContext, client_input, server_input, event_row, report_creation,
  normalize_event, persist_event, track_client_event, track_server_event,
}

-- A stored event with allowed properties and short headers, whose time was near its arrival.
pub record IsClean {n : Numbers} (env : Env) (e : AnalyticsEvent n) : Type 0 where
  pub properties : IsBounded max_property_count e.properties
  pub version : e.schema_version ≡ 1
  pub near : is_skewed env e.received_at e.occurred_at ≡ false
  pub app_version : IsWithin 64 e.app_version
  pub build_number : IsWithin 64 e.build_number
  pub request_id : IsWithin 128 e.request_id
  pub region : IsWithin 64 e.region

module _ {n : Numbers} where
  event_row-IsClean :
      (env : Env) (now : ℕ) (e : EmitInput n) → IsChecked env now e → IsClean env (event_row e now)
  unfolding event_row
  event_row-IsClean env now e c = record {
    properties = c.properties;
    version = c.version;
    near = c.near;
    app_version = c.app_version;
    build_number = c.build_number;
    request_id = c.request_id;
    region = c.region;
  }

  -- Each event is clean, and its identifier is on no event before it.
  abbrev pub AllSound : Env → List (AnalyticsEvent n) → List (AnalyticsEvent n) → Type 0
  AllSound env older [] = Unit
  AllSound env older (e ∷ es) =
      IsClean env e
      × (is_some (find (λ o. same_text o.event_id e.event_id) older) ≡ false)
      × AllSound env (older ++ e ∷ []) es

  AllSound-append :
      (env : Env) (older es : List (AnalyticsEvent n)) (e : AnalyticsEvent n)
      → AllSound env older es
      → IsClean env e
      → is_some (find (λ o. same_text o.event_id e.event_id) (older ++ es)) ≡ false
      → AllSound env older (es ++ e ∷ [])
  AllSound-append env older [] e s c fresh = (c, (rw (append-nil older) at fresh), tt)
  AllSound-append env older (x ∷ es) e (clean, new, s) c fresh = (
    clean,
    new,
    AllSound-append env (older ++ x ∷ []) es e s c (rw (append_assoc older (x ∷ []) es) fresh),
  )

module _ {n : Numbers} {t : EventTables n} where
  abbrev pub IsSound : Env → Store t → Type 0
  IsSound env s = AllSound env [] (t.events.rows s.events)

  pub report_creation-events :
      (strict : Bool) (name : List ℕ) (now : ℕ) (c : Creation) (s : Store t)
      → (report_creation strict name now (c, s)).1.events ≡ s.events
  unfolding increment_ingest_counter
  report_creation-events strict name now created s = ground arith
  report_creation-events strict name now duplicate s = ground arith
  report_creation-events true name now failed s = refl
  report_creation-events false name now failed s = refl

  create_event-IsSound :
      (env : Env) (e : AnalyticsEvent n) (s : Store t)
      → IsClean env e
      → IsSound env s
      → IsSound env (create_event e s).1
  unfolding create_event
  create_event-IsSound env e s c h = elim (Bool-cases s.database_up) [
    | inr down ↦ rw (down, create_event) h
    | inl up ↦ elim (Bool-cases (has_event e.event_id s)) [
      | inl old ↦ rw (up, old, create_event) h
      | inr new ↦
          let fresh : is_some (find (λ o. same_text o.event_id e.event_id) (t.events.rows s.events))
              ≡ false =
            ap is_some
              (sym (t.events.find_first_lem (λ o. same_text o.event_id e.event_id) s.events))
            ∙ new in
          rw (up, new, create_event, t.events.rows-create)
            (AllSound-append env [] (t.events.rows s.events) e h c fresh)
    ]
  ]

  persist_event-IsSound :
      (env : Env) (e : EmitInput n) (strict : Bool) (now : ℕ) (s : Store t)
      → IsChecked env now e
      → IsSound env s
      → IsSound env (persist_event e strict now s).1
  unfolding persist_event
  persist_event-IsSound env e strict now s c h =
      let p = create_event (event_row e now) s in
      rw (report_creation-events strict e.name_text now p.0 p.1)
        (create_event-IsSound env (event_row e now) s (event_row-IsClean env now e c) h)

  -- A chain that ends with `persistEvent`.
  continue-IsSound :
      (env : Env) (strict : Bool) (now : ℕ) (s s' : Store t) (r : Result (EmitInput n))
      → s'.events ≡ s.events
      → OnOk (IsChecked env now) r
      → IsSound env s
      → IsSound env (continue r (λ e. persist_event e strict now) s').1
  continue-IsSound env strict now s s' (ok e) same c h =
      persist_event-IsSound env e strict now s' c (rw same h)
  continue-IsSound env strict now s s' (err x) same c h = rw same h

  ingest-IsSound :
      (env : Env) (strict : Bool) (now : ℕ) (uuid : List ℕ) (input : EventInput n) (s : Store t)
      → IsSound env s
      → IsSound env ((normalize_event env now uuid input >>= λ e. persist_event e strict now) s).1
  ingest-IsSound env strict now uuid input s h =
      let (same, c) = normalize_event-Ensures env now uuid input s in
      let p = normalize_event env now uuid input s in
      continue-IsSound env strict now s p.1 p.0 same c h

  -- Whatever clients and services report, each stored event has allowed properties only, none of
  -- a blocked key and at most 24, short headers and a time near its arrival, and no two share an
  -- identifier.
  pub track-IsSound :
      (env : Env) (now : ℕ) (uuid name : List ℕ) (properties : Given n) (s : Store t)
      (user : List ℕ) (context : ClientContext) (reporter : Option (List ℕ))
      (occurred_at event_id : Input) (version : Option (Option ℕ))
      → IsSound env s
      → IsSound env (track_client_event env now uuid user name properties context s).1
        × IsSound env (
            track_server_event env now uuid reporter name properties occurred_at event_id version s)
  unfolding track_client_event track_server_event
  track-IsSound env now uuid name properties s user context reporter occurred_at event_id version
        h =
      (
        ingest-IsSound env true now uuid (client_input user name properties context) s h,
        ingest-IsSound env false now uuid
            (server_input env reporter name properties occurred_at event_id version) s h,
      )
