-- ===== src/Analytics/Checked.antt =====
-- The events that `normalizeEvent` of src/analytics/analytics.service.ts lets pass.
use verity_backend.Prelude.{
  ℕ, ◌≤◌, ◌≡◌, refl, inl, inr, false, Option, none, some, List, [], ◌∷◌, arith, ltb, ◌==◌, ==_iff,
  trim, text_length, length, Bool-cases,
}
use verity_backend.Prelude.Int.{ℤ, pos}
use verity_backend.Services.Numbers.{Numbers}
use verity_backend.Exec.{
  too_many_properties, invalid_properties, unsupported_schema_version, invalid_event_id,
  invalid_occurred_at, time_skew,
}
use verity_backend.Queue.City.{Input, absent, other_value, given}
use verity_backend.Analytics.Values.{EventName}
use verity_backend.Analytics.Store.{EventTables, Env}
use verity_backend.Analytics.Fields.{
  Given, falsy, no_object, entries, max_property_count, parse_properties,
  parse_event_schema_version, parse_event_id, is_uuid, is_skewed, parse_occurred_at, date_or_refuse,
  parse_metadata_string, cut_or_null,
}
use verity_backend.Analytics.Clean.{
  text_length-slice, IsBounded, IsAny, Ensures, bind-Ensures, refuse-Ensures,
  parse_event_name-Ensures, parse_entries-Ensures,
}
use verity_backend.Analytics.Ingest.{EventInput, EmitInput, first_of, normalize_event}

-- A text of at most so many units, where there is one.
abbrev pub IsWithin : ℕ → Option (List ℕ) → Type 0
IsWithin most none = Unit
IsWithin most (some cs) = text_length cs ≤ most

cut_or_null-IsWithin : (most : ℕ) (cs : List ℕ) → IsWithin most (cut_or_null most cs)
cut_or_null-IsWithin most [] = tt
cut_or_null-IsWithin most (c ∷ cs) = ground (arith, text_length-slice most (c ∷ cs))

parse_metadata_string-IsWithin :
    (value : Option (List ℕ)) (most : ℕ) → IsWithin most (parse_metadata_string value most)
unfolding parse_metadata_string
parse_metadata_string-IsWithin none most = tt
parse_metadata_string-IsWithin (some value) most = cut_or_null-IsWithin most (trim value)

first_of-IsWithin :
    (most : ℕ) (a c : Option (List ℕ))
    → IsWithin most a
    → IsWithin most c
    → IsWithin most (first_of a c)
first_of-IsWithin most none c h k = k
first_of-IsWithin most (some a) c h k = h

now_is_near : (env : Env) (now : ℕ) → is_skewed env now (pos now) ≡ false
unfolding is_skewed
now_is_near env now = ground arith

-- What the checks ensure of an event: allowed properties, short headers and a near time.
pub record IsChecked {n : Numbers} (env : Env) (now : ℕ) (e : EmitInput n) : Type 0 where
  pub properties : IsBounded max_property_count e.properties
  pub version : e.event_schema_version ≡ 1
  pub near : is_skewed env now e.occurred_at ≡ false
  pub app_version : IsWithin 64 e.app_version
  pub build_number : IsWithin 64 e.build_number
  pub request_id : IsWithin 128 e.request_id
  pub region : IsWithin 64 e.region

module _ {n : Numbers} {t : EventTables n} where
  parse_properties-Ensures :
      (now : ℕ) (given : Given n) (name : List ℕ)
      → Ensures (IsBounded {n = n} max_property_count) (parse_properties {t = t} now given name)
  unfolding parse_properties
  parse_properties-Ensures now falsy name = λ s. (refl, (tt, omega arith))
  parse_properties-Ensures now no_object name =
      refuse-Ensures (IsBounded {n = n} max_property_count) now name invalid_properties
  parse_properties-Ensures now (entries ps) name =
      elim (Bool-cases (ltb max_property_count (length ps))) [
        | inl e ↦
            rw e
              (refuse-Ensures (IsBounded {n = n} max_property_count) now name too_many_properties)
        | inr e ↦
            rw e (parse_entries-Ensures now name ps [] max_property_count tt (ground (arith, e)))
      ]

  parse_event_schema_version-Ensures :
      (now : ℕ) (value : Option (Option ℕ)) (name : List ℕ)
      → Ensures (λ (k : ℕ). k ≡ 1) (parse_event_schema_version {t = t} now value name)
  unfolding parse_event_schema_version
  parse_event_schema_version-Ensures now none name = λ s. (refl, refl)
  parse_event_schema_version-Ensures now (some none) name =
      refuse-Ensures (λ (k : ℕ). k ≡ 1) now name unsupported_schema_version
  parse_event_schema_version-Ensures now (some (some k)) name = elim (Bool-cases (k == 1)) [
    | inl e ↦ rw e (λ s. (refl, (==_iff k 1).0 e))
    | inr e ↦ rw e (refuse-Ensures (λ (k : ℕ). k ≡ 1) now name unsupported_schema_version)
  ]

  parse_event_id-Ensures :
      (now : ℕ) (uuid : List ℕ) (value : Input) (name : List ℕ)
      → Ensures (IsAny {A = List ℕ}) (parse_event_id {t = t} now uuid value name)
  unfolding parse_event_id
  parse_event_id-Ensures now uuid absent name = λ s. (refl, tt)
  parse_event_id-Ensures now uuid other_value name =
      refuse-Ensures (IsAny {A = List ℕ}) now name invalid_event_id
  parse_event_id-Ensures now uuid (given value) name = elim (Bool-cases (is_uuid (trim value))) [
    | inl e ↦ rw e (λ s. (refl, tt))
    | inr e ↦ rw e (refuse-Ensures (IsAny {A = List ℕ}) now name invalid_event_id)
  ]

  date_or_refuse-Ensures :
      (env : Env) (now : ℕ) (date : Option ℤ) (name : List ℕ)
      → Ensures
          (λ (at : ℤ). is_skewed env now at ≡ false)
          (date_or_refuse {t = t} env now date name)
  date_or_refuse-Ensures env now none name =
      refuse-Ensures (λ (at : ℤ). is_skewed env now at ≡ false) now name invalid_occurred_at
  date_or_refuse-Ensures env now (some at) name = elim (Bool-cases (is_skewed env now at)) [
    | inl e ↦ rw e (refuse-Ensures (λ (at : ℤ). is_skewed env now at ≡ false) now name time_skew)
    | inr e ↦ rw e (λ s. (refl, e))
  ]

  parse_occurred_at-Ensures :
      (env : Env) (now : ℕ) (value : Input) (name : List ℕ)
      → Ensures
          (λ (at : ℤ). is_skewed env now at ≡ false)
          (parse_occurred_at {t = t} env now value name)
  unfolding parse_occurred_at
  parse_occurred_at-Ensures env now absent name = λ s. (refl, now_is_near env now)
  parse_occurred_at-Ensures env now other_value name =
      refuse-Ensures (λ (at : ℤ). is_skewed env now at ≡ false) now name invalid_occurred_at
  parse_occurred_at-Ensures env now (given value) name =
      date_or_refuse-Ensures env now (env.parse_date value) name

  pub normalize_event-Ensures :
      (env : Env) (now : ℕ) (uuid : List ℕ) (input : EventInput n)
      → Ensures (IsChecked env now) (normalize_event {t = t} env now uuid input)
  unfolding normalize_event
  normalize_event-Ensures env now uuid input =
      let Q = IsChecked {n = n} env now in
      bind-Ensures (IsAny {A = EventName}) Q _ _ (parse_event_name-Ensures now input.name) λ name _.
        bind-Ensures (IsBounded {n = n} max_property_count) Q _ _
          (parse_properties-Ensures now input.properties input.name)
          λ properties bounded.
            bind-Ensures (λ (k : ℕ). k ≡ 1) Q _ _
              (parse_event_schema_version-Ensures now input.event_schema_version input.name)
              λ version first.
                bind-Ensures (IsAny {A = List ℕ}) Q _ _
                  (parse_event_id-Ensures now uuid input.event_id input.name)
                  λ event_id _.
                    bind-Ensures (λ (at : ℤ). is_skewed env now at ≡ false) Q _ _
                      (parse_occurred_at-Ensures env now input.occurred_at input.name)
                      λ at near s. (
                        refl,
                        record {
                          properties = bounded;
                          version = first;
                          near = near;
                          app_version = parse_metadata_string-IsWithin input.app_version 64;
                          build_number = parse_metadata_string-IsWithin input.build_number 64;
                          request_id = parse_metadata_string-IsWithin input.request_id 128;
                          region =
                              first_of-IsWithin 64 _ _
                                (parse_metadata_string-IsWithin input.region 64)
                                (parse_metadata_string-IsWithin env.app_region 64);
                        },
                      )
