-- ===== src/Analytics/Clean.antt =====
-- The checks of the fields of an event in src/analytics/analytics.service.ts: lemmas.
use verity_backend.Prelude.{
  ℕ, zero, suc, ◌+◌, ◌≤◌, ◌≡◌, refl, ◌∙◌, inl, inr, true, false, List, [], ◌∷◌, arith, leb, ltb,
  trim, same_text, text_length, length, All, Bool-cases, Option-cases,
}
use verity_backend.Services.Numbers.{Numbers}
use verity_backend.Exec.{
  Exception, Result, ok, err, Exec, ◌>>=◌, continue, unsupported_event_name, infinite_property,
  invalid_property_value, property_too_long, invalid_property_key, blocked_property_key,
}
use verity_backend.Analytics.Values.{
  EventName, analytics_event_names, Value, null_value, infinite, nested, boolean, number, text,
  Properties, entry_of, put_entry, slice,
}
use verity_backend.Analytics.Store.{EventTables, Store}
use verity_backend.Analytics.Counters.{record_dropped, increment_ingest_counter, refuse}
use verity_backend.Analytics.Fields.{
  max_string_length, is_key, is_blocked, parse_event_name, parse_value, parse_key, parse_entries,
}

-- A value that may be stored.
abbrev pub IsStorable : {n : Numbers} → Value n → Type 0
IsStorable infinite = ⊥
IsStorable nested = ⊥
IsStorable (text value) = leb (text_length value) max_string_length ≡ true
IsStorable _ = Unit

abbrev pub IsAllowed : {n : Numbers} → List ℕ × Value n → Type 0
IsAllowed (key, value) = (is_key key ≡ true) × (is_blocked key ≡ false) × IsStorable value

module _ {n : Numbers} where
  put_entry-IsAllowed :
      (key : List ℕ) (value : Value n) (ps : Properties n)
      → IsAllowed (key, value)
      → All IsAllowed ps
      → All IsAllowed (put_entry key value ps)
  put_entry-IsAllowed key value [] h hs = (h, tt)
  put_entry-IsAllowed key value ((j, w) ∷ ps) h ((k, b, s), hs) =
      elim (Bool-cases (same_text j key)) [
        | inl e ↦ rw e ((k, b, h.2), hs)
        | inr e ↦ rw e ((k, b, s), put_entry-IsAllowed key value ps h hs)
      ]

  length-put_entry :
      (key : List ℕ) (value : Value n) (ps : Properties n)
      → length (put_entry key value ps) ≤ length ps + 1
  length-put_entry key value [] = omega arith
  length-put_entry key value ((j, w) ∷ ps) = ground (arith, length-put_entry key value ps)

-- A text is cut to at most so many units.
pub text_length-slice : (m : ℕ) (cs : List ℕ) → text_length (slice m cs) ≤ m
text_length-slice zero cs = omega arith
text_length-slice (suc m) [] = omega arith
text_length-slice (suc zero) (c ∷ cs) = ground arith
text_length-slice (suc (suc m)) (c ∷ cs) =
    ground (arith, text_length-slice m cs, text_length-slice (suc m) cs)

abbrev IsGoodKey : List ℕ → Type 0
IsGoodKey key = (is_key key ≡ true) × (is_blocked key ≡ false)

module _ {n : Numbers} where
  -- So many properties at most, each of them allowed.
  abbrev pub IsBounded : ℕ → Properties n → Type 0
  IsBounded most ps = All IsAllowed ps × (length ps ≤ most)

abbrev pub IsAny : {A : Type 0} → A → Type 0
IsAny a = Unit

abbrev pub OnOk : {A : Type 0} → (A → Type 0) → Result A → Type 0
OnOk P (ok a) = P a
OnOk P (err e) = Unit

module _ {n : Numbers} {t : EventTables n} where
  -- The events are as before, and a result that is returned meets P.
  abbrev pub Ensures : {A : Type 0} → (A → Type 0) → Exec (Store t) A → Type 0
  Ensures P m = (s : Store t) → ((m s).1.events ≡ s.events) × OnOk P (m s).0

  abbrev Lasts : {A : Type 0} → (A → Type 0) → Store t → Result A × Store t → Type 0
  Lasts P s (r, s') = (s'.events ≡ s.events) × OnOk P r

  continue-Lasts :
      {A B : Type 0} (P : A → Type 0) (Q : B → Type 0) (s : Store t) (p : Result A × Store t)
      (f : A → Exec (Store t) B)
      → Lasts P s p
      → ((a : A) → P a → Ensures Q (f a))
      → Lasts Q s (continue p.0 f p.1)
  continue-Lasts P Q s (ok a, s') f (same, h) k = let (same', h') = k a h s' in (same' ∙ same, h')
  continue-Lasts P Q s (err e, s') f (same, h) k = (same, tt)

  pub bind-Ensures :
      {A B : Type 0} (P : A → Type 0) (Q : B → Type 0) (m : Exec (Store t) A)
      (f : A → Exec (Store t) B)
      → Ensures P m
      → ((a : A) → P a → Ensures Q (f a))
      → Ensures Q (m >>= f)
  bind-Ensures P Q m f h k s = continue-Lasts P Q s (m s) f (h s) k

  pub record_dropped-events :
      (now : ℕ) (name : List ℕ) (s : Store t) → (record_dropped now name s).events ≡ s.events
  unfolding record_dropped increment_ingest_counter
  record_dropped-events now name s = ground arith

  pub refuse-Ensures :
      {A : Type 0} (P : A → Type 0) (now : ℕ) (name : List ℕ) (e : Exception)
      → Ensures P (refuse now name e)
  refuse-Ensures P now name e s = (record_dropped-events now name s, tt)

  pub parse_event_name-Ensures :
      (now : ℕ) (value : List ℕ) → Ensures (IsAny {A = EventName}) (parse_event_name now value)
  unfolding parse_event_name
  parse_event_name-Ensures now value = elim (Option-cases (entry_of value analytics_event_names)) [
    | inl e ↦ rw e (refuse-Ensures (IsAny {A = EventName}) now value unsupported_event_name)
    | inr (name, e) ↦ rw e (λ s. (refl, tt))
  ]

  parse_value-Ensures :
      (now : ℕ) (name : List ℕ) (v : Value n) → Ensures IsStorable (parse_value now name v)
  unfolding parse_value
  parse_value-Ensures now name infinite =
      refuse-Ensures (IsStorable {n = n}) now name infinite_property
  parse_value-Ensures now name nested =
      refuse-Ensures (IsStorable {n = n}) now name invalid_property_value
  parse_value-Ensures now name (text value) =
      elim (Bool-cases (ltb max_string_length (text_length value))) [
        | inl e ↦ rw e (refuse-Ensures (IsStorable {n = n}) now name property_too_long)
        | inr e ↦ rw e (λ s. (refl, ground arith))
      ]
  parse_value-Ensures now name null_value = λ s. (refl, tt)
  parse_value-Ensures now name (boolean x) = λ s. (refl, tt)
  parse_value-Ensures now name (number x) = λ s. (refl, tt)

  parse_key-Ensures : (now : ℕ) (name raw : List ℕ) → Ensures IsGoodKey (parse_key now name raw)
  unfolding parse_key
  parse_key-Ensures now name raw = elim (Bool-cases (is_key (trim raw))) [
    | inr e ↦ rw e (refuse-Ensures IsGoodKey now name invalid_property_key)
    | inl e ↦ elim (Bool-cases (is_blocked (trim raw))) [
      | inl d ↦ rw (e, d) (refuse-Ensures IsGoodKey now name blocked_property_key)
      | inr d ↦ rw (e, d) (λ s. (refl, (e, d)))
    ]
  ]

  pub parse_entries-Ensures :
      (now : ℕ) (name : List ℕ) (rest output : Properties n) (most : ℕ)
      → All IsAllowed output
      → length output + length rest ≤ most
      → Ensures (IsBounded most) (parse_entries now name rest output)
  unfolding parse_entries
  parse_entries-Ensures now name [] output most h bound = λ s. (refl, (h, omega arith))
  parse_entries-Ensures now name ((raw_key, raw_value) ∷ rest) output most h bound =
      bind-Ensures IsGoodKey (IsBounded most) (parse_key now name raw_key) _
        (parse_key-Ensures now name raw_key)
        λ key (is_good, is_free).
          bind-Ensures IsStorable (IsBounded most) (parse_value now name raw_value) _
            (parse_value-Ensures now name raw_value)
            λ value is_short.
              parse_entries-Ensures now name rest (put_entry key value output) most
                (put_entry-IsAllowed key value output (is_good, is_free, is_short) h)
                (omega (arith, length-put_entry key value output))
