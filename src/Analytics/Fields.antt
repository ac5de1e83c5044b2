-- ===== src/Analytics/Fields.antt =====
-- The checks of the fields of an event in src/analytics/analytics.service.ts. A refusal counts a
-- dropped event.
use verity_backend.Prelude.{
  ℕ, zero, suc, ◌*◌, Bool, true, false, not, ◌&&◌, ◌||◌, Option, none, some, List, [], ◌∷◌, leb,
  ltb, ◌==◌, codes, trim, same_text, text_length, length, any, if◌then◌else◌,
}
use verity_backend.Prelude.Int.{ℤ, pos, less, exceeds, is_under}
use verity_backend.Services.Numbers.{Numbers}
use verity_backend.Exec.{
  Exec, pure, ◌>>=◌, unsupported_event_name, invalid_properties, too_many_properties,
  invalid_property_key, blocked_property_key, infinite_property, property_too_long,
  invalid_property_value, unsupported_schema_version, invalid_event_id, invalid_occurred_at,
  time_skew,
}
use verity_backend.Matches.Reveal.{lower}
use verity_backend.Queue.City.{Input, absent, other_value, given, to_lower_case}
use verity_backend.Payments.Webhook.{is_digit}
use verity_backend.Environment.{positive_or}
use verity_backend.Analytics.Values.{
  EventName, analytics_event_names, Value, infinite, nested, text, Properties, entry_of, put_entry,
  slice,
}
use verity_backend.Analytics.Rows.{Source, web, ios, android}
use verity_backend.Analytics.Store.{EventTables, Store, Env}
use verity_backend.Analytics.Counters.{refuse}

-- The properties of a request: a falsy value, an array or another value that is no object, or
-- the entries of an object.
pub data Given (n : Numbers) : Type 0 where
  falsy no_object : Given n
  entries : Properties n → Given n

abbrev pub max_property_count : ℕ
max_property_count = 24

abbrev pub max_string_length : ℕ
max_string_length = 200

abbrev pub blocked_property_keys : List (List ℕ)
blocked_property_keys =
    codes "email"
    ∷ codes "phone"
    ∷ codes "text"
    ∷ codes "message"
    ∷ codes "bio"
    ∷ codes "display_name"
    ∷ codes "displayname"
    ∷ codes "name"
    ∷ codes "photos"
    ∷ codes "photo"
    ∷ codes "details"
    ∷ codes "token"
    ∷ codes "authorization"
    ∷ codes "cookie"
    ∷ []

-- [a-zA-Z0-9_]
abbrev pub is_key_char : ℕ → Bool
is_key_char c = is_digit c || (leb b'a' (lower c) && leb (lower c) b'z') || c == b'_'

abbrev pub every : (ℕ → Bool) → List ℕ → Bool
every p [] = true
every p (c ∷ cs) = p c && every p cs

-- KEY_PATTERN
unfoldable pub matches_key_pattern : List ℕ → Bool
unfolding lower
matches_key_pattern [] = false
matches_key_pattern (c ∷ cs) = every is_key_char (c ∷ cs)

unfoldable pub is_key : List ℕ → Bool
unfolding matches_key_pattern
is_key key = leb (text_length key) 64 && matches_key_pattern key

unfoldable pub is_blocked : List ℕ → Bool
unfolding to_lower_case
is_blocked key = any (same_text (to_lower_case key)) blocked_property_keys

-- [0-9a-f], in any case of letters
abbrev pub is_hex : ℕ → Bool
is_hex c = is_digit c || (leb b'a' (lower c) && leb (lower c) b'f')

abbrev pub repeat : ℕ → (ℕ → Bool) → List (ℕ → Bool) → List (ℕ → Bool)
repeat zero p ps = ps
repeat (suc k) p ps = p ∷ repeat k p ps

-- UUID_PATTERN, a test for each character
abbrev pub uuid_pattern : List (ℕ → Bool)
uuid_pattern =
    let dash = λ (c : ℕ). c == b'-' in
    let version = λ (c : ℕ). leb b'1' c && leb c b'5' in
    let variant = λ (c : ℕ). c == b'8' || c == b'9' || lower c == b'a' || lower c == b'b' in
    repeat 8 is_hex (
      dash
      ∷ repeat 4 is_hex (
          dash
          ∷ version
          ∷ repeat 3 is_hex (dash ∷ variant ∷ repeat 3 is_hex (dash ∷ repeat 12 is_hex []))))

abbrev pub fits : List (ℕ → Bool) → List ℕ → Bool
fits [] [] = true
fits (p ∷ ps) (c ∷ cs) = p c && fits ps cs
fits _ _ = false

unfoldable pub is_uuid : List ℕ → Bool
unfolding lower
is_uuid = fits uuid_pattern

unfoldable pub parse_client_platform : Option (List ℕ) → Source
unfolding to_lower_case
parse_client_platform none = web
parse_client_platform (some value) =
    let normalized = to_lower_case (trim value) in
    if same_text normalized (codes "ios")
    then ios
    else if same_text normalized (codes "android")
    then android
    else web

-- `trimmed`, cut to a length
abbrev pub cut : ℕ → List ℕ → List ℕ
cut most value = if ltb most (text_length value) then slice most value else value

abbrev pub cut_or_null : ℕ → List ℕ → Option (List ℕ)
cut_or_null most [] = none
cut_or_null most (c ∷ cs) = some (cut most (c ∷ cs))

unfoldable pub parse_metadata_string : Option (List ℕ) → ℕ → Option (List ℕ)
parse_metadata_string none most = none
parse_metadata_string (some value) most = cut_or_null most (trim value)

abbrev pub max_future_skew_seconds : Env → ℕ
unfolding positive_or
max_future_skew_seconds env = positive_or 300 env.max_future_skew_seconds

abbrev pub max_past_skew_seconds : Env → ℕ
unfolding positive_or
max_past_skew_seconds env = positive_or 86400 env.max_past_skew_seconds

-- Whether a time is outside of the window around now.
unfoldable pub is_skewed : Env → ℕ → ℤ → Bool
unfolding max_future_skew_seconds max_past_skew_seconds
is_skewed env now at =
    let skew = less at now in
    exceeds skew (max_future_skew_seconds env * 1000)
    || is_under skew (max_past_skew_seconds env * 1000)

module _ {n : Numbers} {t : EventTables n} where
  abbrev pub name_or_refuse : ℕ → List ℕ → Option EventName → Exec (Store t) EventName
  name_or_refuse now value none = refuse now value unsupported_event_name
  name_or_refuse now value (some name) = pure name

  unfoldable pub parse_event_name : ℕ → List ℕ → Exec (Store t) EventName
  parse_event_name now value = name_or_refuse now value (entry_of value analytics_event_names)

  -- The value of a property, or a refusal.
  unfoldable pub parse_value : ℕ → List ℕ → Value n → Exec (Store t) (Value n)
  parse_value now name infinite = refuse now name infinite_property
  parse_value now name nested = refuse now name invalid_property_value
  parse_value now name (text value) =
      if ltb max_string_length (text_length value)
      then refuse now name property_too_long
      else pure (text value)
  parse_value now name v = pure v

  unfoldable pub parse_key : ℕ → List ℕ → List ℕ → Exec (Store t) (List ℕ)
  unfolding is_key is_blocked
  parse_key now name raw_key =
      let key = trim raw_key in
      if not (is_key key)
      then refuse now name invalid_property_key
      else if is_blocked key
      then refuse now name blocked_property_key
      else pure key

  -- The loop over the entries.
  unfoldable pub parse_entries :
      ℕ → List ℕ → Properties n → Properties n → Exec (Store t) (Properties n)
  unfolding parse_key parse_value
  parse_entries now name [] output = pure output
  parse_entries now name ((raw_key, raw_value) ∷ rest) output = do
    key ← parse_key now name raw_key
    value ← parse_value now name raw_value
    parse_entries now name rest (put_entry key value output)

  unfoldable pub parse_properties : ℕ → Given n → List ℕ → Exec (Store t) (Properties n)
  unfolding parse_entries
  parse_properties now falsy name = pure []
  parse_properties now no_object name = refuse now name invalid_properties
  parse_properties now (entries ps) name =
      if ltb max_property_count (length ps)
      then refuse now name too_many_properties
      else parse_entries now name ps []

  -- A version by what `Number` makes of it: `some none` is a value that is no natural number.
  unfoldable pub parse_event_schema_version : ℕ → Option (Option ℕ) → List ℕ → Exec (Store t) ℕ
  parse_event_schema_version now none name = pure 1
  parse_event_schema_version now (some none) name = refuse now name unsupported_schema_version
  parse_event_schema_version now (some (some k)) name =
      if k == 1 then pure k else refuse now name unsupported_schema_version

  unfoldable pub parse_event_id : ℕ → List ℕ → Input → List ℕ → Exec (Store t) (List ℕ)
  unfolding is_uuid
  parse_event_id now uuid absent name = pure uuid
  parse_event_id now uuid other_value name = refuse now name invalid_event_id
  parse_event_id now uuid (given value) name =
      if is_uuid (trim value) then pure (trim value) else refuse now name invalid_event_id

  abbrev pub date_or_refuse : Env → ℕ → Option ℤ → List ℕ → Exec (Store t) ℤ
  date_or_refuse env now none name = refuse now name invalid_occurred_at
  date_or_refuse env now (some at) name =
      if is_skewed env now at then refuse now name time_skew else pure at

  unfoldable pub parse_occurred_at : Env → ℕ → Input → List ℕ → Exec (Store t) ℤ
  unfolding is_skewed
  parse_occurred_at env now absent name = pure (pos now)
  parse_occurred_at env now other_value name = refuse now name invalid_occurred_at
  parse_occurred_at env now (given value) name = date_or_refuse env now (env.parse_date value) name
