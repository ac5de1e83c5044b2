-- ===== src/Config/Flags.antt =====
-- src/flags/flags.service.ts
use verity_backend.Prelude.{
  ℕ, Bool, true, false, ◌||◌, Option, none, some, List, [], ◌∷◌, ◌≤◌, arith, leb, ltb, codes, trim,
  same_text, get_or_else, is_some, if◌then◌else◌,
}
use verity_backend.Services.Database.{Table}
use verity_backend.Payments.Webhook.{Parsed, nan, plus, minus, parse_int, infinity}
use verity_backend.Queue.City.{non_empty, to_lower_case}

-- A row of the table of flags; the metadata is kept as the number of its JSON value.
pub record FeatureFlag : Type 0 where
  pub key : List ℕ
  pub enabled : Bool
  pub variant : Option (List ℕ)
  pub description : Option (List ℕ)
  pub metadata : Option ℕ

-- The metadata of a request: `undefined`, null, or an object.
pub data Metadata : Type 0 where
  not_given null_metadata : Metadata
  object : ℕ → Metadata

pub record UpsertFlagInput : Type 0 where
  pub enabled : Bool
  pub variant : Option (List ℕ)
  pub description : Option (List ℕ)
  pub metadata : Metadata

-- FEATURE_FLAG_ONBOARDING_VARIANT, FEATURE_FLAG_SESSION_DURATION_SECONDS and
-- FEATURE_FLAG_REPORT_DIALOG_ENABLED
pub record FlagEnv : Type 0 where
  pub onboarding_variant : Option (List ℕ)
  pub session_duration_seconds : Option (List ℕ)
  pub report_dialog_enabled : Option (List ℕ)

pub record PublicFlags : Type 0 where
  pub onboarding_variant : List ℕ
  pub session_duration_seconds : ℕ
  pub report_dialog_enabled : Bool

-- `byKey.get(key)`; keys are unique
abbrev pub flag_of : List ℕ → List FeatureFlag → Option FeatureFlag
flag_of key [] = none
flag_of key (f ∷ fs) = if same_text f.key key then some f else flag_of key fs

unfoldable pub env_string : Option (List ℕ) → Option (List ℕ)
env_string none = none
env_string (some value) = non_empty (trim value)

-- The finite numbers that `parseInt` reads.
abbrev pub finite : Parsed → Option Parsed
finite nan = none
finite (plus k) = if leb infinity k then none else some (plus k)
finite (minus k) = if leb infinity k then none else some (minus k)

unfoldable pub env_number : Option (List ℕ) → Option Parsed
unfolding parse_int
env_number none = none
env_number (some raw) = finite (parse_int raw)

unfoldable pub env_boolean : Option (List ℕ) → Option Bool
unfolding to_lower_case
env_boolean none = none
env_boolean (some raw) =
    let normalized = to_lower_case (trim raw) in
    if same_text normalized (codes "1")
      || same_text normalized (codes "true")
      || same_text normalized (codes "yes")
      || same_text normalized (codes "on")
    then some true
    else if same_text normalized (codes "0")
        || same_text normalized (codes "false")
        || same_text normalized (codes "no")
        || same_text normalized (codes "off")
    then some false
    else none

abbrev pub variant_of : Option FeatureFlag → Option (List ℕ)
variant_of none = none
variant_of (some f) = f.variant

abbrev pub onboarding_or_control : Option FeatureFlag → List ℕ
onboarding_or_control none = codes "control"
onboarding_or_control (some f) =
    if f.enabled then get_or_else f.variant (codes "control") else codes "control"

unfoldable pub number_variant : Option (List ℕ) → ℕ → Parsed
unfolding parse_int
number_variant none fallback = plus fallback
number_variant (some value) fallback = get_or_else (finite (parse_int value)) (plus fallback)

-- `Math.max(15, Math.min(seconds, 180))`
unfoldable pub clamp_seconds : Parsed → ℕ
clamp_seconds (plus k) = let low = if ltb k 180 then k else 180 in if ltb low 15 then 15 else low
clamp_seconds _ = 15

abbrev pub enabled_or_true : Option FeatureFlag → Bool
enabled_or_true none = true
enabled_or_true (some f) = f.enabled

abbrev pub wanted_seconds : FlagEnv → List FeatureFlag → Parsed
unfolding env_number number_variant
wanted_seconds env rows =
    get_or_else (env_number env.session_duration_seconds)
      (number_variant (variant_of (flag_of (codes "session_duration_seconds") rows)) 45)

unfoldable pub public_flags : FlagEnv → List FeatureFlag → PublicFlags
unfolding env_string env_number number_variant env_boolean clamp_seconds
public_flags env rows = record {
  onboarding_variant =
      get_or_else (env_string env.onboarding_variant)
        (onboarding_or_control (flag_of (codes "onboarding_variant") rows));
  session_duration_seconds = clamp_seconds (wanted_seconds env rows);
  report_dialog_enabled =
      get_or_else (env_boolean env.report_dialog_enabled)
        (enabled_or_true (flag_of (codes "report_dialog_enabled") rows));
}

-- What is written: nothing where the metadata is not given.
abbrev pub map_metadata : Metadata → Option ℕ → Option ℕ
map_metadata not_given old = old
map_metadata null_metadata old = none
map_metadata (object m) old = some m

abbrev pub written : List ℕ → UpsertFlagInput → Option ℕ → FeatureFlag
written key input old = record {
  key = key;
  enabled = input.enabled;
  variant = input.variant;
  description = input.description;
  metadata = map_metadata input.metadata old;
}

module _ (t : Table FeatureFlag) where
  unfoldable pub get_public_flags : FlagEnv → t.State → PublicFlags
  unfolding public_flags
  get_public_flags env s = public_flags env (t.rows s)

  unfoldable pub upsert_flag : List ℕ → UpsertFlagInput → t.State → t.State
  upsert_flag key input s =
      if is_some (t.find_first (λ f. same_text f.key key) s)
      then (t.update_many (λ f. same_text f.key key) (λ f. written key input f.metadata) s).1
      else (t.create (λ id. written key input none) s).1

clamp_seconds_bounds : (p : Parsed) → (15 ≤ clamp_seconds p) × (clamp_seconds p ≤ 180)
unfolding clamp_seconds
clamp_seconds_bounds nan = (omega arith, omega arith)
clamp_seconds_bounds (plus k) = (ground arith, ground arith)
clamp_seconds_bounds (minus k) = (omega arith, omega arith)

-- Sessions last from 15 seconds to 3 minutes, whatever the environment and the table of flags
-- hold.
pub get_public_flags_bounds :
    (t : Table FeatureFlag) (env : FlagEnv) (s : t.State)
    → (15 ≤ (get_public_flags t env s).session_duration_seconds)
      × ((get_public_flags t env s).session_duration_seconds ≤ 180)
unfolding get_public_flags public_flags
get_public_flags_bounds t env s = clamp_seconds_bounds (wanted_seconds env (t.rows s))
