-- ===== src/Monitoring.antt =====
-- src/monitoring/monitoring.controller.ts: the checks of what browsers report. The numbers in a
-- report are kept as they are.
use verity_backend.Prelude.{
  ℕ, Bool, true, false, not, ◌&&◌, ◌||◌, Option, none, some, List, [], ◌∷◌, leb, ltb, ◌==◌, take,
  trim, codes, same_text, text_length, is_some, if◌then◌else◌,
}
use verity_backend.Exec.{
  Result, ok, err, Exception, origin_not_allowed, invalid_report, not_a_text, wrong_length,
  not_a_number, unsupported_name, invalid_rating, invalid_error_type, nothing_reported,
}
use verity_backend.Config.Secrets.{SecurityEnv, is_origin_allowed}
use verity_backend.Analytics.Values.{slice}
pub mod Accepted

-- A field of a JSON body: `undefined` or null, a text, a number, or something else.
pub data Field : Type 0 where
  missing other_field : Field
  text_field : List ℕ → Field
  number_field : ℕ → Field

infixl 10 ◌>>=◌
abbrev pub ◌>>=◌ : {A B : Type 0} → Result A → (A → Result B) → Result B
ok a >>= f = f a
err e >>= f = err e

abbrev pub in_range : ℕ → ℕ → List ℕ → Result (List ℕ)
in_range least most value =
    if ltb (text_length value) least || ltb most (text_length value)
    then err wrong_length
    else ok value

unfoldable pub parse_string : Field → ℕ → ℕ → Result (List ℕ)
parse_string (text_field input) least most = in_range least most (trim input)
parse_string _ least most = err not_a_text

abbrev pub given_text : Result (List ℕ) → Result (Option (List ℕ))
given_text r = r >>= λ value. ok (some value)

unfoldable pub parse_optional_string : Field → ℕ → ℕ → Result (Option (List ℕ))
unfolding parse_string
parse_optional_string missing least most = ok none
parse_optional_string input least most = given_text (parse_string input least most)

unfoldable pub parse_finite_number : Field → Result ℕ
parse_finite_number (number_field n) = ok n
parse_finite_number _ = err not_a_number

unfoldable pub parse_optional_number : Field → Result (Option ℕ)
parse_optional_number missing = ok none
parse_optional_number (number_field n) = ok (some n)
parse_optional_number _ = err not_a_number

pub data WebVitalName : Type 0 where
  cls inp lcp fcp ttfb : WebVitalName

pub data WebVitalRating : Type 0 where
  good needs_improvement poor : WebVitalRating

pub data ErrorType : Type 0 where
  error_type unhandled_rejection : ErrorType

abbrev pub name_of : List ℕ → Result WebVitalName
name_of value =
    if same_text value (codes "CLS")
    then ok cls
    else if same_text value (codes "INP")
    then ok inp
    else if same_text value (codes "LCP")
    then ok lcp
    else if same_text value (codes "FCP")
    then ok fcp
    else if same_text value (codes "TTFB")
    then ok ttfb
    else err unsupported_name

unfoldable pub parse_web_vital_name : Field → Result WebVitalName
unfolding parse_string
parse_web_vital_name input = parse_string input 1 12 >>= λ value. name_of value

abbrev pub rating_of : List ℕ → Result (Option WebVitalRating)
rating_of value =
    if same_text value (codes "good")
    then ok (some good)
    else if same_text value (codes "needs-improvement")
    then ok (some needs_improvement)
    else if same_text value (codes "poor")
    then ok (some poor)
    else err invalid_rating

unfoldable pub parse_web_vital_rating : Field → Result (Option WebVitalRating)
unfolding parse_string
parse_web_vital_rating missing = ok none
parse_web_vital_rating input = parse_string input 1 32 >>= λ value. rating_of value

abbrev pub error_type_of : List ℕ → Result ErrorType
error_type_of value =
    if same_text value (codes "error")
    then ok error_type
    else if same_text value (codes "unhandledrejection")
    then ok unhandled_rejection
    else err invalid_error_type

unfoldable pub parse_error_type : Field → Result ErrorType
unfolding parse_string
parse_error_type input = parse_string input 1 40 >>= λ value. error_type_of value

-- The fields of a body, or a body that is no object.
pub record WebVitalsBody : Type 0 where
  pub name : Field
  pub value : Field
  pub id : Field
  pub rating : Field
  pub timestamp : Field
  pub path : Field

pub record WebVitalsPayload : Type 0 where
  pub name : WebVitalName
  pub value : ℕ
  pub id : List ℕ
  pub rating : Option WebVitalRating
  pub timestamp : Option ℕ
  pub path : Option (List ℕ)

unfoldable pub parse_web_vitals_payload : Option WebVitalsBody → Result WebVitalsPayload
unfolding parse_web_vital_name parse_finite_number parse_string parse_web_vital_rating
    parse_optional_number parse_optional_string
parse_web_vitals_payload none = err invalid_report
parse_web_vitals_payload (some input) = do
  name ← parse_web_vital_name input.name
  value ← parse_finite_number input.value
  id ← parse_string input.id 1 120
  rating ← parse_web_vital_rating input.rating
  timestamp ← parse_optional_number input.timestamp
  path ← parse_optional_string input.path 1 200
  ok (record {
    name = name;
    value = value;
    id = id;
    rating = rating;
    timestamp = timestamp;
    path = path;
  })

pub record FrontendErrorBody : Type 0 where
  pub type : Field
  pub message : Field
  pub reason : Field
  pub source : Field
  pub line : Field
  pub column : Field
  pub stack : Field
  pub path : Field
  pub timestamp : Field

pub record FrontendErrorPayload : Type 0 where
  pub type : ErrorType
  pub message : Option (List ℕ)
  pub reason : Option (List ℕ)
  pub source : Option (List ℕ)
  pub line : Option ℕ
  pub column : Option ℕ
  pub stack : Option (List ℕ)
  pub path : Option (List ℕ)
  pub timestamp : Option ℕ

-- `a ?` holds: a text that is there and not empty
abbrev pub holds_text : Option (List ℕ) → Bool
holds_text none = false
holds_text (some []) = false
holds_text (some (c ∷ cs)) = true

abbrev pub check_reported : FrontendErrorPayload → Result FrontendErrorPayload
check_reported p =
    if not (holds_text p.message) && not (holds_text p.reason) then err nothing_reported else ok p

unfoldable pub parse_frontend_error_payload : Option FrontendErrorBody → Result FrontendErrorPayload
unfolding parse_error_type parse_optional_string parse_optional_number
parse_frontend_error_payload none = err invalid_report
parse_frontend_error_payload (some input) = do
  type ← parse_error_type input.type
  message ← parse_optional_string input.message 1 500
  reason ← parse_optional_string input.reason 1 500
  source ← parse_optional_string input.source 1 300
  line ← parse_optional_number input.line
  column ← parse_optional_number input.column
  stack ← parse_optional_string input.stack 1 4000
  path ← parse_optional_string input.path 1 200
  timestamp ← parse_optional_number input.timestamp
  check_reported (record {
    type = type;
    message = message;
    reason = reason;
    source = source;
    line = line;
    column = column;
    stack = stack;
    path = path;
    timestamp = timestamp;
  })

abbrev pub if_allowed : {A : Type 0} → Bool → Result A → Result A
if_allowed true r = r
if_allowed false r = err origin_not_allowed

-- `limit`: the first units of a text, and nothing of an empty one
unfoldable pub limit : Option (List ℕ) → ℕ → Option (List ℕ)
limit none most = none
limit (some []) most = none
limit (some (c ∷ cs)) most =
    some (if ltb most (text_length (c ∷ cs)) then slice most (c ∷ cs) else c ∷ cs)

-- What is written to the log for a report that is accepted, beside the name of the channel.
pub record Logged (A : Type 0) : Type 0 where
  pub payload : A
  pub origin : Option (List ℕ)
  pub user_agent : Option (List ℕ)
  pub received_at : ℕ

unfoldable pub logged_of :
    {A : Type 0} → ℕ → Option (List ℕ) → Option (List ℕ) → Result A → Result (Logged A)
unfolding limit
logged_of now origin user_agent parsed = parsed >>= λ payload. ok (record {
  payload = payload;
  origin = origin;
  user_agent = limit user_agent 200;
  received_at = now;
})

unfoldable pub capture_web_vitals :
    SecurityEnv
    → ℕ
    → Option (List ℕ)
    → Option (List ℕ)
    → Option WebVitalsBody
    → Result (Logged WebVitalsPayload)
unfolding parse_web_vitals_payload logged_of
capture_web_vitals env now origin user_agent body =
    if_allowed (is_origin_allowed env origin)
      (logged_of now origin user_agent (parse_web_vitals_payload body))

unfoldable pub capture_frontend_error :
    SecurityEnv
    → ℕ
    → Option (List ℕ)
    → Option (List ℕ)
    → Option FrontendErrorBody
    → Result (Logged FrontendErrorPayload)
unfolding parse_frontend_error_payload logged_of
capture_frontend_error env now origin user_agent body =
    if_allowed (is_origin_allowed env origin)
      (logged_of now origin user_agent (parse_frontend_error_payload body))
