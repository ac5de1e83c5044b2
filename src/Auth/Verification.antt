-- ===== src/Auth/Verification.antt =====
-- `verifyPhone`, `verifyEmail` and `assertVerificationCodeValid` of src/auth/auth.service.ts. The
-- reply of the provider and `toLowerCase` are arguments.
use verity_backend.Prelude.{
  ℕ, Bool, true, false, not, ◌&&◌, ◌||◌, Option, none, some, List, filter, leb, ◌==◌, trim, codes,
  same_text, is_some, length, if◌then◌else◌,
}
use verity_backend.Exec.{
  Result, ok, err, Exec, no_such_row, invalid_phone, phone_in_use, invalid_email, email_in_use,
  code_required, provider_missing, invalid_code, request_failed,
}
use verity_backend.Schema.{User}
use verity_backend.World.{Servers, World}
use verity_backend.Auth.Refresh.{user_of}
use verity_backend.Payments.Webhook.{is_digit}
use verity_backend.Queue.City.{non_empty}

-- TWILIO_ACCOUNT_SID, TWILIO_AUTH_TOKEN, TWILIO_VERIFY_SERVICE_SID and NODE_ENV
pub record TwilioEnv : Type 0 where
  pub account_sid : Option (List ℕ)
  pub auth_token : Option (List ℕ)
  pub verify_service_sid : Option (List ℕ)
  pub node_env : Option (List ℕ)

-- The reply to a check: none at all, or whether it is a success, with the status that it holds.
pub data TwilioReply : Type 0 where
  unreachable : TwilioReply
  replied : Bool → Option (List ℕ) → TwilioReply

-- The replies by identifier and code.
abbrev pub Provider : Type 0
Provider = List ℕ → List ℕ → TwilioReply

abbrev pub has_text : Option (List ℕ) → Bool
has_text none = false
has_text (some value) = is_some (non_empty (trim value))

unfoldable pub is_configured : TwilioEnv → Bool
is_configured env =
    has_text env.account_sid && has_text env.auth_token && has_text env.verify_service_sid

abbrev pub is_text : List ℕ → Option (List ℕ) → Bool
is_text word none = false
is_text word (some value) = same_text value word

abbrev pub is_production : TwilioEnv → Bool
is_production env = is_text (codes "production") env.node_env

abbrev pub approval : TwilioReply → Result (Unit {0})
approval unreachable = err request_failed
approval (replied false status) = err invalid_code
approval (replied true status) =
    if is_text (codes "approved") status then ok tt else err invalid_code

unfoldable pub assert_code : Provider → TwilioEnv → List ℕ → Option (List ℕ) → Result (Unit {0})
unfolding is_configured
assert_code provider env identifier none = err code_required
assert_code provider env identifier (some code) =
    if is_configured env
    then approval (provider identifier code)
    else if is_production env
    then err provider_missing
    else ok tt

unfoldable pub assert_verification_code_valid :
    Provider → TwilioEnv → List ℕ → List ℕ → Result (Unit {0})
unfolding assert_code
assert_verification_code_valid provider env identifier code =
    assert_code provider env identifier (non_empty (trim code))

unfoldable pub normalize_phone : List ℕ → Option (List ℕ)
normalize_phone value =
    let cleaned = filter (λ c. is_digit c || c == b'+') value in
    if leb 8 (length cleaned) then some cleaned else none

unfoldable pub normalize_email : (List ℕ → List ℕ) → List ℕ → Option (List ℕ)
normalize_email lower_case value = non_empty (lower_case (trim value))

abbrev pub with_phone : List ℕ → User → User
with_phone phone u = record u { phone = some phone }

abbrev pub with_email : List ℕ → User → User
with_email email u = record u { email = some email }

module _ {b : Servers} where
  abbrev pub update_user : ℕ → (User → User) → World b → World b
  update_user user f w = record w { users = (b.users.update_many (λ u. u.id == user) f w.users).1 }

  -- the column is unique
  abbrev pub is_phone_taken : List ℕ → ℕ → World b → Bool
  is_phone_taken phone user w =
      is_some (b.users.find_first (λ u. not (u.id == user) && is_text phone u.phone) w.users)

  abbrev pub is_email_taken : List ℕ → ℕ → World b → Bool
  is_email_taken email user w =
      is_some (b.users.find_first (λ u. not (u.id == user) && is_text email u.email) w.users)

  abbrev pub set_phone : ℕ → List ℕ → Option User → Exec (World b) User
  set_phone user phone none w = (err no_such_row, w)
  set_phone user phone (some u) w =
      if is_phone_taken phone user w
      then (err phone_in_use, w)
      else (ok (with_phone phone u), update_user user (with_phone phone) w)

  abbrev pub set_email : ℕ → List ℕ → Option User → Exec (World b) User
  set_email user email none w = (err no_such_row, w)
  set_email user email (some u) w =
      if is_email_taken email user w
      then (err email_in_use, w)
      else (ok (with_email email u), update_user user (with_email email) w)

  abbrev pub if_valid : Result (Unit {0}) → Exec (World b) User → Exec (World b) User
  if_valid (ok _) update w = update w
  if_valid (err e) update w = (err e, w)

  unfoldable pub verify_phone_of :
      Provider → TwilioEnv → ℕ → List ℕ → Option (List ℕ) → Exec (World b) User
  unfolding assert_verification_code_valid
  verify_phone_of provider env user code none w = (err invalid_phone, w)
  verify_phone_of provider env user code (some phone) w =
      if_valid (assert_verification_code_valid provider env phone code)
        (set_phone user phone (user_of user w)) w

  unfoldable pub verify_phone : Provider → TwilioEnv → ℕ → List ℕ → List ℕ → Exec (World b) User
  unfolding normalize_phone
  verify_phone provider env user raw code w =
      verify_phone_of provider env user code (normalize_phone raw) w

  unfoldable pub verify_email_of :
      Provider → TwilioEnv → ℕ → List ℕ → Option (List ℕ) → Exec (World b) User
  unfolding assert_verification_code_valid
  verify_email_of provider env user code none w = (err invalid_email, w)
  verify_email_of provider env user code (some email) w =
      if_valid (assert_verification_code_valid provider env email code)
        (set_email user email (user_of user w)) w

  unfoldable pub verify_email :
      Provider → TwilioEnv → (List ℕ → List ℕ) → ℕ → List ℕ → List ℕ → Exec (World b) User
  unfolding normalize_email
  verify_email provider env lower_case user raw code w =
      verify_email_of provider env user code (normalize_email lower_case raw) w
