-- ===== src/Tests/AuthTests.antt =====
-- Examples of the refresh tokens and of the age of a user.
use verity_backend.Prelude.{
  ℕ, List, ◌+◌, ◌*◌, ◌≡◌, refl, true, none, some, [], ◌∷◌, codes, trim, ltb, if◌then◌else◌,
}
use verity_backend.Exec.{ok}
use verity_backend.Schema.{RefreshToken, Date}
use verity_backend.World.{World}
use verity_backend.Matches.Acknowledge.{later}
use verity_backend.Auth.Age.{calculate_age, is_below, is_before, birthday, is_below-calculate_age}
use verity_backend.Auth.Refresh.{
  Jwt, Tokens, verify_refresh_token, rotate_for, rotate, refresh_stored, refresh_verified,
  refresh_session,
}
use verity_backend.Auth.Reuse.{Caught, refresh_session-Caught}
use verity_backend.Auth.Verification.{
  TwilioEnv, Provider, replied, is_configured, assert_code, assert_verification_code_valid,
  normalize_phone, verify_phone_of, verify_phone,
}
use verity_backend.Auth.Deletion.{delete_account}
use verity_backend.Auth.Forgotten.{IsForgotten, delete_account-IsForgotten}
use verity_backend.Auth.Confirmed.{IsConfirmed, HasPhone, verify_phone-IsConfirmed}
use verity_backend.Tests.Memory.{memory}
use verity_backend.Tests.Worlds.{funded, user_with, matched_world}

-- The token 80 is that of the first user, in the family 70 and with the identifier 72.
abbrev jwt : Jwt
jwt = record {
  verify = λ time token.
      if ltb time 5000
      then some (record { is_refresh = true; sub = 2; fid = 70; jti = 72 })
      else none;
  sign_refresh = λ user family id. id + 8;
  sign_access = λ user role. 90;
  hash = λ token. token * 2;
}

abbrev row : RefreshToken
row = record {
  id = 72;
  user = 2;
  family = 70;
  token_hash = 160;
  expires_at = 5000;
  revoked_at = none;
  replaced_by = none;
  last_used_at = 500;
}

abbrev logged_in : World memory
logged_in = record funded { refresh_tokens = (row ∷ [], 2) }

abbrev refreshed : World memory
refreshed = (refresh_session jwt 80 74 logged_in).1

abbrev tokens : Tokens
tokens = record { access_token = 90; refresh_token = 82 }

refreshes : refresh_session jwt 80 74 logged_in ≡ (ok tokens, refreshed)
unfolding refresh_session verify_refresh_token refresh_verified refresh_stored rotate rotate_for
refreshes = refl

refresh_session-Caught_example :
    Caught jwt 2000 80 (refresh_session jwt 80 76 (later 2000 refreshed))
refresh_session-Caught_example =
    refresh_session-Caught jwt 80 74 76 2000 tokens logged_in refreshed refreshes refl

abbrev birth : Date
birth = record { year = 2000; month = 5; day = 10 }

abbrev eve : Date
eve = record { year = 2018; month = 5; day = 9 }

is_below-calculate_age_example :
    is_below (calculate_age birth eve) 18 ≡ is_before eve (birthday 18 birth)
is_below-calculate_age_example = is_below-calculate_age 18 birth eve

delete_account-IsForgotten_example :
    ((delete_account 2 matched_world).0 ≡ ok tt)
    × IsForgotten 2 matched_world (delete_account 2 matched_world).1
delete_account-IsForgotten_example = delete_account-IsForgotten 2 (user_with 2 1) matched_world refl

abbrev twilio : TwilioEnv
twilio = record {
  account_sid = some (codes "account");
  auth_token = some (codes "token");
  verify_service_sid = some (codes "service");
  node_env = some (codes "production");
}

abbrev approves : Provider
approves phone code = replied true (some (codes "approved"))

abbrev phoned : World memory
phoned = (verify_phone approves twilio 2 (codes "+61 400 000") (codes "1234") funded).1

verify_phone-IsConfirmed_example :
    (phone : List ℕ) × (normalize_phone (codes "+61 400 000") ≡ some phone)
    × IsConfirmed approves twilio phone (trim (codes "1234"))
    × HasPhone 2 phone funded phoned
unfolding verify_phone verify_phone_of normalize_phone assert_verification_code_valid assert_code
    is_configured
verify_phone-IsConfirmed_example =
    verify_phone-IsConfirmed approves twilio 2 (codes "+61 400 000") (codes "1234") funded phoned
      (record (user_with 2 1) { phone = some (codes "+61400000") }) refl
