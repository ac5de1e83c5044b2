-- ===== src/Tests/ConfigTests.antt =====
-- Examples of the configuration.
use verity_backend.Prelude.{◌≡◌, refl, true, none, some, codes}
use verity_backend.Config.Secrets.{
  SecurityEnv, Configured, is_production_env, get_access_token_secret, get_refresh_token_secret,
  token_secrets-IsConfigured,
}
use verity_backend.Config.Secrets.{is_origin_allowed}
use verity_backend.Monitoring.{
  FrontendErrorBody, FrontendErrorPayload, error_type, text_field, number_field, missing,
  capture_frontend_error, parse_frontend_error_payload, parse_error_type, parse_optional_string,
  parse_string, parse_optional_number, limit, Logged, logged_of,
}
use verity_backend.Monitoring.Accepted.{IsLogged, capture_frontend_error-IsReport}

abbrev deployed : SecurityEnv
deployed = record {
  node_env = some (codes "production");
  allow_insecure_dev_secrets = some (codes "true");
  jwt_access_secret = some (codes " access ");
  jwt_refresh_secret = none;
  jwt_secret = some (codes "common");
  app_origins = none;
  app_url = none;
}

token_secrets-IsConfigured_example :
    Configured deployed.jwt_access_secret deployed.jwt_secret (get_access_token_secret deployed)
    × Configured deployed.jwt_refresh_secret deployed.jwt_secret (get_refresh_token_secret deployed)
unfolding is_production_env
token_secrets-IsConfigured_example = token_secrets-IsConfigured deployed refl

abbrev crash : FrontendErrorBody
crash = record {
  type = text_field (codes "error");
  message = text_field (codes " failed ");
  reason = missing;
  source = missing;
  line = number_field 3;
  column = missing;
  stack = missing;
  path = missing;
  timestamp = missing;
}

abbrev entry : Logged FrontendErrorPayload
entry = record {
  payload = record {
    type = error_type;
    message = some (codes "failed");
    reason = none;
    source = none;
    line = some 3;
    column = none;
    stack = none;
    path = none;
    timestamp = none;
  };
  origin = none;
  user_agent = some (codes "Firefox");
  received_at = 1000;
}

capture_frontend_error-IsReport_example :
    (is_origin_allowed deployed none ≡ true) × IsLogged none (some (codes "Firefox")) entry
unfolding capture_frontend_error logged_of limit parse_frontend_error_payload parse_error_type
    parse_optional_string parse_string parse_optional_number is_origin_allowed
capture_frontend_error-IsReport_example =
    capture_frontend_error-IsReport deployed 1000 none (some (codes "Firefox")) (some crash) entry
      refl
