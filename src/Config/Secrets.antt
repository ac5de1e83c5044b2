-- ===== src/Config/Secrets.antt =====
-- src/common/security-config.ts: the secrets of the JWTs and the allowed origins.
use verity_backend.Prelude.{
  ℕ, ◌≡◌, ◌⊎◌, inl, inr, refl, Bool, true, false, not, ◌&&◌, Option, none, some, List, [], ◌∷◌,
  ◌==◌, any, codes, trim, same_text, get_or_else, Option-cases, if◌then◌else◌,
}
use verity_backend.Exec.{Result, ok, err, missing_jwt_secret}
use verity_backend.Environment.{is_switched_on}
use verity_backend.Queue.City.{non_empty}

-- The variables NODE_ENV, ALLOW_INSECURE_DEV_SECRETS, JWT_ACCESS_SECRET, JWT_REFRESH_SECRET,
-- JWT_SECRET, APP_ORIGINS and APP_URL.
pub record SecurityEnv : Type 0 where
  pub node_env : Option (List ℕ)
  pub allow_insecure_dev_secrets : Option (List ℕ)
  pub jwt_access_secret : Option (List ℕ)
  pub jwt_refresh_secret : Option (List ℕ)
  pub jwt_secret : Option (List ℕ)
  pub app_origins : Option (List ℕ)
  pub app_url : Option (List ℕ)

unfoldable pub read_env_secret : Option (List ℕ) → Option (List ℕ)
read_env_secret none = none
read_env_secret (some value) = non_empty (trim value)

abbrev pub is_text_of : List ℕ → Option (List ℕ) → Bool
is_text_of word none = false
is_text_of word (some value) = same_text value word

unfoldable pub is_production_env : SecurityEnv → Bool
is_production_env env = is_text_of (codes "production") env.node_env

unfoldable pub allow_insecure_dev_secrets : SecurityEnv → Bool
unfolding is_production_env is_switched_on
allow_insecure_dev_secrets env =
    not (is_production_env env) && is_switched_on env.allow_insecure_dev_secrets

-- `a ?? b`
abbrev pub or_secret : Option (List ℕ) → Option (List ℕ) → Option (List ℕ)
or_secret none b = b
or_secret (some a) b = some a

-- the configured secret, or the one for development, or an exception
abbrev pub secret_or : Option (List ℕ) → Bool → List ℕ → Result (List ℕ)
secret_or (some secret) insecure dev = ok secret
secret_or none true dev = ok dev
secret_or none false dev = err missing_jwt_secret

abbrev pub dev_access_secret : List ℕ
dev_access_secret = codes "dev_access_secret"

abbrev pub dev_refresh_secret : List ℕ
dev_refresh_secret = codes "dev_refresh_secret"

unfoldable pub get_access_token_secret : SecurityEnv → Result (List ℕ)
unfolding read_env_secret allow_insecure_dev_secrets
get_access_token_secret env =
    secret_or (or_secret (read_env_secret env.jwt_access_secret) (read_env_secret env.jwt_secret))
      (allow_insecure_dev_secrets env) dev_access_secret

unfoldable pub get_refresh_token_secret : SecurityEnv → Result (List ℕ)
unfolding read_env_secret allow_insecure_dev_secrets
get_refresh_token_secret env =
    secret_or (or_secret (read_env_secret env.jwt_refresh_secret) (read_env_secret env.jwt_secret))
      (allow_insecure_dev_secrets env) dev_refresh_secret

-- `split(',')`: at least one part
abbrev pub in_first : ℕ → List (List ℕ) → List (List ℕ)
in_first c [] = (c ∷ []) ∷ []
in_first c (part ∷ parts) = (c ∷ part) ∷ parts

unfoldable pub split_commas : List ℕ → List (List ℕ)
split_commas [] = [] ∷ []
split_commas (c ∷ cs) =
    let parts = split_commas cs in if c == b',' then [] ∷ parts else in_first c parts

abbrev pub keep_part : List ℕ → List (List ℕ) → List (List ℕ)
keep_part [] parts = parts
keep_part (c ∷ cs) parts = (c ∷ cs) ∷ parts

abbrev pub trimmed_parts : List (List ℕ) → List (List ℕ)
trimmed_parts [] = []
trimmed_parts (part ∷ parts) = keep_part (trim part) (trimmed_parts parts)

unfoldable pub get_allowed_origins : SecurityEnv → List (List ℕ)
unfolding split_commas
get_allowed_origins env =
    trimmed_parts (split_commas (get_or_else (or_secret env.app_origins env.app_url) []))

abbrev pub is_listed : List ℕ → List (List ℕ) → Bool
is_listed origin [] = true
is_listed origin (x ∷ xs) = any (λ allowed. same_text allowed origin) (x ∷ xs)

-- A missing or empty origin is allowed, and every one where none is configured.
unfoldable pub is_origin_allowed : SecurityEnv → Option (List ℕ) → Bool
unfolding get_allowed_origins
is_origin_allowed env none = true
is_origin_allowed env (some []) = true
is_origin_allowed env (some (c ∷ cs)) = is_listed (c ∷ cs) (get_allowed_origins env)

-- The secret stands in one of two variables, with white space around it at most.
abbrev pub IsConfigured : Option (List ℕ) → Option (List ℕ) → List ℕ → Type 0
IsConfigured own common secret =
    (read_env_secret own ≡ some secret) ⊎ (read_env_secret common ≡ some secret)

-- The secret that is used is configured; where there is none, neither variable is set.
abbrev pub Configured : Option (List ℕ) → Option (List ℕ) → Result (List ℕ) → Type 0
Configured own common (ok secret) = IsConfigured own common secret
Configured own common (err e) =
    (e ≡ missing_jwt_secret) × (read_env_secret own ≡ none) × (read_env_secret common ≡ none)

secret_or-Configured :
    (own common : Option (List ℕ)) (insecure : Bool) (dev : List ℕ)
    → insecure ≡ false
    → Configured own common
        (secret_or (or_secret (read_env_secret own) (read_env_secret common)) insecure dev)
secret_or-Configured own common insecure dev off = elim (Option-cases (read_env_secret own)) [
  | inl missing ↦ elim (Option-cases (read_env_secret common)) [
    | inl gone ↦ rw (missing, gone, off) (refl, missing, gone)
    | inr (s, found) ↦ rw (missing, found) (inr found)
  ]
  | inr (s, found) ↦ rw found (inl found)
]

-- In production each of the two secrets that are used for the JWTs stands in one of its two
-- variables, white space around it aside; where neither variable holds one, there is no secret
-- but an exception.
pub token_secrets-IsConfigured :
    (env : SecurityEnv)
    → is_production_env env ≡ true
    → Configured env.jwt_access_secret env.jwt_secret (get_access_token_secret env)
      × Configured env.jwt_refresh_secret env.jwt_secret (get_refresh_token_secret env)
unfolding get_access_token_secret get_refresh_token_secret
token_secrets-IsConfigured env production =
    let off : allow_insecure_dev_secrets env ≡ false = rw production refl in
    (
      secret_or-Configured env.jwt_access_secret env.jwt_secret _ dev_access_secret off,
      secret_or-Configured env.jwt_refresh_secret env.jwt_secret _ dev_refresh_secret off,
    )
