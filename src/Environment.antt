-- ===== src/Environment.antt =====
-- How the services read environment variables: `readPositiveIntEnv` of
-- src/analytics/analytics.service.ts and its like, and `parseBooleanEnv` of
-- src/common/security-config.ts.
use verity_backend.Prelude.{
  ℕ, Bool, false, ◌||◌, Option, none, some, List, codes, trim, same_text, get_or_else,
}
use verity_backend.Payments.Webhook.{parse_int, token_count}
use verity_backend.Queue.City.{to_lower_case}

-- A finite number above 0 that the variable holds, or else the default.
unfoldable pub positive_or : ℕ → Option (List ℕ) → ℕ
unfolding parse_int token_count
positive_or default none = default
positive_or default (some raw) = get_or_else (token_count (parse_int raw)) default

unfoldable pub is_switched_on : Option (List ℕ) → Bool
unfolding to_lower_case
is_switched_on none = false
is_switched_on (some raw) =
    let normalized = to_lower_case (trim raw) in
    same_text normalized (codes "1")
    || same_text normalized (codes "true")
    || same_text normalized (codes "yes")
    || same_text normalized (codes "on")
