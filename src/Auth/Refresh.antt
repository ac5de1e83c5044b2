-- ===== src/Auth/Refresh.antt =====
-- `refreshSession`, `issueTokens` and `logoutAll` of src/auth/auth.service.ts. The functions of the
-- JWT library and the hash are parameters.
use verity_backend.Prelude.{
  ℕ, ◌+◌, Bool, not, ◌&&◌, ◌||◌, Option, none, some, leb, ◌==◌, if◌then◌else◌, is_some,
}
use verity_backend.Exec.{
  Result, ok, err, Exec, user_not_found, invalid_refresh_token, refresh_reused, refresh_expired,
  refresh_used,
}
use verity_backend.Schema.{User, Role, RefreshToken}
use verity_backend.World.{Servers, World}

-- 30 days
abbrev pub refresh_token_ttl_ms : ℕ
refresh_token_ttl_ms = 2_592_000_000

-- What a verified JWT says; a missing claim is the empty text.
pub record RefreshPayload : Type 0 where
  pub is_refresh : Bool
  pub sub : ℕ
  pub fid : ℕ
  pub jti : ℕ

pub record Tokens : Type 0 where
  pub access_token : ℕ
  pub refresh_token : ℕ

-- Verifying of a refresh token at a time, which fails once the token has expired; signing of
-- refresh tokens (user, family, identifier) and of access tokens, and the hash of a token.
pub record Jwt : Type 0 where
  pub verify : ℕ → ℕ → Option RefreshPayload
  pub sign_refresh : ℕ → ℕ → ℕ → ℕ
  pub sign_access : ℕ → Role → ℕ
  pub hash : ℕ → ℕ

abbrev pub is_complete : RefreshPayload → Bool
is_complete p = p.is_refresh && not (p.sub == 0 || p.fid == 0 || p.jti == 0)

abbrev pub payload_or_error : Option RefreshPayload → Result RefreshPayload
payload_or_error none = err invalid_refresh_token
payload_or_error (some p) = if is_complete p then ok p else err invalid_refresh_token

unfoldable pub verify_refresh_token : Jwt → ℕ → ℕ → Result RefreshPayload
verify_refresh_token jwt now token = payload_or_error (jwt.verify now token)

abbrev pub is_active : RefreshToken → Bool
is_active r = not (is_some r.revoked_at)

abbrev pub revoke : ℕ → RefreshToken → RefreshToken
revoke now r = record r { revoked_at = some now; last_used_at = now }

abbrev pub replace : ℕ → ℕ → RefreshToken → RefreshToken
replace now next r = record r { revoked_at = some now; replaced_by = some next; last_used_at = now }

abbrev pub new_token : Jwt → ℕ → ℕ → ℕ → ℕ → RefreshToken
new_token jwt user family id now = record {
  id = id;
  user = user;
  family = family;
  token_hash = jwt.hash (jwt.sign_refresh user family id);
  expires_at = now + refresh_token_ttl_ms;
  revoked_at = none;
  replaced_by = none;
  last_used_at = now;
}

abbrev pub tokens_for : Jwt → ℕ → ℕ → ℕ → Role → Tokens
tokens_for jwt user family id role = record {
  access_token = jwt.sign_access user role;
  refresh_token = jwt.sign_refresh user family id;
}

module _ {b : Servers} where
  abbrev pub update_tokens :
      (RefreshToken → Bool) → (RefreshToken → RefreshToken) → World b → World b
  update_tokens p f w = record w {
    refresh_tokens = (b.refresh_tokens.update_many p f w.refresh_tokens).1;
  }

  abbrev pub add_token : RefreshToken → World b → World b
  add_token r w = record w {
    refresh_tokens = (b.refresh_tokens.create (λ _. r) w.refresh_tokens).1;
  }

  unfoldable pub revoke_family : ℕ → World b → World b
  revoke_family family w = update_tokens (λ r. r.family == family && is_active r) (revoke w.now) w

  unfoldable pub logout_all : ℕ → World b → World b
  logout_all user w = update_tokens (λ r. r.user == user && is_active r) (revoke w.now) w

  -- `getUserRole`
  abbrev pub user_of : ℕ → World b → Option User
  user_of user w = b.users.find_first (λ u. u.id == user) w.users

  -- `issueTokens` for a given role, family and identifier
  unfoldable pub issue_tokens : Jwt → ℕ → ℕ → ℕ → Role → World b → Tokens × World b
  issue_tokens jwt user family id role w =
      (tokens_for jwt user family id role, add_token (new_token jwt user family id w.now) w)

  abbrev pub replaced : ℕ → RefreshToken → World b → World b
  replaced next stored w =
      update_tokens (λ r. r.id == stored.id && is_active r) (replace w.now next) w

  -- The transaction; without the user it is rolled back.
  unfoldable pub rotate_for :
      Jwt → RefreshPayload → RefreshToken → ℕ → Option User → Exec (World b) Tokens
  rotate_for jwt p stored next none w = (err user_not_found, w)
  rotate_for jwt p stored next (some u) w = (
    ok (tokens_for jwt p.sub p.fid next u.role),
    add_token
        (record (new_token jwt p.sub stored.family next w.now) {
          token_hash = jwt.hash (jwt.sign_refresh p.sub p.fid next);
        })
        (replaced next stored w),
  )

  unfoldable pub rotate : Jwt → RefreshPayload → RefreshToken → ℕ → Exec (World b) Tokens
  rotate jwt p stored next w =
      let (count, _) =
        b.refresh_tokens.update_many (λ r. r.id == stored.id && is_active r) (replace w.now next)
          w.refresh_tokens in
      let done = rotate_for jwt p stored next (user_of p.sub w) w in
      if count == 1 then done else (err refresh_used, revoke_family stored.family w)

  unfoldable pub refresh_stored :
      Jwt → RefreshPayload → ℕ → ℕ → Option RefreshToken → Exec (World b) Tokens
  refresh_stored jwt p token next none w = (err invalid_refresh_token, w)
  refresh_stored jwt p token next (some stored) w =
      let rotated = rotate jwt p stored next w in
      let revoked = revoke_family stored.family w in
      if not (stored.user == p.sub) || not (stored.family == p.fid)
      then (err invalid_refresh_token, (if stored.family == 0 then w else revoked))
      else if not (stored.token_hash == jwt.hash token)
      then (err invalid_refresh_token, revoked)
      else if is_some stored.revoked_at
      then (err refresh_reused, revoked)
      else if leb stored.expires_at w.now
      then (err refresh_expired, update_tokens (λ r. r.id == stored.id) (revoke w.now) w)
      else rotated

  abbrev pub token_of : ℕ → World b → Option RefreshToken
  token_of id w = b.refresh_tokens.find_first (λ r. r.id == id) w.refresh_tokens

  unfoldable pub refresh_verified : Jwt → ℕ → ℕ → Result RefreshPayload → Exec (World b) Tokens
  refresh_verified jwt token next (err e) w = (err e, w)
  refresh_verified jwt token next (ok p) w = refresh_stored jwt p token next (token_of p.jti w) w

  -- `next` is the UUID of the next token.
  unfoldable pub refresh_session : Jwt → ℕ → ℕ → Exec (World b) Tokens
  refresh_session jwt token next w =
      refresh_verified jwt token next (verify_refresh_token jwt w.now token) w
