-- ===== src/Auth/Reuse.antt =====
-- A refresh token that is presented again: `refreshSession` of src/auth/auth.service.ts.
use verity_backend.Prelude.{
  ℕ, ◌≡◌, refl, ap, subst, ◌∙◌, Bool, true, false, not, ◌||◌, Option, none, some, arith, leb, ◌==◌,
  is_some,
}
use verity_backend.Exec.{Result, ok, err, refresh_reused}
use verity_backend.Schema.{RefreshToken}
use verity_backend.World.{Servers, World}
use verity_backend.Matches.Acknowledge.{later}
use verity_backend.Auth.Refresh.{
  Jwt, RefreshPayload, Tokens, payload_or_error, verify_refresh_token, replace, revoke_family,
  rotate, refresh_stored, token_of, refresh_verified, refresh_session,
}
use verity_backend.Auth.Rotation.{
  Revoked, token_rows, revoke_family-Revoked, Used, Used-refused, answered, rotated,
}

own_user : (x y : Bool) → (not x || not y) ≡ false → (x ≡ true) × (y ≡ true)
own_user true true h = (refl, refl)
own_user true false h = cc
own_user false y h = cc

same_id : (a c : ℕ) → (a == c) ≡ true → a ≡ c
same_id a c h = ground (arith, h)

module _ {b : Servers} where
  -- The token has been used, with the payload that it had at a time.
  abbrev Spent : Jwt → ℕ → ℕ → World b → Type 0
  Spent jwt time token w =
      (p : RefreshPayload) × (verify_refresh_token jwt time token ≡ ok p)
      × ((r : RefreshToken) × Used jwt p token w r)

  stored-Used :
      (jwt : Jwt) (p : RefreshPayload) (token next : ℕ) (o : Option RefreshToken) (w w' : World b)
      (t : Tokens)
      → token_of p.jti w ≡ o
      → refresh_stored jwt p token next o w ≡ (ok t, w')
      → (r : RefreshToken) × Used jwt p token w' r
  unfolding refresh_stored
  stored-Used jwt p token next none w w' t found h = cc (ap (λ x. x.0) h)
  stored-Used jwt p token next (some stored) w w' t found h =
      let (own, hash, active, done) =
        answered (not (stored.user == p.sub) || not (stored.family == p.fid))
          (stored.token_hash == jwt.hash token) (is_some stored.revoked_at)
          (leb stored.expires_at w.now) _ _ _ w' t (rotate jwt p stored next w) h in
      let (user, family) = own_user (stored.user == p.sub) (stored.family == p.fid) own in
      (
        replace w.now next stored,
        (rotated jwt p stored next p.jti w w' t found active done, user, family, hash, refl),
      )

  verified-Spent :
      (jwt : Jwt) (time token next : ℕ) (c : Result RefreshPayload) (w w' : World b) (t : Tokens)
      → verify_refresh_token jwt time token ≡ c
      → refresh_verified jwt token next c w ≡ (ok t, w')
      → Spent jwt time token w'
  unfolding refresh_verified
  verified-Spent jwt time token next (err e) w w' t valid h = cc (ap (λ x. x.0) h)
  verified-Spent jwt time token next (ok p) w w' t valid h =
      (p, valid, stored-Used jwt p token next (token_of p.jti w) w w' t refl h)

  -- The reply to a token that was used before, and what it leaves of the family.
  abbrev pub Caught : Jwt → ℕ → ℕ → Result Tokens × World b → Type 0
  Caught jwt time token (reply, w) =
      (reply ≡ err refresh_reused)
      × ((p : RefreshPayload) × (verify_refresh_token jwt time token ≡ ok p)
          × Revoked p.fid (token_rows w))

  caught :
      (jwt : Jwt) (p : RefreshPayload) (token next : ℕ) (w : World b) (r : RefreshToken)
      → verify_refresh_token jwt w.now token ≡ ok p
      → Used jwt p token w r
      → Caught jwt w.now token (refresh_session jwt token next w)
  unfolding refresh_session
  caught jwt p token next w r valid used =
      rw (valid, Used-refused jwt p token next w r used)
        (
          refl,
          (
            p,
            refl,
            subst (λ f. Revoked f (token_rows (revoke_family r.family w)))
                (same_id r.family p.fid used.2) (revoke_family-Revoked r.family w),
          ),
        )

  -- Whoever presents a refresh token again after it was exchanged, at a time at which the JWT is
  -- still valid with the same claims, is refused, and no token of its family is active any more.
  pub refresh_session-Caught :
      (jwt : Jwt) (token next other time : ℕ) (t : Tokens) (w w' : World b)
      → refresh_session jwt token next w ≡ (ok t, w')
      → jwt.verify time token ≡ jwt.verify w.now token
      → Caught jwt time token (refresh_session jwt token other (later time w'))
  unfolding refresh_session verify_refresh_token
  refresh_session-Caught jwt token next other time t w w' h valid =
      let (p, said, (r, used)) = verified-Spent jwt w.now token next _ w w' t refl h in
      caught jwt p token other (later time w') r (ap payload_or_error valid ∙ said) used
