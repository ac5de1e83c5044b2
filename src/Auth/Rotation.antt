-- ===== src/Auth/Rotation.antt =====
-- The rotation of a refresh token in src/auth/auth.service.ts: lemmas.
use verity_backend.Prelude.{
  ℕ, ◌≡◌, refl, sym, ap, subst, ◌∙◌, Bool, true, false, not, ◌&&◌, Option, none, some, List, [],
  ◌∷◌, map, arith, ◌==◌, if◌then◌else◌, find, is_some, All, ==_refl, find-append, find-map-update,
}
use verity_backend.Exec.{
  Result, ok, err, refresh_reused, invalid_refresh_token, refresh_expired, refresh_used,
}
use verity_backend.Schema.{User, RefreshToken}
use verity_backend.World.{Servers, World}
use verity_backend.Auth.Refresh.{
  Jwt, RefreshPayload, Tokens, is_active, revoke, replace, add_token, revoke_family, replaced,
  rotate_for, rotate, refresh_stored, token_of, refresh_verified, user_of,
}

-- No token of the family is active.
abbrev pub Revoked : ℕ → List RefreshToken → Type 0
Revoked family = All (λ r. (r.family == family && is_active r) ≡ false)

map-Revoked :
    (family now : ℕ) (rs : List RefreshToken)
    → Revoked family (map (λ r. if r.family == family && is_active r then revoke now r else r) rs)
map-Revoked family now [] = tt
map-Revoked family now (r ∷ rs) = (ground arith, map-Revoked family now rs)

module _ {b : Servers} where
  abbrev pub token_rows : World b → List RefreshToken
  token_rows w = b.refresh_tokens.rows w.refresh_tokens

  pub revoke_family-Revoked :
      (family : ℕ) (w : World b) → Revoked family (token_rows (revoke_family family w))
  unfolding revoke_family
  revoke_family-Revoked family w =
      rw b.refresh_tokens.rows-update_many (map-Revoked family w.now (token_rows w))

  -- The stored row of a token that has been used.
  abbrev pub Used : Jwt → RefreshPayload → ℕ → World b → RefreshToken → Type 0
  Used jwt p token w r =
      (token_of p.jti w ≡ some r)
      × ((r.user == p.sub) ≡ true)
      × ((r.family == p.fid) ≡ true)
      × ((r.token_hash == jwt.hash token) ≡ true)
      × (is_some r.revoked_at ≡ true)

  pub Used-refused :
      (jwt : Jwt) (p : RefreshPayload) (token next : ℕ) (w : World b) (r : RefreshToken)
      → Used jwt p token w r
      → refresh_verified jwt token next (ok p) w ≡ (err refresh_reused, revoke_family r.family w)
  unfolding refresh_verified refresh_stored
  Used-refused jwt p token next w r (found, user, family, hash, used) =
      rw (found, user, family, hash, used)

  -- The answer to a stored token, by the tests on it.
  abbrev pub answer :
      Bool
      → Bool
      → Bool
      → Bool
      → World b
      → World b
      → World b
      → Result Tokens × World b
      → Result Tokens × World b
  answer foreign same_hash revoked expired w1 w2 w3 rotated =
      if foreign
      then (err invalid_refresh_token, w1)
      else if not same_hash
      then (err invalid_refresh_token, w2)
      else if revoked
      then (err refresh_reused, w2)
      else if expired
      then (err refresh_expired, w3)
      else rotated

  pub answered :
      (foreign same_hash revoked expired : Bool) (w1 w2 w3 w' : World b) (t : Tokens)
      (rotated : Result Tokens × World b)
      → answer foreign same_hash revoked expired w1 w2 w3 rotated ≡ (ok t, w')
      → (foreign ≡ false) × (same_hash ≡ true) × (revoked ≡ false) × (rotated ≡ (ok t, w'))
  answered true c d e w1 w2 w3 w' t r h = cc (ap (λ x. x.0) h)
  answered false false d e w1 w2 w3 w' t r h = cc (ap (λ x. x.0) h)
  answered false true true e w1 w2 w3 w' t r h = cc (ap (λ x. x.0) h)
  answered false true false true w1 w2 w3 w' t r h = cc (ap (λ x. x.0) h)
  answered false true false false w1 w2 w3 w' t r h = (refl, refl, refl, h)

  token-replaced :
      (id next : ℕ) (stored new : RefreshToken) (w : World b)
      → token_of id w ≡ some stored
      → is_some stored.revoked_at ≡ false
      → token_of id (add_token new (replaced next stored w)) ≡ some (replace w.now next stored)
  token-replaced id next stored new w found active =
      b.refresh_tokens.find_first_lem (λ r. r.id == id)
        (add_token new (replaced next stored w)).refresh_tokens
      ∙ ap (find (λ r. r.id == id))
          (b.refresh_tokens.rows-create (λ _. new) (replaced next stored w).refresh_tokens)
      ∙ find-append (λ r. r.id == id) (token_rows (replaced next stored w)) (new ∷ [])
          (replace w.now next stored)
          (ap (find (λ r. r.id == id)) (
              b.refresh_tokens.rows-update_many (λ r. r.id == stored.id && is_active r)
                (replace w.now next) w.refresh_tokens)
            ∙ find-map-update (λ r. r.id == id) (λ r. r.id == stored.id && is_active r)
                (replace w.now next) (token_rows w) stored (λ r. refl)
                (sym (b.refresh_tokens.find_first_lem (λ r. r.id == id) w.refresh_tokens) ∙ found)
                (rw (==_refl stored.id, active) refl))

  abbrev if_one : Bool → Result Tokens × World b → World b → Result Tokens × World b
  if_one one x v = if one then x else (err refresh_used, v)

  one_row :
      (one : Bool) (x : Result Tokens × World b) (v w' : World b) (t : Tokens)
      → if_one one x v ≡ (ok t, w')
      → x ≡ (ok t, w')
  one_row true x v w' t h = h
  one_row false x v w' t h = cc (ap (λ r. r.0) h)

  rotated_for :
      (jwt : Jwt) (p : RefreshPayload) (stored : RefreshToken) (next id : ℕ) (u : Option User)
      (w w' : World b) (t : Tokens)
      → token_of id w ≡ some stored
      → is_some stored.revoked_at ≡ false
      → rotate_for jwt p stored next u w ≡ (ok t, w')
      → token_of id w' ≡ some (replace w.now next stored)
  unfolding rotate_for
  rotated_for jwt p stored next id none w w' t found active h = cc (ap (λ x. x.0) h)
  rotated_for jwt p stored next id (some u) w w' t found active h =
      subst (λ v. token_of id v ≡ some (replace w.now next stored)) (ap (λ x. x.1) h)
        (token-replaced id next stored _ w found active)

  pub rotated :
      (jwt : Jwt) (p : RefreshPayload) (stored : RefreshToken) (next id : ℕ) (w w' : World b)
      (t : Tokens)
      → token_of id w ≡ some stored
      → is_some stored.revoked_at ≡ false
      → rotate jwt p stored next w ≡ (ok t, w')
      → token_of id w' ≡ some (replace w.now next stored)
  unfolding rotate
  rotated jwt p stored next id w w' t found active h =
      rotated_for jwt p stored next id (user_of p.sub w) w w' t found active (one_row _ _ _ w' t h)
