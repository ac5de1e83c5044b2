-- ===== src/Auth/Confirmed.antt =====
-- Which numbers and addresses `verifyPhone` and `verifyEmail` of src/auth/auth.service.ts store.
use verity_backend.Prelude.{
  ℕ, ◌≡◌, ◌≢◌, ◌⊎◌, inl, inr, refl, sym, ap, ◌∙◌, Bool, true, false, Option, none, some, List, [],
  ◌∷◌, map, ◌==◌, codes, trim, if◌then◌else◌, Bool-cases, Option-cases,
}
use verity_backend.Exec.{Result, ok, err, Exec, Exception, provider_missing}
use verity_backend.Schema.{User}
use verity_backend.World.{Servers, World}
use verity_backend.Auth.Refresh.{user_of}
use verity_backend.Queue.City.{non_empty}
use verity_backend.Auth.Verification.{
  TwilioEnv, TwilioReply, unreachable, replied, Provider, is_configured, is_text, is_production,
  approval, assert_code, assert_verification_code_valid, normalize_phone, with_phone, update_user,
  is_phone_taken, set_phone, if_valid, verify_phone_of, verify_phone,
}

not_ok : {A : Type 0} {a : A} {e : Exception} → ◌≡◌ {A = Result A} (err e) (ok a) → ⊥
not_ok h = cc

-- The provider has approved the code, or there is none outside of production.
abbrev pub IsConfirmed : Provider → TwilioEnv → List ℕ → List ℕ → Type 0
IsConfirmed provider env identifier code =
    (code ≢ [])
    × (((is_configured env ≡ true)
          × ((status : Option (List ℕ)) × (provider identifier code ≡ replied true status)
              × (is_text (codes "approved") status ≡ true)))
        ⊎ ((is_configured env ≡ false) × (is_production env ≡ false)))

guard_true :
    (t : Bool) (e : Exception)
    → ◌≡◌ {A = Result (Unit {0})} (if t then ok tt else err e) (ok tt)
    → t ≡ true
guard_true true e h = refl
guard_true false e h = cc

approval-ok :
    (r : TwilioReply)
    → approval r ≡ ok tt
    → (status : Option (List ℕ)) × (r ≡ replied true status)
      × (is_text (codes "approved") status ≡ true)
approval-ok unreachable h = absurd (not_ok h)
approval-ok (replied false status) h = absurd (not_ok h)
approval-ok (replied true status) h = (status, refl, guard_true _ _ h)

configured_or_not :
    (t p : Bool) (r : Result (Unit {0}))
    → (if t then r else if p then err provider_missing else ok tt) ≡ ok tt
    → ((t ≡ true) × (r ≡ ok tt)) ⊎ ((t ≡ false) × (p ≡ false))
configured_or_not true p r h = inl (refl, h)
configured_or_not false true r h = absurd (not_ok h)
configured_or_not false false r h = inr (refl, refl)

assert_code-ok :
    (provider : Provider) (env : TwilioEnv) (identifier code : List ℕ)
    → assert_code provider env identifier (non_empty code) ≡ ok tt
    → IsConfirmed provider env identifier code
unfolding assert_code
assert_code-ok provider env identifier [] h = absurd (not_ok h)
assert_code-ok provider env identifier (c ∷ cs) h = (
  λ e. cc,
  elim (configured_or_not (is_configured env) (is_production env)
      (approval (provider identifier (c ∷ cs))) h) [
        | inl (there, approved) ↦ inl (there, approval-ok (provider identifier (c ∷ cs)) approved)
        | inr missing ↦ inr missing
      ],
)

module _ {b : Servers} where
  -- The row of the user holds the phone number, and no other row does.
  abbrev pub HasPhone : ℕ → List ℕ → World b → World b → Type 0
  HasPhone user phone w w' =
      (is_phone_taken phone user w ≡ false)
      × (b.users.rows w'.users
          ≡ map (λ u. if u.id == user then with_phone phone u else u) (b.users.rows w.users))

  if_valid-ok :
      (r : Result (Unit {0})) (update : Exec (World b) User) (w w' : World b) (u : User)
      → if_valid r update w ≡ (ok u, w')
      → (r ≡ ok tt) × (update w ≡ (ok u, w'))
  if_valid-ok (ok _) update w w' u h = (refl, h)
  if_valid-ok (err e) update w w' u h = absurd (not_ok (λ i. (h i).0))

  set_phone-HasPhone :
      (user : ℕ) (phone : List ℕ) (found : Option User) (w w' : World b) (u : User)
      → set_phone user phone found w ≡ (ok u, w')
      → HasPhone user phone w w'
  set_phone-HasPhone user phone none w w' u h = absurd (not_ok (λ i. (h i).0))
  set_phone-HasPhone user phone (some x) w w' u h =
      elim (Bool-cases (is_phone_taken phone user w)) [
        | inl taken ↦ absurd (not_ok (λ i. (rw taken at h i).0))
        | inr free ↦
            let stored : (ok (with_phone phone x), update_user user (with_phone phone) w)
                ≡ (ok u, w') =
              rw free at h in
            (
              free,
              ap (λ (p : Result User × World b). b.users.rows p.1.users) (sym stored)
                  ∙ b.users.rows-update_many (λ u. u.id == user) (with_phone phone) w.users,
            )
      ]

  -- A phone number is stored only where it is one, where no other user has it, and where the
  -- provider has approved the code, or there is no provider outside of production.
  pub verify_phone-IsConfirmed :
      (provider : Provider) (env : TwilioEnv) (user : ℕ) (raw code : List ℕ) (w w' : World b)
      (u : User)
      → verify_phone provider env user raw code w ≡ (ok u, w')
      → (phone : List ℕ) × (normalize_phone raw ≡ some phone)
        × IsConfirmed provider env phone (trim code)
        × HasPhone user phone w w'
  unfolding verify_phone verify_phone_of assert_verification_code_valid
  verify_phone-IsConfirmed provider env user raw code w w' u h =
      elim (Option-cases (normalize_phone raw)) [
        | inl missing ↦ absurd (not_ok (λ i. (rw missing at h i).0))
        | inr (phone, found) ↦
            let (valid, stored) = if_valid-ok _ _ w w' u (rw found at h) in
            (
              phone,
              found,
              assert_code-ok provider env phone (trim code) valid,
              set_phone-HasPhone user phone (user_of user w) w w' u stored,
            )
      ]
