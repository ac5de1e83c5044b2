-- ===== src/Config/Roles.antt =====
-- `canActivate` of src/auth/roles.guard.ts.
use verity_backend.Prelude.{
  ℕ, Bool, true, false, ◌&&◌, ◌||◌, Option, none, some, List, [], ◌∷◌, any, codes, trim, same_text,
  if◌then◌else◌,
}
use verity_backend.Exec.{Result, ok, err, authentication_required, insufficient_role}
use verity_backend.Queue.City.{to_lower_case}
use verity_backend.Schema.{Role, user_role, admin_role}

-- MODERATION_ADMIN_KEY and MODERATION_ADMIN_KEY_FALLBACK
pub record AdminEnv : Type 0 where
  pub moderation_admin_key : Option (List ℕ)
  pub moderation_admin_key_fallback : Option (List ℕ)

-- The role of the user, where one is signed in, and the header `x-admin-key`, where it is one text.
pub record GuardedRequest : Type 0 where
  pub role : Option Role
  pub admin_key : Option (List ℕ)

unfoldable pub is_admin_key_fallback_allowed : AdminEnv → Bool
unfolding to_lower_case
is_admin_key_fallback_allowed env = elim env.moderation_admin_key_fallback [
  | none ↦ false
  | some value ↦
      let normalized = to_lower_case (trim value) in
      same_text normalized (codes "1")
      || same_text normalized (codes "true")
      || same_text normalized (codes "yes")
]

abbrev pub same_role : Role → Role → Bool
same_role user_role user_role = true
same_role admin_role admin_role = true
same_role _ _ = false

-- both are set and the same, and not empty
abbrev pub keys_agree : Option (List ℕ) → Option (List ℕ) → Bool
keys_agree (some (c ∷ cs)) (some (d ∷ ds)) = same_text (c ∷ cs) (d ∷ ds)
keys_agree _ _ = false

abbrev pub activate_as : AdminEnv → GuardedRequest → List Role → Role → Result Bool
unfolding is_admin_key_fallback_allowed
activate_as env req required role =
    if any (same_role role) required
    then ok true
    else if any (same_role admin_role) required
        && is_admin_key_fallback_allowed env
        && keys_agree req.admin_key env.moderation_admin_key
    then ok true
    else err insufficient_role

abbrev pub activate_user : AdminEnv → GuardedRequest → List Role → Option Role → Result Bool
unfolding activate_as
activate_user env req required none = err authentication_required
activate_user env req required (some role) = activate_as env req required role

unfoldable pub can_activate : AdminEnv → List Role → GuardedRequest → Result Bool
unfolding activate_user
can_activate env [] req = ok true
can_activate env (r ∷ rs) req = activate_user env req (r ∷ rs) req.role
