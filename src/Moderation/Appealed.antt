-- ===== src/Moderation/Appealed.antt =====
-- Appeals that `resolveAppeal` of src/moderation/moderation.service.ts has resolved.
use verity_backend.Prelude.{
  ℕ, ◌≡◌, refl, sym, ap, subst, ◌∙◌, find-map-update, Bool, true, false, Option, none, some, ◌==◌,
  if◌then◌else◌, find, ==_refl,
}
use verity_backend.Exec.{Result, ok, err, already_resolved}
use verity_backend.Schema.{Appeal}
use verity_backend.World.{Servers, World}
use verity_backend.Moderation.Appeals.{
  Resolution, uphold, overturn, status_of, is_open, lifts_ban, lift_ban, resolved, set_resolved,
  resolve_open, resolve_found, resolve_appeal,
}

closed-status : (r : Resolution) → is_open (status_of r) ≡ false
closed-status uphold = refl
closed-status overturn = refl

module _ {b : Servers} where
  abbrev pub appeal_of : ℕ → World b → Option Appeal
  appeal_of id w = b.appeals.find_first (λ a. a.id == id) w.appeals

  -- The appeal is stored as the resolver left it.
  Closed : ℕ → Appeal → World b → Type 0
  Closed id a w = (appeal_of id w ≡ some a) × (is_open a.status ≡ false)

  appeals-lift_ban :
      (lifts : Bool) (user : ℕ) (w : World b) → (lift_ban lifts user w).appeals ≡ w.appeals
  appeals-lift_ban true user w = refl
  appeals-lift_ban false user w = refl

  appeal-set_resolved :
      (resolver id : ℕ) (r : Resolution) (a : Appeal) (w : World b)
      → appeal_of id w ≡ some a
      → appeal_of id (set_resolved resolver r a w) ≡ some (resolved resolver r w.now a)
  appeal-set_resolved resolver id r a w h =
      b.appeals.find_first_lem (λ x. x.id == id) (set_resolved resolver r a w).appeals
      ∙ ap (find (λ x. x.id == id))
          (b.appeals.rows-update_many (λ x. x.id == a.id) (resolved resolver r w.now) w.appeals)
      ∙ find-map-update (λ x. x.id == id) (λ x. x.id == a.id) (resolved resolver r w.now)
          (b.appeals.rows w.appeals) a (λ x. refl)
          (sym (b.appeals.find_first_lem (λ x. x.id == id) w.appeals) ∙ h) (==_refl a.id)

  open-Closed :
      (resolver id : ℕ) (r : Resolution) (a : Appeal) (w : World b)
      → appeal_of id w ≡ some a
      → Closed id (resolved resolver r w.now a) (resolve_open resolver r a w).1
  unfolding resolve_open Closed
  open-Closed resolver id r a w h = (
    ap (b.appeals.find_first (λ x. x.id == id))
          (appeals-lift_ban (lifts_ban r a.action) a.user (set_resolved resolver r a w))
        ∙ appeal-set_resolved resolver id r a w h,
    closed-status r,
  )

  resolved_before :
      (resolver id : ℕ) (r : Resolution) (a : Appeal) (w : World b)
      → Closed id a w
      → resolve_appeal resolver id r w ≡ (err already_resolved, w)
  unfolding resolve_appeal resolve_found Closed
  resolved_before resolver id r a w (h, closed) = rw (h, closed)

  open_only :
      (c : Bool) (x : Result Appeal × World b) (done : Appeal) (w w' : World b)
      → (if c then x else (err already_resolved, w)) ≡ (ok done, w')
      → x ≡ (ok done, w')
  open_only true x done w w' h = h
  open_only false x done w w' h = cc (ap (λ r. r.0) h)

  reply-open :
      (resolver : ℕ) (r : Resolution) (a : Appeal) (w : World b)
      → (resolve_open resolver r a w).0 ≡ ok (resolved resolver r w.now a)
  unfolding resolve_open
  reply-open resolver r a w = refl

  found-Closed :
      (resolver id : ℕ) (r : Resolution) (o : Option Appeal) (done : Appeal) (w w' : World b)
      → appeal_of id w ≡ o
      → resolve_found resolver r o w ≡ (ok done, w')
      → Closed id done w'
  unfolding resolve_found
  found-Closed resolver id r none done w w' found h = cc (ap (λ x. x.0) h)
  found-Closed resolver id r (some a) done w w' found h =
      let opened = open_only (is_open a.status) (resolve_open resolver r a w) done w w' h in
      let same : resolved resolver r w.now a ≡ done =
        cc (reply-open resolver r a w, ap (λ x. x.0) opened) in
      subst (λ x. Closed id x w') same
        (subst (Closed id (resolved resolver r w.now a)) (ap (λ x. x.1) opened)
          (open-Closed resolver id r a w found))

  -- An appeal that has been resolved is not resolved again, by anyone or in any way.
  pub resolve_appeal-resolve_appeal :
      (resolver other id : ℕ) (r again : Resolution) (done : Appeal) (w w' : World b)
      → resolve_appeal resolver id r w ≡ (ok done, w')
      → resolve_appeal other id again w' ≡ (err already_resolved, w')
  unfolding resolve_appeal
  resolve_appeal-resolve_appeal resolver other id r again done w w' h =
      resolved_before other id again done w'
        (found-Closed resolver id r (appeal_of id w) done w w' refl h)
