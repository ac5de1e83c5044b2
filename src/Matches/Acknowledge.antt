-- ===== src/Matches/Acknowledge.antt =====
-- A reveal that is acknowledged again: `acknowledgeReveal` of src/matches/matches.service.ts.
use verity_backend.Prelude.{
  ℕ, ◌≡◌, refl, sym, ap, subst, ◌∙◌, find, find-map-update, true, false, Option, none, some, arith,
  ◌==◌, ==_refl, is_some, Bool-cases, inl, inr,
}
use verity_backend.Exec.{Result, ok, err}
use verity_backend.Schema.{User, Match}
use verity_backend.World.{Servers, World}
use verity_backend.Matches.Service.{
  Side, side_a, side_b, resolve_participant_side, acknowledged_at, acknowledge_at, partner_at,
  partner_row, RevealPayload, reveal_as, match_of, reveal_side, reveal_match, get_reveal,
  acknowledged, acknowledge_side, acknowledge_as, acknowledge_match, acknowledge_reveal,
}

same-id : (s : Side) (now id : ℕ) (x : Match) → ((acknowledge_at s now x).id == id) ≡ (x.id == id)
same-id side_a now id x = refl
same-id side_b now id x = refl

same-side :
    (s : Side) (now user : ℕ) (m : Match)
    → resolve_participant_side (acknowledge_at s now m) user ≡ resolve_participant_side m user
unfolding resolve_participant_side
same-side side_a now user m = refl
same-side side_b now user m = refl

now-acknowledged :
    (s : Side) (now : ℕ) (m : Match) → is_some (acknowledged_at s (acknowledge_at s now m)) ≡ true
now-acknowledged side_a now m = refl
now-acknowledged side_b now m = refl

shown-reveal_as :
    (m : Match) (at : Option ℕ) (partner : Option User) (r : RevealPayload)
    → is_some at ≡ true
    → reveal_as m at partner ≡ ok r
    → r.reveal_acknowledged ≡ true
unfolding reveal_as
shown-reveal_as m at none r e h = cc
shown-reveal_as m at (some partner) r e h = ground (arith, e, h)

module _ {b : Servers} where
  -- The match as the user who has asked for the profile finds it.
  abbrev Revealed : ℕ → ℕ → Side → World b → Match → Type 0
  Revealed id user s w m =
      (match_of id w ≡ some m)
      × (resolve_participant_side m user ≡ ok s)
      × (is_some (acknowledged_at s m) ≡ true)

  match-acknowledged :
      (id : ℕ) (s : Side) (m : Match) (w : World b)
      → match_of id w ≡ some m
      → match_of id (acknowledged m s w) ≡ some (acknowledge_at s w.now m)
  match-acknowledged id s m w h =
      b.matches.find_first_lem (λ x. x.id == id) (acknowledged m s w).matches
      ∙ ap (find (λ x. x.id == id))
          (b.matches.rows-update_many (λ x. x.id == m.id) (acknowledge_at s w.now) w.matches)
      ∙ find-map-update (λ x. x.id == id) (λ x. x.id == m.id) (acknowledge_at s w.now)
          (b.matches.rows w.matches) m (same-id s w.now id)
          (sym (b.matches.find_first_lem (λ x. x.id == id) w.matches) ∙ h) (==_refl m.id)

  acknowledge_side-done :
      (m : Match) (s : Side) (w : World b)
      → is_some (acknowledged_at s m) ≡ true
      → acknowledge_side m s w ≡ w
  unfolding acknowledge_side
  acknowledge_side-done m s w h = rw h

  acknowledge_side-new :
      (m : Match) (s : Side) (w : World b)
      → is_some (acknowledged_at s m) ≡ false
      → acknowledge_side m s w ≡ acknowledged m s w
  unfolding acknowledge_side
  acknowledge_side-new m s w h = rw h

  side-Revealed :
      (id user : ℕ) (s : Side) (m : Match) (w : World b)
      → match_of id w ≡ some m
      → resolve_participant_side m user ≡ ok s
      → (m' : Match) × Revealed id user s (acknowledge_side m s w) m'
  side-Revealed id user s m w h side = elim (Bool-cases (is_some (acknowledged_at s m))) [
    | inl e ↦
        (m, subst (λ v. Revealed id user s v m) (sym (acknowledge_side-done m s w e)) (h, side, e))
    | inr e ↦ (
      acknowledge_at s w.now m,
      subst (λ v. Revealed id user s v (acknowledge_at s w.now m))
          (sym (acknowledge_side-new m s w e))
          (
            match-acknowledged id s m w h,
            same-side s w.now user m ∙ side,
            now-acknowledged s w.now m,
          ),
    )
  ]

  again-Revealed :
      (id user : ℕ) (s : Side) (m : Match) (w : World b)
      → Revealed id user s w m
      → acknowledge_reveal id user w ≡ (get_reveal id user w, w)
  unfolding acknowledge_reveal acknowledge_match acknowledge_as
  again-Revealed id user s m w (h, side, e) = rw (h, side, acknowledge_side-done m s w e)

  shown-Revealed :
      (id user : ℕ) (s : Side) (m : Match) (w : World b) (r : RevealPayload)
      → Revealed id user s w m
      → get_reveal id user w ≡ ok r
      → r.reveal_acknowledged ≡ true
  unfolding get_reveal reveal_match reveal_side
  shown-Revealed id user s m w r (h, side, e) shown =
      shown-reveal_as m (acknowledged_at s m) (partner_row (partner_at s m) w) r e (
        subst (λ c. reveal_side m c w ≡ ok r) side
          (subst (λ o. reveal_match o user w ≡ ok r) h shown))

  as-Revealed :
      (id user : ℕ) (m : Match) (c : Result Side) (r : RevealPayload) (w w' : World b)
      → match_of id w ≡ some m
      → resolve_participant_side m user ≡ c
      → acknowledge_as id user m c w ≡ (ok r, w')
      → (s : Side) × (m' : Match) × Revealed id user s w' m' × (get_reveal id user w' ≡ ok r)
  unfolding acknowledge_as
  as-Revealed id user m (err e) r w w' found side h = cc (ap (λ x. x.0) h)
  as-Revealed id user m (ok s) r w w' found side h =
      let (m', revealed) = side-Revealed id user s m w found side in
      (
        s,
        m',
        subst (λ v. Revealed id user s v m') (ap (λ x. x.1) h) revealed,
        subst (λ v. get_reveal id user v ≡ ok r) (ap (λ x. x.1) h) (ap (λ x. x.0) h),
      )

  match-Revealed :
      (id user : ℕ) (o : Option Match) (r : RevealPayload) (w w' : World b)
      → match_of id w ≡ o
      → acknowledge_match id user o w ≡ (ok r, w')
      → (s : Side) × (m : Match) × Revealed id user s w' m × (get_reveal id user w' ≡ ok r)
  unfolding acknowledge_match
  match-Revealed id user none r w w' found h = cc (ap (λ x. x.0) h)
  match-Revealed id user (some m) r w w' found h =
      as-Revealed id user m (resolve_participant_side m user) r w w' found refl h

  abbrev pub later : ℕ → World b → World b
  later t w = record w { now = t }

  later-side :
      (m : Match) (c : Result Side) (t : ℕ) (w : World b)
      → reveal_side m c (later t w) ≡ reveal_side m c w
  unfolding reveal_side
  later-side m (err e) t w = refl
  later-side m (ok s) t w = refl

  later-match :
      (o : Option Match) (user t : ℕ) (w : World b)
      → reveal_match o user (later t w) ≡ reveal_match o user w
  unfolding reveal_match
  later-match none user t w = refl
  later-match (some m) user t w = later-side m (resolve_participant_side m user) t w

  later-get_reveal :
      (id user t : ℕ) (w : World b) → get_reveal id user (later t w) ≡ get_reveal id user w
  unfolding get_reveal
  later-get_reveal id user t w = later-match (match_of id w) user t w

  -- Acknowledging shows the profile, and doing it again at any later time replies the same, with
  -- the time of the first, and changes nothing.
  pub acknowledge_reveal-acknowledge_reveal :
      (id user t : ℕ) (r : RevealPayload) (w w' : World b)
      → acknowledge_reveal id user w ≡ (ok r, w')
      → (r.reveal_acknowledged ≡ true)
        × (acknowledge_reveal id user (later t w') ≡ (ok r, later t w'))
  unfolding acknowledge_reveal
  acknowledge_reveal-acknowledge_reveal id user t r w w' h =
      let (s, m, revealed, shown) = match-Revealed id user (match_of id w) r w w' refl h in
      (
        shown-Revealed id user s m w' r revealed shown,
        again-Revealed id user s m (later t w') revealed
            ∙ ap (λ x. (x, later t w')) (later-get_reveal id user t w' ∙ shown),
      )
