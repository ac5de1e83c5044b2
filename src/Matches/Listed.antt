-- ===== src/Matches/Listed.antt =====
-- The profiles in the list of src/matches/matches.service.ts.
use verity_backend.Prelude.{
  ℕ, ◌≡◌, refl, subst, find-meets, Bool, true, false, Option, none, some, List, [], ◌∷◌, map, arith,
  ◌==◌, if◌then◌else◌, filter, find, contains, any, All, Has, All-Has-filter, is_some, Bool-cases,
  inl, inr, ◌⊎◌,
}
use verity_backend.Services.Database.{All-order_by_desc}
use verity_backend.Schema.{User, Match, Block, PartnerReveal}
use verity_backend.World.{Servers, World}
use verity_backend.Queue.Pairs.{blocks_pair}
use verity_backend.Matches.Reveal.{build_partner_reveal}
use verity_backend.Matches.Service.{
  ListItem, blocks_of, other_of, seen_by, visible_matches, reveal_or_null, list_item, is_user_in,
  list_matches,
}

-- The row of a match in which the user has asked for the profile of the partner.
abbrev pub Asked : ℕ → ℕ → Match → Type 0
Asked user partner m =
    ((m.user_a == user) ≡ true) × (m.user_b ≡ partner) × (is_some m.ack_a ≡ true)
    ⊎ ((m.user_b == user) ≡ true) × (m.user_a ≡ partner) × (is_some m.ack_b ≡ true)

-- A profile that an item shows is that of a partner: the user has asked for it in the match of the
-- item, and neither user blocks the other.
abbrev pub IsProper : ℕ → List Match → List Block → ListItem → Type 0
IsProper user matches blocks item =
    (r : PartnerReveal)
    → item.partner_reveal ≡ some r
    → ((m : Match) × Has m matches × (m.id ≡ item.match_id) × Asked user r.id m)
      × (any (blocks_pair user r.id) blocks ≡ false)

not_blocked :
    (user partner : ℕ) (blocks : List Block)
    → contains partner (map (other_of user) (filter (blocks_of user) blocks)) ≡ false
    → any (blocks_pair user partner) blocks ≡ false
not_blocked user partner [] h = refl
not_blocked user partner (x ∷ blocks) h = ground (arith, not_blocked user partner blocks)

profile-user :
    (o : Option User) (r : PartnerReveal)
    → reveal_or_null o ≡ some r
    → (u : User) × (o ≡ some u) × (u.id ≡ r.id)
unfolding build_partner_reveal
profile-user none r h = cc
profile-user (some u) r h = (u, refl, ground (arith, h))

reveal-partner :
    (partner : ℕ) (profiles : List User) (r : PartnerReveal)
    → reveal_or_null (find (λ u. u.id == partner) profiles) ≡ some r
    → partner ≡ r.id
reveal-partner partner profiles r h =
    let (u, found, same) = profile-user _ r h in
    let e = find-meets (λ u. u.id == partner) profiles u found in ground (arith, e, same)

shown-if :
    (shown : Bool) (o : Option PartnerReveal) (r : PartnerReveal)
    → (if shown then o else none) ≡ some r
    → (shown ≡ true) × (o ≡ some r)
shown-if true o r h = (refl, h)
shown-if false o r h = cc

seen-Asked :
    (user partner : ℕ) (m : Match)
    → is_user_in user m ≡ true
    → (seen_by user m).reveal_acknowledged ≡ true
    → (seen_by user m).partner ≡ partner
    → Asked user partner m
seen-Asked user partner m is_in acked e = elim (Bool-cases (m.user_a == user)) [
  | inl h ↦ inl (h, ground (arith, h, e), ground (arith, h, acked))
  | inr h ↦ inr (ground (arith, h, is_in), ground (arith, h, e), ground (arith, h, acked))
]

item-IsProper :
    (user : ℕ) (matches : List Match) (blocks : List Block) (profiles : List User) (m : Match)
    → Has m matches
    → is_user_in user m ≡ true
    → any (blocks_pair user (seen_by user m).partner) blocks ≡ false
    → IsProper user matches blocks (list_item profiles (seen_by user m))
unfolding list_item
item-IsProper user matches blocks profiles m stored is_in h r e =
    let v = seen_by user m in
    let (shown, found) = shown-if v.reveal_acknowledged _ r e in
    let partner = reveal-partner v.partner profiles r found in
    (
      (m, stored, refl, seen-Asked user r.id m is_in shown partner),
      subst (λ x. any (blocks_pair user x) blocks ≡ false) partner h,
    )

items-IsProper :
    (user : ℕ) (matches : List Match) (blocks : List Block) (profiles : List User) (ms : List Match)
    → All (λ m. Has m matches × (is_user_in user m ≡ true)) ms
    → All
        (IsProper user matches blocks)
        (map (list_item profiles) (visible_matches user ms (filter (blocks_of user) blocks)))
unfolding visible_matches
items-IsProper user matches blocks profiles [] h = tt
items-IsProper user matches blocks profiles (m ∷ ms) ((stored, is_in), hs) =
    let others = map (other_of user) (filter (blocks_of user) blocks) in
    let rest = items-IsProper user matches blocks profiles ms hs in
    elim (Bool-cases (contains (seen_by user m).partner others)) [
      | inl e ↦ rw e rest
      | inr e ↦ rw e (
        item-IsProper user matches blocks profiles m stored is_in
            (not_blocked user (seen_by user m).partner blocks e),
        rest,
      )
    ]

module _ {b : Servers} where
  -- The list of matches shows a profile only where a match with this partner is stored in which
  -- the user has asked for it, and only where neither of the two users blocks the other.
  pub list_matches-IsProper :
      (user : ℕ) (w : World b)
      → All
          (IsProper user (b.matches.rows w.matches) (b.blocks.rows w.blocks))
          (list_matches user w)
  unfolding list_matches
  list_matches-IsProper user w =
      rw (b.blocks.find_many_lem, b.matches.find_many_lem)
        (items-IsProper user (b.matches.rows w.matches) (b.blocks.rows w.blocks) _ _ (
          All-order_by_desc _ (λ (m : Match). m.created_at) _
            (All-Has-filter (is_user_in user) (b.matches.rows w.matches) (b.matches.rows w.matches)
              (λ x h. h))))
