-- ===== src/Matches/Service.antt =====
-- src/matches/matches.service.ts: the list of matches, and the reveal of a partner's profile.
use verity_backend.Prelude.{
  ℕ, Bool, not, ◌&&◌, ◌||◌, Option, none, some, List, map, ◌==◌, if◌then◌else◌, filter, find,
  contains, is_some,
}
use verity_backend.Exec.{Result, ok, err, Exec, match_not_found, not_match_participant}
use verity_backend.Services.Database.{order_by_desc}
use verity_backend.Schema.{User, Match, Block, PartnerReveal}
use verity_backend.World.{Servers, World}
use verity_backend.Matches.Reveal.{build_partner_reveal}

pub data Side : Type 0 where
  side_a side_b : Side

unfoldable pub resolve_participant_side : Match → ℕ → Result Side
resolve_participant_side m user =
    if m.user_a == user
    then ok side_a
    else if m.user_b == user
    then ok side_b
    else err not_match_participant

abbrev pub partner_at : Side → Match → ℕ
partner_at side_a m = m.user_b
partner_at side_b m = m.user_a

abbrev pub acknowledged_at : Side → Match → Option ℕ
acknowledged_at side_a m = m.ack_a
acknowledged_at side_b m = m.ack_b

-- `MatchRevealPayload`; its version is always 1, and `reveal_acknowledged` says whether there is a
-- time.
pub record RevealPayload : Type 0 where
  pub match_id : ℕ
  pub partner_reveal : PartnerReveal
  pub reveal_acknowledged : Bool
  pub reveal_acknowledged_at : Option ℕ

-- `MatchListItemPayload`
pub record ListItem : Type 0 where
  pub match_id : ℕ
  pub reveal_acknowledged : Bool
  pub reveal_acknowledged_at : Option ℕ
  pub partner_reveal : Option PartnerReveal

pub record VisibleMatch : Type 0 where
  pub match_id : ℕ
  pub partner : ℕ
  pub reveal_acknowledged : Bool
  pub reveal_acknowledged_at : Option ℕ

abbrev pub is_user_in : ℕ → Match → Bool
is_user_in user m = m.user_a == user || m.user_b == user

-- The active blocks of a user and by a user, and the other user of each.
abbrev pub blocks_of : ℕ → Block → Bool
blocks_of user block =
    not (is_some block.lifted_at) && (block.blocker == user || block.blocked == user)

abbrev pub other_of : ℕ → Block → ℕ
other_of user block = if block.blocker == user then block.blocked else block.blocker

abbrev pub seen_by : ℕ → Match → VisibleMatch
seen_by user m =
    let side = if m.user_a == user then side_a else side_b in
    record {
      match_id = m.id;
      partner = partner_at side m;
      reveal_acknowledged = is_some (acknowledged_at side m);
      reveal_acknowledged_at = acknowledged_at side m;
    }

unfoldable pub visible_matches : ℕ → List Match → List Block → List VisibleMatch
visible_matches user matches blocks =
    filter (λ v. not (contains v.partner (map (other_of user) blocks))) (map (seen_by user) matches)

abbrev pub reveal_or_null : Option User → Option PartnerReveal
reveal_or_null none = none
reveal_or_null (some u) = some (build_partner_reveal u)

-- With the profiles of the partners that have been revealed.
unfoldable pub list_item : List User → VisibleMatch → ListItem
list_item profiles v = record {
  match_id = v.match_id;
  reveal_acknowledged = v.reveal_acknowledged;
  reveal_acknowledged_at = v.reveal_acknowledged_at;
  partner_reveal =
      if v.reveal_acknowledged
      then reveal_or_null (find (λ u. u.id == v.partner) profiles)
      else none;
}

abbrev pub revealed_partners : List VisibleMatch → List ℕ
revealed_partners vs = map (λ v. v.partner) (filter (λ v. v.reveal_acknowledged) vs)

abbrev pub reveal_of : Match → Option ℕ → User → RevealPayload
reveal_of m at partner = record {
  match_id = m.id;
  partner_reveal = build_partner_reveal partner;
  reveal_acknowledged = is_some at;
  reveal_acknowledged_at = at;
}

unfoldable pub reveal_as : Match → Option ℕ → Option User → Result RevealPayload
reveal_as m at none = err match_not_found
reveal_as m at (some partner) = ok (reveal_of m at partner)

abbrev pub acknowledge_at : Side → ℕ → Match → Match
acknowledge_at side_a now m = record m { ack_a = some now }
acknowledge_at side_b now m = record m { ack_b = some now }

module _ {b : Servers} where
  unfoldable pub list_matches : ℕ → World b → List ListItem
  unfolding visible_matches list_item
  list_matches user w =
      let matches =
        order_by_desc (λ m. m.created_at) (b.matches.find_many (is_user_in user) w.matches) in
      let visible = visible_matches user matches (b.blocks.find_many (blocks_of user) w.blocks) in
      let profiles = b.users.find_many (λ u. contains u.id (revealed_partners visible)) w.users in
      map (list_item profiles) visible

  abbrev pub match_of : ℕ → World b → Option Match
  match_of id w = b.matches.find_first (λ m. m.id == id) w.matches

  -- A relation of the match's row, which the database enforces: the row of the partner is there.
  abbrev pub partner_row : ℕ → World b → Option User
  partner_row user w = b.users.find_first (λ u. u.id == user) w.users

  unfoldable pub reveal_side : Match → Result Side → World b → Result RevealPayload
  unfolding reveal_as
  reveal_side m (err e) w = err e
  reveal_side m (ok side) w =
      reveal_as m (acknowledged_at side m) (partner_row (partner_at side m) w)

  unfoldable pub reveal_match : Option Match → ℕ → World b → Result RevealPayload
  unfolding reveal_side
  reveal_match none user w = err match_not_found
  reveal_match (some m) user w = reveal_side m (resolve_participant_side m user) w

  unfoldable pub get_reveal : ℕ → ℕ → World b → Result RevealPayload
  unfolding reveal_match
  get_reveal id user w = reveal_match (match_of id w) user w

  abbrev pub acknowledged : Match → Side → World b → World b
  acknowledged m side w = record w {
    matches = (b.matches.update_many (λ x. x.id == m.id) (acknowledge_at side w.now) w.matches).1;
  }

  -- only the first time counts
  unfoldable pub acknowledge_side : Match → Side → World b → World b
  acknowledge_side m side w = if is_some (acknowledged_at side m) then w else acknowledged m side w

  unfoldable pub acknowledge_as : ℕ → ℕ → Match → Result Side → Exec (World b) RevealPayload
  acknowledge_as id user m (err e) w = (err e, w)
  acknowledge_as id user m (ok side) w =
      let w' = acknowledge_side m side w in (get_reveal id user w', w')

  unfoldable pub acknowledge_match : ℕ → ℕ → Option Match → Exec (World b) RevealPayload
  unfolding acknowledge_as
  acknowledge_match id user none w = (err match_not_found, w)
  acknowledge_match id user (some m) w =
      acknowledge_as id user m (resolve_participant_side m user) w

  unfoldable pub acknowledge_reveal : ℕ → ℕ → Exec (World b) RevealPayload
  unfolding acknowledge_match
  acknowledge_reveal id user w = acknowledge_match id user (match_of id w) w

  unfoldable pub is_reveal_acknowledged : ℕ → ℕ → World b → Result Bool
  is_reveal_acknowledged id user w = elim (match_of id w) [
    | none ↦ err match_not_found
    | some m ↦ elim (resolve_participant_side m user) [
      | err e ↦ err e
      | ok side ↦ ok (is_some (acknowledged_at side m))
    ]
  ]
