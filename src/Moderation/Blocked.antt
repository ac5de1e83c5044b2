-- ===== src/Moderation/Blocked.antt =====
-- Blocks and the chat: `createBlock` of src/moderation/moderation.service.ts, and `sendMessage`.
use verity_backend.Prelude.{
  ℕ, ◌≡◌, ◌≢◌, refl, sym, ap, subst, ◌∙◌, find-map-update, find-meets, is_some-find-other,
  is_some-find-last, ◌⊎◌, inl, inr, Bool, true, false, Option, none, some, List, [], ◌∷◌, arith,
  ◌==◌, if◌then◌else◌, find, is_some, trim, ==_refl, Bool-cases,
}
use verity_backend.Exec.{Result, ok, err, self_block, conversation_unavailable}
use verity_backend.Services.Redis.{user_queue, truthy}
use verity_backend.Schema.{Block, Match}
use verity_backend.World.{Servers, World}
use verity_backend.Queue.Pairs.{blocks_pair, is_pair_blocked}
use verity_backend.Matches.Service.{is_user_in, match_of}
use verity_backend.Chat.{check_match, open_match, post_if_open, send_content, send_message}
use verity_backend.Moderation.Blocks.{
  BlockReply, queue_named, leave_zset, of_pair, lift, block_of, add_block, set_lifted,
  remove_from_queue_if_present, block_as, create_block,
}

covers :
    (x y : ℕ) (z : Block)
    → of_pair x y z ≡ true
    → is_some z.lifted_at ≡ false
    → blocks_pair x y z ≡ true
covers x y z h e = ground (arith, h, e)

abbrev pub has_block : ℕ → ℕ → List Block → Bool
has_block x y blocks = is_some (find (blocks_pair x y) blocks)

new-covers :
    (x y id now : ℕ)
    → blocks_pair x y
        (record { id = id; created_at = now; blocker = x; blocked = y; lifted_at = none })
      ≡ true
new-covers x y id now = ground arith

swapped : (x y : ℕ) (blocks : List Block) → has_block x y blocks ≡ has_block y x blocks
swapped x y [] = refl
swapped x y (z ∷ zs) = ground (arith, swapped x y zs)

-- The match is one of the two users.
abbrev pub Between : ℕ → ℕ → Match → Type 0
Between x y m = ((m.user_a ≡ x) × (m.user_b ≡ y)) ⊎ ((m.user_a ≡ y) × (m.user_b ≡ x))

module _ {b : Servers} where
  abbrev pub rows_of : World b → List Block
  rows_of w = b.blocks.rows w.blocks

  blocks-leave_zset :
      (o : Option ℕ) (user : ℕ) (w : World b) → (leave_zset o user w).blocks ≡ w.blocks
  blocks-leave_zset none user w = refl
  blocks-leave_zset (some key) user w = refl

  blocks-remove : (user : ℕ) (w : World b) → (remove_from_queue_if_present user w).blocks ≡ w.blocks
  unfolding remove_from_queue_if_present
  blocks-remove user w =
      let raw = b.strings.get w.now (user_queue user) w.strings in
      elim (Bool-cases (truthy raw)) [
        | inl e ↦ rw e (blocks-leave_zset (queue_named raw) user w)
        | inr e ↦ rw e refl
      ]

  found_row :
      (x y : ℕ) (z : Block) (w : World b)
      → block_of x y w ≡ some z
      → find (of_pair x y) (rows_of w) ≡ some z
  found_row x y z w h = sym (b.blocks.find_first_lem (of_pair x y) w.blocks) ∙ h

  added-covers : (x y : ℕ) (w : World b) → has_block x y (rows_of (add_block x y w).1) ≡ true
  added-covers x y w = rw b.blocks.rows-create (
      is_some-find-last (blocks_pair x y) (rows_of w) _
        (new-covers x y (b.blocks.next_id w.blocks) w.now))

  reopened-covers :
      (x y : ℕ) (z : Block) (w : World b)
      → find (of_pair x y) (rows_of w) ≡ some z
      → has_block x y (rows_of (set_lifted none z w)) ≡ true
  reopened-covers x y z w h = rw b.blocks.rows-update_many (
      is_some-find-other (of_pair x y) (blocks_pair x y) _ (lift none z)
        (find-map-update (of_pair x y) (λ r. r.id == z.id) (lift none) (rows_of w) z (λ r. refl) h
          (==_refl z.id))
        (covers x y (lift none z) (find-meets (of_pair x y) (rows_of w) z h) refl))

  block_as-covers :
      (x y : ℕ) (o : Option Block) (w : World b)
      → block_of x y w ≡ o
      → has_block x y (rows_of (block_as x y o w).1) ≡ true
  unfolding block_as
  block_as-covers x y none w h = rw (blocks-remove y (add_block x y w).1) (added-covers x y w)
  block_as-covers x y (some z) w h =
      let row = found_row x y z w h in
      elim (Bool-cases (is_some z.lifted_at)) [
        | inl e ↦ rw (e, blocks-remove y (set_lifted none z w)) (reopened-covers x y z w row)
        | inr e ↦ rw e (
            is_some-find-other (of_pair x y) (blocks_pair x y) (rows_of w) z row
              (covers x y z (find-meets (of_pair x y) (rows_of w) z row) e))
      ]

  abbrev if_self : Bool → BlockReply → World b → World b → Result BlockReply × World b
  if_self self made w v = if self then (err self_block, w) else (ok made, v)

  not_self :
      (self : Bool) (made reply : BlockReply) (w v w' : World b)
      → if_self self made w v ≡ (ok reply, w')
      → v ≡ w'
  not_self true made reply w v w' h = cc (ap (λ r. r.0) h)
  not_self false made reply w v w' h = ap (λ r. r.1) h

  create-covers :
      (x y : ℕ) (reply : BlockReply) (w w' : World b)
      → create_block x y w ≡ (ok reply, w')
      → has_block x y (rows_of w') ≡ true
  unfolding create_block
  create-covers x y reply w w' h =
      let (made, v) = block_as x y (block_of x y w) w in
      subst (λ u. has_block x y (rows_of u) ≡ true) (not_self (x == y) made reply w v w' h)
        (block_as-covers x y (block_of x y w) w refl)

  blocked-has_block :
      (x y : ℕ) (w : World b) → has_block x y (rows_of w) ≡ true → is_pair_blocked x y w ≡ true
  unfolding is_pair_blocked
  blocked-has_block x y w h = rw b.blocks.find_first_lem h

  refused :
      (user : ℕ) (m : Match) (w : World b)
      → is_user_in user m ≡ true
      → is_pair_blocked m.user_a m.user_b w ≡ true
      → check_match user m w ≡ err conversation_unavailable
  unfolding check_match
  refused user m w is_in h = rw (is_in, h)

  content-refused :
      (id user : ℕ) (content : List ℕ) (m : Match) (w : World b)
      → content ≢ []
      → match_of id w ≡ some m
      → is_user_in user m ≡ true
      → is_pair_blocked m.user_a m.user_b w ≡ true
      → send_content id user content w ≡ (err conversation_unavailable, w)
  unfolding send_content open_match post_if_open
  content-refused id user [] m w some_text found is_in h = absurd (some_text refl)
  content-refused id user (c ∷ cs) m w some_text found is_in h =
      rw (found, refused user m w is_in h)

  Between-blocked :
      (x y : ℕ) (m : Match) (w : World b)
      → has_block x y (rows_of w) ≡ true
      → Between x y m
      → is_pair_blocked m.user_a m.user_b w ≡ true
  Between-blocked x y m w h (inl (a, c)) = rw (a, c) (blocked-has_block x y w h)
  Between-blocked x y m w h (inr (a, c)) =
      rw (a, c) (blocked-has_block y x w (swapped y x (rows_of w) ∙ h))

  -- After a block neither of its two users can write to the other in a match of theirs.
  pub create_block-silences :
      (x y id user : ℕ) (text : List ℕ) (m : Match) (reply : BlockReply) (w w' : World b)
      → create_block x y w ≡ (ok reply, w')
      → match_of id w' ≡ some m
      → Between x y m
      → is_user_in user m ≡ true
      → trim text ≢ []
      → send_message id user text w' ≡ (err conversation_unavailable, w')
  unfolding send_message
  create_block-silences x y id user text m reply w w' h found between is_in some_text =
      content-refused id user (trim text) m w' some_text found is_in
        (Between-blocked x y m w' (create-covers x y reply w w' h) between)
