-- ===== src/Queue/Refund.antt =====
-- `leaveQueue` of src/queue/queue.service.ts, and the refund of the token.
use verity_backend.Prelude.{
  ℕ, ◌+◌, ◌≡◌, refl, sym, subst, inl, inr, Bool, true, false, not, ◌&&◌, none, List, [], ◌∷◌, arith,
  ◌==◌, if◌then◌else◌, is_some, ==_refl, Bool-cases,
}
use verity_backend.Services.Redis.{
  user_queue, user_matched, truthy, key_eq_refl, index_of, without, Entry,
}
use verity_backend.World.{Servers, World, send}
use verity_backend.Balances.{HasBalance, Balance}
use verity_backend.Queue.Entry.{QueueEntry, parse_queue_entry, queue_entry_of}
use verity_backend.Queue.Join.{give_back_token}
use verity_backend.Queue.Leave.{LeaveReply, cleanup_queue_key, remove_entry, leave_entry, has_left}
use verity_backend.Queue.Tokens.{Balance-give_back_token}

index_of-without : (m : ℕ) (es : List Entry) → is_some (index_of m (without m es)) ≡ false
index_of-without m [] = refl
index_of-without m (e ∷ es) = ground (arith, index_of-without m es)

module _ {b : Servers} where
  -- The user has a place in the sorted set of the queue.
  abbrev pub in_zset : ℕ → ℕ → World b → Bool
  in_zset key user w = is_some (index_of user (b.zsets.zrange key w.zsets))

  abbrev pub was_matched : ℕ → World b → Bool
  was_matched user w = truthy (b.strings.get w.now (user_matched user) w.strings)

  abbrev taken_out : ℕ → ℕ → World b → World b
  taken_out user key w = record w {
    zsets = (b.zsets.zrem key user w.zsets).1;
    strings = b.strings.del (user_queue user) w.strings;
  }

  remove_entry_lem :
      (user key : ℕ) (w : World b)
      → remove_entry user key w ≡ (in_zset key user w, cleanup_queue_key key (taken_out user key w))
  unfolding remove_entry
  remove_entry_lem user key w = rw (b.zsets.zrem-reply key user w.zsets)

  -- The set of keys is no part of what a user sees.
  cleanup-keeps :
      (key : ℕ) (w : World b)
      → ((cleanup_queue_key key w).users ≡ w.users)
        × ((cleanup_queue_key key w).zsets ≡ w.zsets)
        × ((cleanup_queue_key key w).strings ≡ w.strings)
        × ((cleanup_queue_key key w).now ≡ w.now)
  unfolding cleanup_queue_key
  cleanup-keeps key w = elim (Bool-cases (b.zsets.zcard key w.zsets == 0)) [
    | inl e ↦ rw e (refl, refl, refl, refl)
    | inr e ↦ rw e (refl, refl, refl, refl)
  ]

  -- The user has no entry and no place in the queue.
  abbrev pub Gone : ℕ → ℕ → World b → Type 0
  Gone user key w = (queue_entry_of user w ≡ none) × (in_zset key user w ≡ false)

  -- How a user leaves: the token comes back where the user had a place and was not matched.
  abbrev pub Left : ℕ → ℕ → ℕ → World b → LeaveReply × World b → Type 0
  Left user key n w (r, w') =
      (r.refunded ≡ (in_zset key user w && not (was_matched user w)))
      × Balance user (if r.refunded then n + 1 else n) w'
      × Gone user key w'

  leave_refunded :
      (user : ℕ) (e : QueueEntry) (w : World b)
      → (in_zset e.queue_key user w && not (was_matched user w)) ≡ true
      → ((leave_entry user e w).0 ≡ has_left e.queue_key)
        × ((out : _) × ((leave_entry user e w).1
              ≡ send out (
                  give_back_token user
                    (cleanup_queue_key e.queue_key (taken_out user e.queue_key w)))))
  unfolding leave_entry
  leave_refunded user e w h = rw (remove_entry_lem user e.queue_key w, h) (refl, (_, refl))

  leave_kept :
      (user : ℕ) (e : QueueEntry) (w : World b)
      → (in_zset e.queue_key user w && not (was_matched user w)) ≡ false
      → ((leave_entry user e w).0.refunded ≡ false)
        × ((out : _) × ((leave_entry user e w).1
              ≡ send out (cleanup_queue_key e.queue_key (taken_out user e.queue_key w))))
  unfolding leave_entry
  leave_kept user e w h = rw (remove_entry_lem user e.queue_key w, h) (refl, (_, refl))

  taken_out-Gone :
      (user key : ℕ) (w : World b) → Gone user key (cleanup_queue_key key (taken_out user key w))
  unfolding queue_entry_of parse_queue_entry
  taken_out-Gone user key w =
      let (users, zsets, strings, now) = cleanup-keeps key (taken_out user key w) in
      (
        rw (strings, b.strings.get-del, key_eq_refl (user_queue user)) refl,
        rw (zsets, b.zsets.zrange-zrem, ==_refl key)
            (index_of-without user (b.zsets.zrange key w.zsets)),
      )

  taken_out-Balance :
      (user key n : ℕ) (w : World b)
      → Balance user n w
      → Balance user n (cleanup_queue_key key (taken_out user key w))
  taken_out-Balance user key n w h =
      subst (λ us. HasBalance user n (b.users.rows us))
        (sym (cleanup-keeps key (taken_out user key w)).0) h

  give_back-Gone :
      (user key : ℕ) (w : World b) → Gone user key w → Gone user key (give_back_token user w)
  unfolding give_back_token queue_entry_of
  give_back-Gone user key w h = h

  send-Gone : (user key : ℕ) (w : World b) (out : _) → Gone user key w → Gone user key (send out w)
  unfolding queue_entry_of
  send-Gone user key w out h = h

  refunded-Left :
      (user n : ℕ) (e : QueueEntry) (w : World b)
      → (in_zset e.queue_key user w && not (was_matched user w)) ≡ true
      → Balance user n w
      → Left user e.queue_key n w (leave_entry user e w)
  refunded-Left user n e w due h =
      let (reply, (out, same)) = leave_refunded user e w due in
      let out_of = cleanup_queue_key e.queue_key (taken_out user e.queue_key w) in
      rw (reply, same, due)
        (
          refl,
          Balance-give_back_token user n out_of (taken_out-Balance user e.queue_key n w h),
          send-Gone user e.queue_key (give_back_token user out_of) out
              (give_back-Gone user e.queue_key out_of (taken_out-Gone user e.queue_key w)),
        )

  kept-Left :
      (user n : ℕ) (e : QueueEntry) (w : World b)
      → (in_zset e.queue_key user w && not (was_matched user w)) ≡ false
      → Balance user n w
      → Left user e.queue_key n w (leave_entry user e w)
  kept-Left user n e w kept h =
      let (reply, (out, same)) = leave_kept user e w kept in
      let out_of = cleanup_queue_key e.queue_key (taken_out user e.queue_key w) in
      rw (reply, same, kept)
        (
          refl,
          taken_out-Balance user e.queue_key n w h,
          send-Gone user e.queue_key out_of out (taken_out-Gone user e.queue_key w),
        )

  -- A user who leaves is out of the queue; the token comes back exactly if the user had a place
  -- there and has not been matched.
  pub leave_entry-Left :
      (user n : ℕ) (e : QueueEntry) (w : World b)
      → Balance user n w
      → Left user e.queue_key n w (leave_entry user e w)
  leave_entry-Left user n e w h =
      elim (Bool-cases (in_zset e.queue_key user w && not (was_matched user w))) [
        | inl due ↦ refunded-Left user n e w due h
        | inr kept ↦ kept-Left user n e w kept h
      ]
