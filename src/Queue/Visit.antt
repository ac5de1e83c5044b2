-- ===== src/Queue/Visit.antt =====
-- A visit to a queue: joining and leaving again, and joining twice.
use verity_backend.Prelude.{
  ℕ, ◌+◌, ◌-◌, ◌≡◌, ◌≢◌, refl, sym, ap, subst, ◌∙◌, true, false, none, some, arith, if◌then◌else◌,
  is_some,
}
use verity_backend.Exec.{ok}
use verity_backend.World.{Servers, World}
use verity_backend.Balances.{Balance}
use verity_backend.Queue.Entry.{QueueEntry, queue_entry_of}
use verity_backend.Queue.Join.{JoinReply, already, join_new, join_as, join_locked}
use verity_backend.Queue.Leave.{LeaveReply, leave_entry, leave_as, leave_locked}
use verity_backend.Queue.Tokens.{Waits, Paid, join_new-Paid}
use verity_backend.Queue.Refund.{in_zset, was_matched, Gone, Left, leave_entry-Left}

module _ {b : Servers} where
  leave_locked_lem :
      (user : ℕ) (e : QueueEntry) (w : World b)
      → queue_entry_of user w ≡ some e
      → leave_locked user w ≡ leave_entry user e w
  unfolding leave_locked leave_as
  leave_locked_lem user e w h = ap (λ o. leave_as user o w) h

  waits-in_zset :
      (user key : ℕ) (w : World b)
      → is_some (b.zsets.zrank key user w.zsets) ≡ true
      → in_zset key user w ≡ true
  waits-in_zset user key w h = sym (ap is_some (b.zsets.zrank_lem key user w.zsets)) ∙ h

  refund-Left :
      (user key n : ℕ) (w : World b) (r : LeaveReply × World b)
      → in_zset key user w ≡ true
      → was_matched user w ≡ false
      → Left user key n w r
      → (r.0.refunded ≡ true) × Balance user (n + 1) r.1 × Gone user key r.1
  refund-Left user key n w (r, w') waits unmatched (e, balance, gone) =
      let due : r.refunded ≡ true = e ∙ rw (waits, unmatched) refl in
      (due, subst (λ c. Balance user (if c then n + 1 else n) w') due balance, gone)

  -- A user who waits and has not been matched gets the token back by leaving, and is gone.
  leave-Waits :
      (user key n : ℕ) (w : World b)
      → Balance user n w
      → Waits user key w
      → was_matched user w ≡ false
      → let (r, w') = leave_locked user w in
        (r.refunded ≡ true) × Balance user (n + 1) w' × Gone user key w'
  leave-Waits user key n w h (entry, place) unmatched = rw (leave_locked_lem user _ w entry) (
      refund-Left user key n w (leave_entry user (record { queue_key = key; joined_at = w.now }) w)
        (waits-in_zset user key w place) unmatched (leave_entry-Left user n _ w h))

  Paid-leave :
      (user key n : ℕ) (w w' : World b) (r : JoinReply)
      → Paid user key n w (ok r, w')
      → was_matched user w' ≡ false
      → let (reply, w'') = leave_locked user w' in
        (reply.refunded ≡ true) × Balance user n w'' × Gone user key w''
  Paid-leave user key n w w' r (some_tokens, h, waits) unmatched =
      let (refunded, balance, gone) = leave-Waits user key (n - 1) w' h waits unmatched in
      (
        refunded,
        subst (λ m. Balance user m (leave_locked user w').1) (omega (arith, some_tokens)) balance,
        gone,
      )

  join_locked_new :
      (user key : ℕ) (w : World b)
      → queue_entry_of user w ≡ none
      → join_locked user key w ≡ join_new user key w
  unfolding join_locked join_as
  join_locked_new user key w h = ap (λ o. join_as user key o w) h

  join_locked_waiting :
      (user key : ℕ) (w : World b) {e : QueueEntry}
      → queue_entry_of user w ≡ some e
      → join_locked user key w ≡ (ok (already user e w), w)
  unfolding join_locked join_as
  join_locked_waiting user key w h = ap (λ o. join_as user key o w) h

  -- A user who takes a new place in a queue and leaves it again, without having been matched,
  -- has the same number of tokens as before and no place.
  pub join-leave :
      (user key n : ℕ) (w w' : World b) (r : JoinReply)
      → key ≢ 0
      → Balance user n w
      → queue_entry_of user w ≡ none
      → join_locked user key w ≡ (ok r, w')
      → was_matched user w' ≡ false
      → let (reply, w'') = leave_locked user w' in
        (reply.refunded ≡ true) × Balance user n w'' × Gone user key w''
  join-leave user key n w w' r nonzero h new joined unmatched =
      Paid-leave user key n w w' r
        (subst (Paid user key n w) (sym (join_locked_new user key w new) ∙ joined)
          (join_new-Paid user key n w nonzero h))
        unmatched

  -- A user who has just taken a place joins for nothing: the second call, for any queue, changes
  -- nothing.
  pub join-join :
      (user key again n : ℕ) (w w' : World b) (r : JoinReply)
      → key ≢ 0
      → Balance user n w
      → queue_entry_of user w ≡ none
      → join_locked user key w ≡ (ok r, w')
      → (join_locked user again w').1 ≡ w'
  join-join user key again n w w' r nonzero h new joined =
      ap (λ x. x.1)
        (join_locked_waiting user again w'
          (subst (Paid user key n w) (sym (join_locked_new user key w new) ∙ joined)
            (join_new-Paid user key n w nonzero h)).2.0)
