-- ===== src/Tests/QueueTests.antt =====
-- Examples of the queue.
use verity_backend.Prelude.{ℕ, ◌≡◌, ◌≢◌, refl, true, false, none, some, [], ◌∷◌, arith}
use verity_backend.Exec.{ok}
use verity_backend.World.{World}
use verity_backend.Balances.{Balance}
use verity_backend.Queue.Entry.{queue_entry_of, parse_queue_entry}
use verity_backend.Queue.Join.{
  JoinReply, queued, take_token, enqueue, write_entry, report_joined, join_new, join_as,
  join_locked,
}
use verity_backend.Queue.Lock.{acquire_lock, lock_users}
use verity_backend.Queue.Leave.{leave_entry, leave_locked}
use verity_backend.Queue.Pairs.{QueuePair, pop_pair, pair_of, validate_pair}
use verity_backend.Queue.Tokens.{Paid, join_new-Paid}
use verity_backend.Queue.Refund.{Left, Gone, was_matched, leave_entry-Left}
use verity_backend.Queue.Visit.{join-leave}
use verity_backend.Queue.Exclusion.{AllOrNone, lock_users-AllOrNone}
use verity_backend.Queue.Pairing.{Sorted, validate_pair-Sorted}
use verity_backend.Queue.Worker.{Round, match_round}
use verity_backend.Queue.Rounds.{NobodyLost, match_round-NobodyLost}
use verity_backend.Tests.Memory.{memory}
use verity_backend.Tests.Worlds.{funded}

abbrev key : ℕ
key = 8

key_given : key ≢ 0
key_given = ground arith

join_new-Paid_example : Paid 2 8 1 funded (join_new 2 8 funded)
join_new-Paid_example = join_new-Paid 2 8 1 funded key_given (refl, refl)

-- The first user has joined the queue 8.
abbrev joined : World memory
joined = (join_locked 2 8 funded).1

abbrev join_reply : JoinReply
join_reply = record { status = queued; queue_key = 8; position = some 0 }

joins : join_locked 2 8 funded ≡ (ok join_reply, joined)
unfolding join_locked join_as join_new take_token enqueue write_entry report_joined queue_entry_of
    parse_queue_entry
joins = refl

not_waiting : queue_entry_of 2 funded ≡ none
unfolding queue_entry_of parse_queue_entry
not_waiting = refl

unmatched : was_matched 2 joined ≡ false
unfolding join_locked join_as join_new take_token enqueue write_entry report_joined queue_entry_of
    parse_queue_entry
unmatched = refl

join-leave_example :
    let (reply, w) = leave_locked 2 joined in (reply.refunded ≡ true) × Balance 2 1 w × Gone 2 8 w
join-leave_example =
    join-leave 2 8 1 funded joined join_reply key_given (refl, refl) not_waiting joins unmatched

leave_entry-Left_example :
    Left 2 8 1 funded (leave_entry 2 (record { queue_key = 8; joined_at = 1000 }) funded)
leave_entry-Left_example =
    leave_entry-Left 2 1 (record { queue_key = 8; joined_at = 1000 }) funded (refl, refl)

acquires : acquire_lock 2 30 funded ≡ (true, (acquire_lock 2 30 funded).1)
unfolding acquire_lock
acquires = refl

lock_users-AllOrNone_example :
    AllOrNone 2 4 30 32 funded (lock_users [] ((2, 30) ∷ (4, 32) ∷ []) funded)
lock_users-AllOrNone_example = lock_users-AllOrNone 2 4 30 32 funded (ground arith)

abbrev both : QueuePair
both = record { user_a = 2; user_b = 4; score_a = 900; score_b = 950 }

validate_pair-Sorted_example : Sorted 8 both joined (validate_pair 8 both joined)
validate_pair-Sorted_example = validate_pair-Sorted 8 both joined

pops_none : pop_pair 8 joined ≡ (none, (pop_pair 8 joined).1)
unfolding pop_pair pair_of join_locked join_as join_new take_token enqueue write_entry report_joined
    queue_entry_of parse_queue_entry
pops_none = refl

-- The second user has joined after the first.
abbrev both_joined : World memory
both_joined = (join_locked 4 8 joined).1

abbrev popped : QueuePair
popped = record { user_a = 2; user_b = 4; score_a = 1000; score_b = 1000 }

abbrev emptied : World memory
emptied = (pop_pair 8 both_joined).1

pops_both : pop_pair 8 both_joined ≡ (some popped, emptied)
unfolding pop_pair pair_of join_locked join_as join_new take_token enqueue write_entry report_joined
    queue_entry_of parse_queue_entry
pops_both = refl

abbrev round : Round
round = record { lock_a = 30; lock_b = 32; database_fails = false; redis_fails = false }

match_round-NobodyLost_example : NobodyLost 8 popped emptied (match_round 8 round both_joined)
unfolding pop_pair pair_of join_locked join_as join_new take_token enqueue write_entry report_joined
    queue_entry_of parse_queue_entry
match_round-NobodyLost_example =
    match_round-NobodyLost 8 round popped both_joined emptied (λ s. refl) (refl, refl, refl, refl)
      pops_both
