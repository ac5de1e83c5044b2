-- ===== src/Queue/Leave.antt =====
-- `leaveQueue`, `cleanupQueueKey` and the reads of a queue in src/queue/queue.service.ts.
use verity_backend.Prelude.{
  ℕ, ◌+◌, Bool, true, false, not, ◌&&◌, Option, none, some, List, [], ◌∷◌, map, ◌==◌, if◌then◌else◌,
}
use verity_backend.Exec.{ok, err, Exec, in_progress}
use verity_backend.Services.Redis.{Entry, user_queue, user_matched, truthy}
use verity_backend.Schema.{
  LeaveStatus, left, not_queued, already_matched, LeaveReason, manual, matched, system, refunded,
  matched_concurrently, not_refunded, Event, Output, track,
}
use verity_backend.World.{Servers, World, send}
use verity_backend.Queue.Entry.{QueueEntry, queue_entry_of}
use verity_backend.Queue.Lock.{acquire_lock, release_lock}
use verity_backend.Queue.Join.{give_back_token}

pub record LeaveReply : Type 0 where
  pub status : LeaveStatus
  pub refunded : Bool
  pub queue_key : Option ℕ

unfoldable pub map_queue_left_reason : LeaveReply → LeaveReason
map_queue_left_reason r = elim r.status [
  | already_matched ↦ matched
  | not_queued ↦ system
  | left ↦ if r.refunded then manual else system
]

abbrev pub left_message : ℕ → LeaveReply → Output
left_message user r =
    track user (Event.queue_left r.queue_key (map_queue_left_reason r) r.status r.refunded)

abbrev pub was_not_queued : LeaveReply
was_not_queued = record { status = not_queued; refunded = false; queue_key = none }

abbrev pub has_left : ℕ → LeaveReply
has_left key = record { status = left; refunded = true; queue_key = some key }

abbrev pub without_refund : ℕ → Bool → LeaveReply
without_refund key was_matched = record {
  status = if was_matched then already_matched else left;
  refunded = false;
  queue_key = some key;
}

module _ {b : Servers} where
  unfoldable pub get_queued_user_ids : ℕ → World b → List ℕ
  get_queued_user_ids key w =
      if key == 0 then [] else map (λ (e : Entry). e.member) (b.zsets.zrange key w.zsets)

  unfoldable pub get_queue_size : ℕ → World b → ℕ
  get_queue_size key w = if key == 0 then 0 else b.zsets.zcard key w.zsets

  unfoldable pub sum_sizes : List ℕ → World b → ℕ
  sum_sizes [] w = 0
  sum_sizes (key ∷ keys) w = b.zsets.zcard key w.zsets + sum_sizes keys w

  -- `getGlobalSearchStats`: the users searching; the active matches are always 0
  unfoldable pub get_global_search_stats : World b → ℕ × ℕ
  get_global_search_stats w = (sum_sizes (b.queue_keys.smembers w.queue_keys) w, 0)

  unfoldable pub cleanup_queue_key : ℕ → World b → World b
  cleanup_queue_key key w =
      if b.zsets.zcard key w.zsets == 0
      then record w { queue_keys = b.queue_keys.srem key w.queue_keys }
      else w

  -- The entry is taken out of the sorted set, and its key is deleted.
  unfoldable pub remove_entry : ℕ → ℕ → World b → Bool × World b
  remove_entry user key w =
      let (removed, zsets) = b.zsets.zrem key user w.zsets in
      (
        removed,
        cleanup_queue_key key
            (record w { zsets = zsets; strings = b.strings.del (user_queue user) w.strings }),
      )

  unfoldable pub leave_entry : ℕ → QueueEntry → World b → LeaveReply × World b
  leave_entry user e w =
      let was_matched = truthy (b.strings.get w.now (user_matched user) w.strings) in
      let (removed, w') = remove_entry user e.queue_key w in
      if removed && not was_matched
      then (
        has_left e.queue_key,
        send
            (track user (Event.queue_cancel refunded)
              ∷ left_message user (has_left e.queue_key)
              ∷ [])
            (give_back_token user w'),
      )
      else (
        without_refund e.queue_key was_matched,
        send
            (track user
                (Event.queue_cancel (if was_matched then matched_concurrently else not_refunded))
              ∷ left_message user (without_refund e.queue_key was_matched)
              ∷ [])
            w',
      )

  -- without an entry, or with one that cannot be read
  unfoldable pub leave_unqueued : ℕ → World b → LeaveReply × World b
  leave_unqueued user w =
      let told = send (left_message user was_not_queued ∷ []) w in
      if truthy (b.strings.get w.now (user_queue user) w.strings)
      then (was_not_queued, record told { strings = b.strings.del (user_queue user) w.strings })
      else (was_not_queued, told)

  unfoldable pub leave_as : ℕ → Option QueueEntry → World b → LeaveReply × World b
  leave_as user none w = leave_unqueued user w
  leave_as user (some e) w = leave_entry user e w

  unfoldable pub leave_locked : ℕ → World b → LeaveReply × World b
  leave_locked user w = leave_as user (queue_entry_of user w) w

  -- `withUserLock`
  unfoldable pub leave_queue : ℕ → ℕ → Exec (World b) LeaveReply
  leave_queue user value w =
      let (acquired, w') = acquire_lock user value w in
      let (reply, w'') = leave_locked user w' in
      if acquired then (ok reply, release_lock user value w'') else (err in_progress, w')
