-- ===== src/Queue/Entry.antt =====
-- The queue entry of a user as Redis holds it: `QueueEntryState` and `parseQueueEntryState` of
-- src/queue/queue.service.ts.
use verity_backend.Prelude.{ℕ, Option, none, some, ◌==◌, if◌then◌else◌}
use verity_backend.Services.Redis.{Raw, queue_entry, num, str, user_queue}
use verity_backend.World.{Servers, World}

pub record QueueEntry : Type 0 where
  pub queue_key : ℕ
  pub joined_at : ℕ

-- The queue key must be a text that is not empty, and the time a finite number.
unfoldable pub parse_queue_entry : Option Raw → Option QueueEntry
parse_queue_entry (some (queue_entry (str key) (num joined_at))) =
    if key == 0 then none else some (record { queue_key = key; joined_at = joined_at })
parse_queue_entry _ = none

-- `JSON.stringify({ queueKey, joinedAt })`
abbrev pub encode_entry : ℕ → ℕ → Raw
encode_entry key joined_at = queue_entry (str key) (num joined_at)

module _ {b : Servers} where
  unfoldable pub queue_entry_of : ℕ → World b → Option QueueEntry
  unfolding parse_queue_entry
  queue_entry_of user w = parse_queue_entry (b.strings.get w.now (user_queue user) w.strings)
