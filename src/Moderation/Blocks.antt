-- ===== src/Moderation/Blocks.antt =====
-- The blocks between users: `createBlock`, `listBlocks`, `unblock`, `isBlocked` and
-- `removeFromQueueIfPresent` of src/moderation/moderation.service.ts.
use verity_backend.Prelude.{
  ℕ, Bool, not, ◌&&◌, Option, none, some, List, map, ◌==◌, if◌then◌else◌, is_some, take,
}
use verity_backend.Exec.{ok, err, Exec, self_block}
use verity_backend.Services.Redis.{Raw, queue_entry, str, user_queue, truthy}
use verity_backend.Services.Database.{order_by_desc}
use verity_backend.Schema.{Block}
use verity_backend.World.{Servers, World}
use verity_backend.Queue.Pairs.{is_pair_blocked}
use verity_backend.Chat.{safe_limit}

pub data BlockStatus : Type 0 where
  blocked already_blocked : BlockStatus

pub data UnblockStatus : Type 0 where
  unblocked not_blocked : UnblockStatus

pub record BlockReply : Type 0 where
  pub status : BlockStatus
  pub block : Block

-- The queue that a stored entry names. A key that is not a text names no queue of the backend.
unfoldable pub queue_named : Option Raw → Option ℕ
queue_named (some (queue_entry (str key) _)) = if key == 0 then none else some key
queue_named _ = none

abbrev pub of_pair : ℕ → ℕ → Block → Bool
of_pair blocker target x = x.blocker == blocker && x.blocked == target

abbrev pub lift : Option ℕ → Block → Block
lift at x = record x { lifted_at = at }

module _ {b : Servers} where
  abbrev pub leave_zset : Option ℕ → ℕ → World b → World b
  leave_zset none user w = w
  leave_zset (some key) user w = record w { zsets = (b.zsets.zrem key user w.zsets).1 }

  unfoldable pub remove_from_queue_if_present : ℕ → World b → World b
  remove_from_queue_if_present user w =
      let raw = b.strings.get w.now (user_queue user) w.strings in
      let w' = leave_zset (queue_named raw) user w in
      if truthy raw then record w' { strings = b.strings.del (user_queue user) w.strings } else w

  -- the row is unique for its two users
  abbrev pub block_of : ℕ → ℕ → World b → Option Block
  block_of blocker target w = b.blocks.find_first (of_pair blocker target) w.blocks

  abbrev pub add_block : ℕ → ℕ → World b → Block × World b
  add_block blocker target w =
      let (x, blocks) =
        b.blocks.create
          (λ id. record {
            id = id;
            created_at = w.now;
            blocker = blocker;
            blocked = target;
            lifted_at = none;
          })
          w.blocks in
      (x, record w { blocks = blocks })

  abbrev pub set_lifted : Option ℕ → Block → World b → World b
  set_lifted at x w = record w {
    blocks = (b.blocks.update_many (λ y. y.id == x.id) (lift at) w.blocks).1;
  }

  unfoldable pub block_as : ℕ → ℕ → Option Block → World b → BlockReply × World b
  block_as blocker target none w =
      let (x, w') = add_block blocker target w in
      (record { status = blocked; block = x }, remove_from_queue_if_present target w')
  block_as blocker target (some x) w =
      if is_some x.lifted_at
      then (
        record { status = blocked; block = lift none x },
        remove_from_queue_if_present target (set_lifted none x w),
      )
      else (record { status = already_blocked; block = x }, w)

  unfoldable pub create_block : ℕ → ℕ → Exec (World b) BlockReply
  create_block blocker target w =
      if blocker == target
      then (err self_block, w)
      else let (reply, w') = block_as blocker target (block_of blocker target w) w in (ok reply, w')

  -- `listBlocks`: the time and the blocked user of each active block
  unfoldable pub list_blocks : ℕ → Option ℕ → World b → List (ℕ × ℕ × ℕ)
  list_blocks user limit w =
      map (λ x. (x.id, x.created_at, x.blocked))
        (take (safe_limit 100 200 limit) (
          order_by_desc (λ (x : Block). x.created_at)
            (b.blocks.find_many (λ x. x.blocker == user && not (is_some x.lifted_at)) w.blocks)))

  unfoldable pub unblock_as : Option Block → World b → UnblockStatus × World b
  unblock_as none w = (not_blocked, w)
  unblock_as (some x) w =
      if is_some x.lifted_at then (not_blocked, w) else (unblocked, set_lifted (some w.now) x w)

  unfoldable pub unblock : ℕ → ℕ → World b → UnblockStatus × World b
  unblock blocker target w = unblock_as (block_of blocker target w) w

  unfoldable pub is_blocked : ℕ → ℕ → World b → Bool
  is_blocked x y w = is_pair_blocked x y w
