-- ===== src/Queue/Join.antt =====
-- `joinQueue` of src/queue/queue.service.ts.
use verity_backend.Prelude.{
  ℕ, ◌+◌, ◌-◌, ◌&&◌, Option, none, some, List, [], ◌∷◌, leb, ◌==◌, if◌then◌else◌,
}
use verity_backend.Exec.{
  ok, err, Exec, finally, ◌>>◌, suspended, in_progress, insufficient_balance, transaction_failed,
}
use verity_backend.Services.Redis.{user_queue, user_ban, truthy}
use verity_backend.Schema.{User, Event, track}
use verity_backend.World.{Servers, World, send}
use verity_backend.Queue.City.{Input, resolve_queue_city, build_queue_key}
use verity_backend.Queue.Entry.{QueueEntry, encode_entry, queue_entry_of}
use verity_backend.Queue.Lock.{acquire_lock, release_lock}

pub data JoinStatus : Type 0 where
  queued already_queued : JoinStatus

pub record JoinReply : Type 0 where
  pub status : JoinStatus
  pub queue_key : ℕ
  pub position : Option ℕ

abbrev pub spend_token : User → User
spend_token u = record u { token_balance = u.token_balance - 1 }

abbrev pub refund_token : User → User
refund_token u = record u { token_balance = u.token_balance + 1 }

module _ {b : Servers} where
  abbrev pub position_of : ℕ → ℕ → World b → Option ℕ
  position_of key user w = b.zsets.zrank key user w.zsets

  abbrev pub already : ℕ → QueueEntry → World b → JoinReply
  already user e w = record {
    status = already_queued;
    queue_key = e.queue_key;
    position = position_of e.queue_key user w;
  }

  -- `updateMany` on the user's row, if it has a token: the number of rows is 0 or 1
  unfoldable pub take_token : ℕ → Exec (World b) (Unit {0})
  take_token user w =
      let (count, users) =
        b.users.update_many (λ u. u.id == user && leb 1 u.token_balance) spend_token w.users in
      let w' = record w { users = users } in
      if count == 1 then (ok tt, w') else (err insufficient_balance, w')

  unfoldable pub give_back_token : ℕ → World b → World b
  give_back_token user w = record w {
    users = (b.users.update_many (λ u. u.id == user) refund_token w.users).1;
  }

  -- MULTI: the sorted set, the user's entry and the set of keys, all or nothing
  unfoldable pub write_entry : ℕ → ℕ → World b → World b
  write_entry user key w = record w {
    zsets = b.zsets.zadd key w.now user w.zsets;
    strings = b.strings.set (user_queue user) (encode_entry key w.now) w.strings;
    queue_keys = b.queue_keys.sadd key w.queue_keys;
  }

  unfoldable pub enqueue : ℕ → ℕ → Exec (World b) (Unit {0})
  enqueue user key w =
      if b.strings.commits w.strings
      then (ok tt, write_entry user key w)
      else (err transaction_failed, give_back_token user w)

  unfoldable pub report_joined : ℕ → ℕ → Exec (World b) JoinReply
  report_joined user key w =
      let position = position_of key user w in
      (
        ok (record { status = queued; queue_key = key; position = position }),
        send
            (track user (Event.queue_joined user key position)
              ∷ track user (Event.token_spent key)
              ∷ [])
            w,
      )

  unfoldable pub join_new : ℕ → ℕ → Exec (World b) JoinReply
  join_new user key = do take_token user; enqueue user key; report_joined user key

  unfoldable pub join_as : ℕ → ℕ → Option QueueEntry → Exec (World b) JoinReply
  join_as user key (some e) w = (ok (already user e w), w)
  join_as user key none w = join_new user key w

  unfoldable pub join_locked : ℕ → ℕ → Exec (World b) JoinReply
  join_locked user key w = join_as user key (queue_entry_of user w) w

  unfoldable pub join_without_lock : ℕ → Exec (World b) JoinReply
  join_without_lock user w = elim (queue_entry_of user w) [
    | some e ↦ (ok (already user e w), w)
    | none ↦ (err in_progress, w)
  ]

  unfoldable pub join_at : ℕ → ℕ → ℕ → Exec (World b) JoinReply
  join_at user key value w =
      let (acquired, w') = acquire_lock user value w in
      if acquired
      then finally (join_locked user key) (release_lock user value) w'
      else join_without_lock user w'

  -- `key_of` is the queue key `<city>:<hash of the preferences>` of a city; `value` the UUID of
  -- the lock.
  unfoldable pub join_queue : (List ℕ → ℕ) → ℕ → Input → Input → ℕ → Exec (World b) JoinReply
  join_queue key_of user city region value w =
      if truthy (b.strings.get w.now (user_ban user) w.strings)
      then (err suspended, w)
      else (elim (resolve_queue_city city region) [
        | err e ↦ (err e, w)
        | ok c ↦ elim (build_queue_key key_of c) [
          | err e ↦ (err e, w)
          | ok key ↦ join_at user key value w
        ]
      ])
