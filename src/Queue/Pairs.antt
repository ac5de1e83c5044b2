-- ===== src/Queue/Pairs.antt =====
-- Pairing the waiting users of a queue: `popPair`, `validatePair`, `deferBlockedPair`,
-- `requeuePair`, `createSession` and `markMatched` of src/queue/queue.service.ts.
use verity_backend.Prelude.{
  ℕ, ◌+◌, Bool, true, false, not, ◌&&◌, ◌||◌, Option, none, some, List, [], ◌∷◌, ◌==◌,
  if◌then◌else◌, is_some,
}
use verity_backend.Exec.{ok, err, Exec, session_refused, redis_failed}
use verity_backend.Services.Redis.{Entry, plain, user_queue, user_matched}
use verity_backend.Schema.{Block, Session}
use verity_backend.World.{Servers, World}
use verity_backend.Session.Lifecycle.{handle_session_created}
use verity_backend.Queue.Entry.{QueueEntry, queue_entry_of}

abbrev pub matched_ttl_ms : ℕ
matched_ttl_ms = 3_600_000

pub record QueuePair : Type 0 where
  pub user_a : ℕ
  pub user_b : ℕ
  pub score_a : ℕ
  pub score_b : ℕ

abbrev pub in_queue : ℕ → Option QueueEntry → Bool
in_queue key none = false
in_queue key (some e) = e.queue_key == key

-- An active block between the two users, by either of them.
abbrev pub blocks_pair : ℕ → ℕ → Block → Bool
blocks_pair x y block =
    not (is_some block.lifted_at)
    && ((block.blocker == x && block.blocked == y) || (block.blocker == y && block.blocked == x))

module _ {b : Servers} where
  abbrev pub put_back : ℕ → ℕ → ℕ → World b → World b
  put_back key score user w = record w { zsets = b.zsets.zadd key score user w.zsets }

  -- Of fewer than two popped users none is lost.
  unfoldable pub pair_of : ℕ → List Entry → World b → Option QueuePair × World b
  pair_of key [] w = (none, w)
  pair_of key (e ∷ []) w = (none, put_back key e.score e.member w)
  pair_of key (e ∷ f ∷ _) w = (
    some (record { user_a = e.member; user_b = f.member; score_a = e.score; score_b = f.score }),
    w,
  )

  unfoldable pub pop_pair : ℕ → World b → Option QueuePair × World b
  pop_pair key w =
      let (popped, zsets) = b.zsets.zpopmin key 2 w.zsets in
      pair_of key popped (record w { zsets = zsets })

  unfoldable pub is_pair_blocked : ℕ → ℕ → World b → Bool
  is_pair_blocked x y w = is_some (b.blocks.find_first (blocks_pair x y) w.blocks)

  unfoldable pub requeue_pair : ℕ → QueuePair → World b → World b
  requeue_pair key p w = put_back key p.score_b p.user_b (put_back key p.score_a p.user_a w)

  -- behind whoever joins in the next five seconds
  unfoldable pub defer_blocked_pair : ℕ → QueuePair → World b → World b
  defer_blocked_pair key p w =
      put_back key (w.now + 5000 + 1) p.user_b (put_back key (w.now + 5000) p.user_a w)

  unfoldable pub validate_pair : ℕ → QueuePair → World b → Bool × World b
  validate_pair key p w =
      let a_in = in_queue key (queue_entry_of p.user_a w) in
      let b_in = in_queue key (queue_entry_of p.user_b w) in
      if not a_in && not b_in
      then (false, w)
      else if not a_in
      then (false, put_back key p.score_b p.user_b w)
      else if not b_in
      then (false, put_back key p.score_a p.user_a w)
      else if is_pair_blocked p.user_a p.user_b w
      then (false, defer_blocked_pair key p w)
      else (true, w)

  -- A row of the user, which the row of a session refers to.
  abbrev pub has_row : ℕ → World b → Bool
  has_row user w = is_some (b.users.find_first (λ u. u.id == user) w.users)

  -- `fails` says whether the database fails; it refuses the session of a user who is gone. The
  -- session is started at once.
  unfoldable pub create_session : Bool → ℕ → ℕ → ℕ → Exec (World b) Session
  create_session fails x y key w =
      let (s, sessions) =
        b.sessions.create
          (λ id. record { id = id; created_at = w.now; user_a = x; user_b = y; queue_key = key })
          w.sessions in
      if fails || not (has_row x w && has_row y w)
      then (err session_refused, w)
      else (ok s, handle_session_created s (record w { sessions = sessions }))

  abbrev pub marked : ℕ → ℕ → ℕ → World b → World b
  marked x y session w = record w {
    strings = b.strings.set_px w.now matched_ttl_ms (user_matched y) (plain session) (
        b.strings.set_px w.now matched_ttl_ms (user_matched x) (plain session)
          (b.strings.del (user_queue y) (b.strings.del (user_queue x) w.strings)));
  }

  -- `fails` says whether Redis fails, and nothing is written; a transaction that is aborted writes
  -- nothing either, and is not noticed.
  unfoldable pub mark_matched : Bool → ℕ → ℕ → ℕ → Exec (World b) (Unit {0})
  mark_matched fails x y session w =
      if fails
      then (err redis_failed, w)
      else if b.strings.commits w.strings
      then (ok tt, marked x y session w)
      else (ok tt, w)
