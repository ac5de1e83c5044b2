-- ===== src/Queue/Lock.antt =====
-- The lock of a user: `acquireLock`, `releaseLock`, `lockUsers` and `releaseUserLocks` of
-- src/queue/queue.service.ts. The value of a lock is a UUID that the caller is given.
use verity_backend.Prelude.{
  ℕ, Bool, false, Option, none, some, List, [], ◌∷◌, ◌++◌, ◌==◌, if◌then◌else◌,
}
use verity_backend.Services.Redis.{Raw, plain, user_lock}
use verity_backend.World.{Servers, World}

abbrev pub lock_ttl_ms : ℕ
lock_ttl_ms = 3000

abbrev pub holds : Option Raw → ℕ → Bool
holds (some (plain v)) value = v == value
holds _ value = false

module _ {b : Servers} where
  unfoldable pub acquire_lock : ℕ → ℕ → World b → Bool × World b
  acquire_lock user value w =
      let (acquired, stored) =
        b.strings.set_nx w.now lock_ttl_ms (user_lock user) (plain value) w.strings in
      (acquired, record w { strings = stored })

  -- the script compares the value and deletes the key in one step
  unfoldable pub release_lock : ℕ → ℕ → World b → World b
  release_lock user value w =
      if holds (b.strings.get w.now (user_lock user) w.strings) value
      then record w { strings = b.strings.del (user_lock user) w.strings }
      else w

  -- Locks are pairs of a user and a value.
  unfoldable pub release_user_locks : List (ℕ × ℕ) → World b → World b
  release_user_locks [] w = w
  release_user_locks ((user, value) ∷ locks) w =
      release_user_locks locks (release_lock user value w)

  -- All the locks, or none: those that were taken are released when one fails.
  unfoldable pub lock_users :
      List (ℕ × ℕ) → List (ℕ × ℕ) → World b → Option (List (ℕ × ℕ)) × World b
  lock_users held [] w = (some held, w)
  lock_users held ((user, value) ∷ wanted) w =
      let (acquired, w') = acquire_lock user value w in
      let rest = lock_users (held ++ (user, value) ∷ []) wanted w' in
      if acquired then rest else (none, release_user_locks held w')
