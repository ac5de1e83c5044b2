-- ===== src/Queue/Worker.antt =====
-- The matching worker: `processQueueKey` and `tick` of src/queue/matching.worker.ts. What a
-- round is given stands in Round.
use verity_backend.Prelude.{
  ℕ, ◌+◌, ◌-◌, Bool, true, false, ◌||◌, Option, none, some, List, [], ◌∷◌, ltb, ◌==◌, if◌then◌else◌,
  codes, trim, same_text, map,
}
use verity_backend.Exec.{Result, ok, err, Exec, pure, ◌>>=◌, ◌>>◌, modify, finally}
use verity_backend.Schema.{
  Session, Event, Output, track, emit, notify, anon, match_found, queue_status, push_match_found,
}
use verity_backend.World.{Servers, World, send}
use verity_backend.Matches.Reveal.{lower}
use verity_backend.Session.Lifecycle.{round_seconds}
use verity_backend.Queue.Lock.{lock_users, release_user_locks}
use verity_backend.Queue.Leave.{get_queued_user_ids, get_queue_size, cleanup_queue_key}
use verity_backend.Queue.Pairs.{
  QueuePair, pop_pair, validate_pair, requeue_pair, create_session, mark_matched,
}

abbrev pub max_matches_per_key : ℕ
max_matches_per_key = 10

abbrev pub cleanup_interval_ms : ℕ
cleanup_interval_ms = 600_000

abbrev pub session_retention_ms : ℕ
session_retention_ms = 86_400_000

-- `isWorkerEnabled`: on unless the variable is set to something else
unfoldable pub is_worker_enabled : Option (List ℕ) → Bool
unfolding lower
is_worker_enabled none = true
is_worker_enabled (some raw) =
    let value = map lower (trim raw) in
    same_text value (codes "1")
    || same_text value (codes "true")
    || same_text value (codes "yes")
    || same_text value (codes "on")

-- Whole seconds since the user joined, and 0 for a time in the future.
unfoldable pub compute_wait_seconds : ℕ → ℕ → ℕ
compute_wait_seconds now joined_at = round_seconds (now - joined_at)

-- The events of both users, the sockets of both and one push.
abbrev pub match_messages : QueuePair → Session → ℕ → List Output
match_messages p s now =
    track p.user_a
      (Event.queue_match_found s.id s.queue_key p.user_b (compute_wait_seconds now p.score_a))
    ∷ track p.user_b
        (Event.queue_match_found s.id s.queue_key p.user_a (compute_wait_seconds now p.score_b))
    ∷ emit p.user_a (match_found s.id (anon s.id p.user_b) s.queue_key)
    ∷ emit p.user_b (match_found s.id (anon s.id p.user_a) s.queue_key)
    ∷ notify (p.user_a ∷ p.user_b ∷ []) (push_match_found s.id s.queue_key)
    ∷ []

abbrev pub status_messages : ℕ → List ℕ → List Output
status_messages size users = map (λ user. emit user (queue_status size)) users

-- What a round is given: the UUIDs of its two locks, and whether the database fails at
-- `createSession` and Redis at `markMatched`.
pub record Round : Type 0 where
  pub lock_a : ℕ
  pub lock_b : ℕ
  pub database_fails : Bool
  pub redis_fails : Bool

module _ {b : Servers} where
  unfoldable pub make_match : ℕ → Round → QueuePair → Exec (World b) (Unit {0})
  make_match key round p = do
    s ← create_session round.database_fails p.user_a p.user_b key
    mark_matched round.redis_fails p.user_a p.user_b s.id
    modify (λ w. send (match_messages p s w.now) w)

  -- A pair is matched, and unlocked also where that throws; without the locks it is put back.
  unfoldable pub match_locked :
      ℕ → Round → QueuePair → Option (List (ℕ × ℕ)) × World b → Result (Unit {0}) × World b
  match_locked key round p (none, w) = (ok tt, requeue_pair key p w)
  match_locked key round p (some held, w) =
      finally (make_match key round p) (release_user_locks held) w

  unfoldable pub match_valid : ℕ → Round → QueuePair → Exec (World b) (Unit {0})
  match_valid key round p w =
      match_locked key round p
        (lock_users [] ((p.user_a, round.lock_a) ∷ (p.user_b, round.lock_b) ∷ []) w)

  unfoldable pub match_checked : ℕ → Round → QueuePair → Bool × World b → Result Bool × World b
  match_checked key round p (true, w) = (match_valid key round p >> pure true) w
  match_checked key round p (false, w) = (ok true, w)

  unfoldable pub match_popped : ℕ → Round → Option QueuePair × World b → Result Bool × World b
  match_popped key round (none, w) = (ok false, w)
  match_popped key round (some p, w) = match_checked key round p (validate_pair key p w)

  -- One round, and whether there was a pair.
  unfoldable pub match_round : ℕ → Round → Exec (World b) Bool
  match_round key round w = match_popped key round (pop_pair key w)

  abbrev pub if_going : Bool → Exec (World b) (Unit {0}) → Exec (World b) (Unit {0})
  if_going true m = m
  if_going false m = pure tt

  -- The rounds, `max_matches_per_key` of them, until no pair is left or one throws.
  unfoldable pub match_rounds : ℕ → List Round → Exec (World b) (Unit {0})
  match_rounds key [] = pure tt
  match_rounds key (round ∷ rest) =
      let more = match_rounds key rest in match_round key round >>= λ going. if_going going more

  -- `emitQueueStatus` of src/queue/queue.gateway.ts
  unfoldable pub emit_queue_status : ℕ → World b → World b
  emit_queue_status key w =
      send (status_messages (get_queue_size key w) (get_queued_user_ids key w)) w

  -- What follows the rounds of a queue, which had `before` places.
  unfoldable pub finish_key : ℕ → ℕ → World b → World b
  finish_key key before w =
      let w' = cleanup_queue_key key w in
      if get_queue_size key w' == before then w' else emit_queue_status key w'

  unfoldable pub process_queue_key : ℕ → List Round → Exec (World b) (Unit {0})
  process_queue_key key rounds w =
      (match_rounds key rounds >> modify (finish_key key (get_queue_size key w))) w

  unfoldable pub process_keys : List (ℕ × List Round) → Exec (World b) (Unit {0})
  process_keys [] = pure tt
  process_keys ((key, rounds) ∷ keys) = process_queue_key key rounds >> process_keys keys

  -- `cleanupExpiredSessions`: sessions of more than a day ago
  unfoldable pub cleanup_expired_sessions : World b → World b
  cleanup_expired_sessions w = record w {
    sessions =
        (b.sessions.delete_many (λ s. ltb (s.created_at + session_retention_ms) w.now)
          w.sessions).1;
  }

  -- What throws is logged, and no sessions are cleaned up then.
  unfoldable pub after_keys : ℕ → Result (Unit {0}) × World b → ℕ × World b
  after_keys last_cleanup (err e, w) = (last_cleanup, w)
  after_keys last_cleanup (ok _, w) =
      if ltb cleanup_interval_ms (w.now - last_cleanup)
      then (w.now, cleanup_expired_sessions w)
      else (last_cleanup, w)

  -- The keys of the tick with their rounds, whether another tick is running, and the time of the
  -- last cleanup.
  unfoldable pub tick : List (ℕ × List Round) → Bool → ℕ → World b → ℕ × World b
  tick keys running last_cleanup w =
      let done = after_keys last_cleanup (process_keys keys w) in
      if running then (last_cleanup, w) else done
