-- ===== src/Queue/Rounds.antt =====
-- A round of src/queue/matching.worker.ts.
use verity_backend.Prelude.{
  ℕ, ◌≡◌, refl, sym, ap, subst, ◌⊎◌, inl, inr, Bool, true, false, Option, none, some, List, [], ◌∷◌,
  Bool-cases, Has, Has-right,
}
use verity_backend.Exec.{Result, ok, err, continue, pure}
use verity_backend.Services.Redis.{user_lock, user_queue, user_matched, get-del_ne}
use verity_backend.Services.Database.{Table}
use verity_backend.Schema.{Session}
use verity_backend.World.{Servers, World}
use verity_backend.Session.Lifecycle.{handle_session_created}
use verity_backend.Queue.Entry.{queue_entry_of}
use verity_backend.Queue.Lock.{holds, release_lock, release_user_locks, lock_users}
use verity_backend.Queue.Pairs.{
  QueuePair, pop_pair, validate_pair, requeue_pair, has_row, create_session, mark_matched,
}
use verity_backend.Queue.Worker.{
  Round, make_match, match_locked, match_valid, match_checked, match_popped, match_round,
}
use verity_backend.Queue.Untouched.{
  sessions-handle_session_created, users-release_user_locks, users-lock_users,
}
use verity_backend.Queue.Refund.{in_zset}
use verity_backend.Queue.Pairing.{
  Marked, Sorted, waits_in, validate_pair-Sorted, Both, Both-put_back, marked-Marked,
}

Has-created :
    (t : Table Session) (mk : ℕ → Session) (st : t.State)
    → Has (t.create mk st).0 (t.rows (t.create mk st).1)
Has-created t mk st =
    rw (t.rows-create, t.create-reply)
      (Has-right (mk (t.next_id st)) (t.rows st) (mk (t.next_id st) ∷ []) (inl refl))

module _ {b : Servers} where
  Marked-release_lock :
      (user session other value : ℕ) (w : World b)
      → Marked user session w
      → Marked user session (release_lock other value w)
  unfolding release_lock queue_entry_of
  Marked-release_lock user session other value w (entry, mark) =
      elim (Bool-cases (holds (b.strings.get w.now (user_lock other) w.strings) value)) [
        | inl e ↦
            rw
              (
                e,
                get-del_ne b.strings w.now (user_lock other) (user_queue user) w.strings refl,
                get-del_ne b.strings w.now (user_lock other) (user_matched user) w.strings refl,
              )
              (entry, mark)
        | inr e ↦ rw e (entry, mark)
      ]

  Marked-release_user_locks :
      (user session : ℕ) (locks : List (ℕ × ℕ)) (w : World b)
      → Marked user session w
      → Marked user session (release_user_locks locks w)
  unfolding release_user_locks
  Marked-release_user_locks user session [] w h = h
  Marked-release_user_locks user session ((other, value) ∷ locks) w h =
      Marked-release_user_locks user session locks (release_lock other value w)
        (Marked-release_lock user session other value w h)

  -- A session of the two users is stored, and both carry its mark.
  abbrev pub Paired : ℕ → QueuePair → World b → Type 0
  Paired key p w =
      (s : Session) × Has s (b.sessions.rows w.sessions)
      × (s.user_a ≡ p.user_a)
      × (s.user_b ≡ p.user_b)
      × (s.queue_key ≡ key)
      × Marked p.user_a s.id w
      × Marked p.user_b s.id w

  -- Neither server fails, and both users have rows.
  abbrev pub Healthy : Round → QueuePair → World b → Type 0
  Healthy round p w =
      (round.database_fails ≡ false)
      × (round.redis_fails ≡ false)
      × (has_row p.user_a w ≡ true)
      × (has_row p.user_b w ≡ true)

  make_match-Paired :
      (key : ℕ) (round : Round) (p : QueuePair) (w : World b)
      → ((s : b.strings.State) → b.strings.commits s ≡ true)
      → Healthy round p w
      → ((make_match key round p w).0 ≡ ok tt) × Paired key p (make_match key round p w).1
  unfolding make_match create_session mark_matched queue_entry_of
  make_match-Paired key round p w commits (database, redis, x, y) =
      let mk : ℕ → Session = λ id. record {
        id = id;
        created_at = w.now;
        user_a = p.user_a;
        user_b = p.user_b;
        queue_key = key;
      } in
      let made = b.sessions.create mk w.sessions in
      let reply = b.sessions.create-reply mk w.sessions in
      let started = handle_session_created made.0 (record w { sessions = made.1 }) in
      let kept = sessions-handle_session_created made.0 (record w { sessions = made.1 }) in
      let (mark_a, mark_b) = marked-Marked p.user_a p.user_b made.0.id started in
      rw (database, redis, x, y, commits)
        (
          refl,
          (
            made.0,
            subst (λ st. Has made.0 (b.sessions.rows st)) (sym kept)
                (Has-created b.sessions mk w.sessions),
            ap (λ s. s.user_a) reply,
            ap (λ s. s.user_b) reply,
            ap (λ s. s.queue_key) reply,
            mark_a,
            mark_b,
          ),
        )

  Paired-release_user_locks :
      (key : ℕ) (p : QueuePair) (held : List (ℕ × ℕ)) (w : World b)
      → Paired key p w
      → Paired key p (release_user_locks held w)
  Paired-release_user_locks key p held w (s, stored, user_a, user_b, queue, mark_a, mark_b) = (
    s,
    subst (λ st. Has s (b.sessions.rows st)) (sym (users-release_user_locks held w).1) stored,
    user_a,
    user_b,
    queue,
    Marked-release_user_locks p.user_a s.id held w mark_a,
    Marked-release_user_locks p.user_b s.id held w mark_b,
  )

  -- Both users are back in the queue, or both carry the mark of their session.
  abbrev pub Placed : ℕ → QueuePair → Result (Unit {0}) × World b → Type 0
  Placed key p (reply, w) = (reply ≡ ok tt) × (Both key p w ⊎ Paired key p w)

  locked-Placed :
      (key : ℕ) (round : Round) (p : QueuePair) (r : Option (List (ℕ × ℕ)) × World b)
      → ((s : b.strings.State) → b.strings.commits s ≡ true)
      → Healthy round p r.1
      → Placed key p (match_locked key round p r)
  unfolding match_locked requeue_pair
  locked-Placed key round p (none, w) commits h =
      (refl, inl (Both-put_back key p.score_a p.score_b p w))
  locked-Placed key round p (some held, w) commits h =
      let (reply, paired) = make_match-Paired key round p w commits h in
      (reply, inr (Paired-release_user_locks key p held (make_match key round p w).1 paired))

  match_valid-Placed :
      (key : ℕ) (round : Round) (p : QueuePair) (w : World b)
      → ((s : b.strings.State) → b.strings.commits s ≡ true)
      → Healthy round p w
      → Placed key p (match_valid key round p w)
  unfolding match_valid
  match_valid-Placed key round p w commits (database, redis, x, y) =
      let wanted = (p.user_a, round.lock_a) ∷ (p.user_b, round.lock_b) ∷ [] in
      let kept = users-lock_users [] wanted w in
      locked-Placed key round p (lock_users [] wanted w) commits
        (database, redis, rw kept x, rw kept y)

  -- The user had an entry for the queue and has a place there now.
  abbrev pub StillIn : ℕ → ℕ → World b → World b → Type 0
  StillIn key user w w' = waits_in key user w ≡ true → in_zset key user w' ≡ true

  abbrev pub NobodyLost : ℕ → QueuePair → World b → Result Bool × World b → Type 0
  NobodyLost key p w (reply, w') =
      (reply ≡ ok true)
      × (Paired key p w' ⊎ (StillIn key p.user_a w w' × StillIn key p.user_b w w'))

  -- `m >> pure true`, where `m` has ended as given.
  abbrev then_true : Result (Unit {0}) × World b → Result Bool × World b
  then_true (r, w) = continue r (λ _. pure true) w

  Placed-NobodyLost :
      (key : ℕ) (p : QueuePair) (w : World b) (r : Result (Unit {0}) × World b)
      → Placed key p r
      → NobodyLost key p w (then_true r)
  Placed-NobodyLost key p w (ok _, w') (reply, inl (x, y)) = (refl, inr ((λ h. x), λ h. y))
  Placed-NobodyLost key p w (ok _, w') (reply, inr paired) = (refl, inl paired)
  Placed-NobodyLost key p w (err e, w') (reply, placed) = cc reply

  checked-NobodyLost :
      (key : ℕ) (round : Round) (p : QueuePair) (w : World b) (r : Bool × World b)
      → ((s : b.strings.State) → b.strings.commits s ≡ true)
      → Healthy round p w
      → Sorted key p w r
      → NobodyLost key p w (match_checked key round p r)
  unfolding match_checked
  checked-NobodyLost key round p w (true, w') commits h (_, same, _, _) =
      let healthy : Healthy round p w' = subst (λ v. Healthy round p v) (sym (same refl)) h in
      Placed-NobodyLost key p w (match_valid key round p w')
        (match_valid-Placed key round p w' commits healthy)
  checked-NobodyLost key round p w (false, w') commits h (_, _, x, y) = (refl, inr (x refl, y refl))

  -- Where Redis aborts no transaction, neither server fails in the round and both users have
  -- rows, a round that pops a pair does not throw, and either stores a session of the two users
  -- for the queue and marks both with it, and then neither has an entry any more, or each of the
  -- two who has an entry for the queue is back in it.
  pub match_round-NobodyLost :
      (key : ℕ) (round : Round) (p : QueuePair) (w popped : World b)
      → ((s : b.strings.State) → b.strings.commits s ≡ true)
      → Healthy round p popped
      → pop_pair key w ≡ (some p, popped)
      → NobodyLost key p popped (match_round key round w)
  unfolding match_round match_popped
  match_round-NobodyLost key round p w popped commits healthy h =
      subst (λ r. NobodyLost key p popped (match_popped key round r)) (sym h)
        (checked-NobodyLost key round p popped (validate_pair key p popped) commits healthy
          (validate_pair-Sorted key p popped))
