-- ===== src/Queue/Untouched.antt =====
-- What locks and the start of a session leave alone: lemmas on src/queue/queue.service.ts and
-- src/session/session.service.ts.
use verity_backend.Prelude.{
  ℕ, ◌≡◌, refl, ◌∙◌, inl, inr, List, [], ◌∷◌, ◌++◌, Bool-cases, Option-cases, arith,
}
use verity_backend.Services.Redis.{plain, session_lock, user_lock}
use verity_backend.Schema.{Session, EndReason, token_error}
use verity_backend.World.{Servers, World}
use verity_backend.Video.{build_session_tokens}
use verity_backend.Session.Lifecycle.{
  ensure_choice_deadline, schedule_choice_timeout, finish_session, end_session,
  persist_session_state, schedule_session_end, start_session, handle_session_created,
  session_lock_ttl_ms,
}
use verity_backend.Queue.Lock.{holds, acquire_lock, release_lock, release_user_locks, lock_users}

module _ {b : Servers} where
  sessions-end_session :
      (s : Session) (reason : EndReason) (w : World b)
      → (end_session s reason w).sessions ≡ w.sessions
  unfolding end_session finish_session ensure_choice_deadline schedule_choice_timeout
  sessions-end_session s reason w = ground arith

  sessions-start_session : (s : Session) (w : World b) → (start_session s w).sessions ≡ w.sessions
  unfolding start_session persist_session_state schedule_session_end
  sessions-start_session s w = elim (Option-cases (build_session_tokens w.agora w.now)) [
    | inl e ↦ rw (start_session, e) (sessions-end_session s token_error w)
    | inr (expires, e) ↦ rw (start_session, e) refl
  ]

  pub sessions-handle_session_created :
      (s : Session) (w : World b) → (handle_session_created s w).sessions ≡ w.sessions
  unfolding handle_session_created
  sessions-handle_session_created s w =
      let lock =
        b.strings.set_nx w.now session_lock_ttl_ms (session_lock s.id) (plain 2) w.strings in
      elim (Bool-cases lock.0) [ inl e ↦ rw e (sessions-start_session s _) | inr e ↦ rw e refl ]

  users-release_lock :
      (user value : ℕ) (w : World b)
      → ((release_lock user value w).users ≡ w.users)
        × ((release_lock user value w).sessions ≡ w.sessions)
  unfolding release_lock
  users-release_lock user value w =
      elim (Bool-cases (holds (b.strings.get w.now (user_lock user) w.strings) value)) [
        | inl e ↦ rw e (refl, refl)
        | inr e ↦ rw e (refl, refl)
      ]

  pub users-release_user_locks :
      (locks : List (ℕ × ℕ)) (w : World b)
      → ((release_user_locks locks w).users ≡ w.users)
        × ((release_user_locks locks w).sessions ≡ w.sessions)
  unfolding release_user_locks
  users-release_user_locks [] w = (refl, refl)
  users-release_user_locks ((user, value) ∷ locks) w =
      let (users, sessions) = users-release_user_locks locks (release_lock user value w) in
      let (same, stored) = users-release_lock user value w in (users ∙ same, sessions ∙ stored)

  pub users-lock_users :
      (held wanted : List (ℕ × ℕ)) (w : World b) → (lock_users held wanted w).1.users ≡ w.users
  unfolding lock_users acquire_lock
  users-lock_users held [] w = refl
  users-lock_users held ((user, value) ∷ wanted) w =
      elim (Bool-cases (acquire_lock user value w).0) [
        | inl e ↦
            rw e
              (users-lock_users (held ++ (user, value) ∷ []) wanted (acquire_lock user value w).1)
        | inr e ↦ rw e (users-release_user_locks held (acquire_lock user value w).1).0
      ]
