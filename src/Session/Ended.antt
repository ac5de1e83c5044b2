-- ===== src/Session/Ended.antt =====
-- The end of a session: `endSession` of src/session/session.service.ts.
use verity_backend.Prelude.{
  ℕ, ◌+◌, ◌≡◌, refl, ◌∙◌, inl, inr, true, none, some, arith, Option, Option-cases, List, [], ◌∷◌,
  is_some,
}
use verity_backend.Services.Redis.{
  Raw, plain, session_ended, choice_deadline, session_active, get-set_px_now, set_nx_fresh,
  set_nx_taken, get-set_nx_ne, get-del_ne, to_iso,
}
use verity_backend.Schema.{Session, EndReason}
use verity_backend.World.{Servers, World, Timer, timer_of, clear_timer, send}
use verity_backend.Session.Lifecycle.{
  ensure_choice_deadline, schedule_choice_timeout, finish_session, end_session, timer_for,
  session_state_ttl_ms, choice_state_ttl_ms, choice_window_ms, end_messages,
}

pub timer_of-clear_timer : (id : ℕ) (ts : List Timer) → timer_of id (clear_timer id ts) ≡ none
timer_of-clear_timer id [] = refl
timer_of-clear_timer id (t ∷ ts) = ground (arith, timer_of-clear_timer id ts)

module _ {b : Servers} where
  abbrev pub ended_mark : ℕ → World b → Option Raw
  ended_mark id w = b.strings.get w.now (session_ended id) w.strings

  pub now-ensure_choice_deadline :
      (id : ℕ) (w : World b) → (ensure_choice_deadline id w).1.now ≡ w.now
  unfolding ensure_choice_deadline
  now-ensure_choice_deadline id w = ground arith

  -- Taking the deadline leaves the mark of the end.
  pub ended-ensure_choice_deadline :
      (id j : ℕ) (w : World b) → ended_mark j (ensure_choice_deadline id w).1 ≡ ended_mark j w
  unfolding ensure_choice_deadline
  ended-ensure_choice_deadline id j w = ground (
    arith,
    get-set_nx_ne b.strings w.now choice_state_ttl_ms w.now (choice_deadline id) (session_ended j)
        (plain (to_iso (w.now + choice_window_ms))) w.strings,
  )

  pub now-finish_session :
      (s : Session) (reason : EndReason) (w : World b) → (finish_session s reason w).now ≡ w.now
  unfolding finish_session schedule_choice_timeout
  now-finish_session s reason w = now-ensure_choice_deadline s.id _

  ended-finish_session :
      (s : Session) (reason : EndReason) (w : World b)
      → ended_mark s.id (finish_session s reason w) ≡ ended_mark s.id w
  unfolding finish_session schedule_choice_timeout
  ended-finish_session s reason w =
      ended-ensure_choice_deadline s.id s.id _
      ∙ get-del_ne b.strings w.now (session_active s.user_b) (session_ended s.id) _ refl
      ∙ get-del_ne b.strings w.now (session_active s.user_a) (session_ended s.id) _ refl

  abbrev claimed : Session → World b → World b
  claimed s w = record w {
    strings =
        (b.strings.set_nx w.now session_state_ttl_ms (session_ended s.id) (plain 2) w.strings).1;
  }

  -- `endSession` on a session with a mark, and on one without
  pub end_session_again :
      (s : Session) (reason : EndReason) (w : World b) {old : Raw}
      → ended_mark s.id w ≡ some old
      → end_session s reason w ≡ w
  unfolding end_session
  end_session_again s reason w h =
      rw (set_nx_taken b.strings w.now session_state_ttl_ms (session_ended s.id) (plain 2) _ h)

  pub end_session_first :
      (s : Session) (reason : EndReason) (w : World b)
      → ended_mark s.id w ≡ none
      → (end_session s reason w ≡ finish_session s reason (claimed s w))
        × (ended_mark s.id (claimed s w) ≡ some (plain 2))
  unfolding end_session
  end_session_first s reason w h =
      let fresh =
        set_nx_fresh b.strings w.now session_state_ttl_ms (session_ended s.id) (plain 2) w.strings
          h in
      (
        rw fresh,
        rw fresh (
            get-set_px_now b.strings w.now session_state_ttl_ms (session_ended s.id) (plain 2)
              w.strings (omega arith)),
      )

  -- After a session was ended it carries the mark of the end.
  pub ended-end_session :
      (s : Session) (reason : EndReason) (w : World b)
      → is_some (ended_mark s.id (end_session s reason w)) ≡ true
  ended-end_session s reason w = elim (Option-cases (ended_mark s.id w)) [
    | inl h ↦
        let (first, mark) = end_session_first s reason w h in
        rw (first, ended-finish_session s reason (claimed s w), mark)
    | inr (old, h) ↦ rw (end_session_again s reason w h, h)
  ]

  -- Ending a session again, for any reason, changes nothing.
  pub end_session-end_session :
      (s : Session) (reason again : EndReason) (w : World b)
      → end_session s again (end_session s reason w) ≡ end_session s reason w
  end_session-end_session s reason again w =
      elim (Option-cases (ended_mark s.id (end_session s reason w))) [
        | inl h ↦ cc (ended-end_session s reason w)
        | inr (old, h) ↦ end_session_again s again _ h
      ]

  deadline_opened :
      (id : ℕ) (w : World b)
      → b.strings.get w.now (choice_deadline id) w.strings ≡ none
      → ensure_choice_deadline id w ≡ (
        some (w.now + choice_window_ms),
        record w {
          strings =
              b.strings.set_px w.now choice_state_ttl_ms
                (choice_deadline id)
                (plain (to_iso (w.now + choice_window_ms)))
                w.strings;
        },
      )
  unfolding ensure_choice_deadline
  deadline_opened id w h = rw (
    set_nx_fresh b.strings w.now choice_state_ttl_ms (choice_deadline id)
        (plain (to_iso (w.now + choice_window_ms))) w.strings h,
    h,
  )

  -- The world in which `finish_session` takes the deadline.
  abbrev told : Session → EndReason → World b → World b
  told s reason w = send (end_messages s reason w.now) (record w {
    timers = clear_timer s.id w.timers;
    strings =
        b.strings.del (session_active s.user_b) (b.strings.del (session_active s.user_a) w.strings);
  })

  no_deadline-told :
      (s : Session) (reason : EndReason) (w : World b)
      → b.strings.get w.now (choice_deadline s.id) w.strings ≡ none
      → b.strings.get w.now (choice_deadline s.id) (told s reason (claimed s w)).strings ≡ none
  no_deadline-told s reason w h =
      get-del_ne b.strings w.now (session_active s.user_b) (choice_deadline s.id) _ refl
      ∙ get-del_ne b.strings w.now (session_active s.user_a) (choice_deadline s.id) _ refl
      ∙ get-set_nx_ne b.strings w.now session_state_ttl_ms w.now (session_ended s.id)
          (choice_deadline s.id) (plain 2) w.strings refl
      ∙ h

  -- Ending a session that has not ended stops its timer, opens a choice window of one minute
  -- with its deadline stored, and sets the timer that closes it.
  pub end_session_opens_choice :
      (s : Session) (reason : EndReason) (w : World b)
      → ended_mark s.id w ≡ none
      → b.strings.get w.now (choice_deadline s.id) w.strings ≡ none
      → let w' = end_session s reason w in
        (timer_of s.id w'.timers ≡ none)
        × (timer_of s.id w'.choice_timers
            ≡ some (timer_for s.id s.user_a s.user_b (w.now + choice_window_ms)))
        × (b.strings.get w'.now (choice_deadline s.id) w'.strings
            ≡ some (plain (to_iso (w.now + choice_window_ms))))
  unfolding finish_session schedule_choice_timeout
  end_session_opens_choice s reason w h no_deadline =
      let opened =
        deadline_opened s.id (told s reason (claimed s w))
          (no_deadline-told s reason w no_deadline) in
      rw ((end_session_first s reason w h).0, finish_session, opened)
        (
          timer_of-clear_timer s.id w.timers,
          ground arith,
          get-set_px_now b.strings w.now choice_state_ttl_ms (choice_deadline s.id) _ _
              (omega arith),
        )
