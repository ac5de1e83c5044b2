-- ===== src/Session/Lifecycle.antt =====
-- The start and the end of a session: `handleSessionCreated`, `endSession`, the timers and the
-- choice deadline of src/session/session.service.ts.
use verity_backend.Prelude.{ℕ, ◌+◌, ◌-◌, ◌/◌, Option, none, some, List, [], ◌∷◌, if◌then◌else◌}
use verity_backend.Services.Redis.{
  Raw, plain, session_state, str, session_state_of, session_active, session_lock, session_ended,
  choice_deadline, truthy, parse_iso, to_iso,
}
use verity_backend.Schema.{
  Session, EndReason, timeout, ended, token_error, EndedBy, timer, moderation, error, Event, Output,
  track, emit, session_start, session_end,
}
use verity_backend.World.{Servers, World, Timer, send, clear_timer}
use verity_backend.Video.{build_session_tokens}

abbrev pub session_duration_ms : ℕ
session_duration_ms = 45_000

abbrev pub session_state_ttl_ms : ℕ
session_state_ttl_ms = 3_600_000

abbrev pub session_lock_ttl_ms : ℕ
session_lock_ttl_ms = 10_000

abbrev pub choice_window_ms : ℕ
choice_window_ms = 60_000

abbrev pub choice_state_ttl_ms : ℕ
choice_state_ttl_ms = 7_200_000

-- `Math.round(ms / 1000)`
abbrev pub round_seconds : ℕ → ℕ
round_seconds ms = (ms + 500) / 1000

unfoldable pub map_ended_by : EndReason → EndedBy
map_ended_by timeout = timer
map_ended_by ended = moderation
map_ended_by token_error = error

-- `new Date(raw)`
abbrev pub date_of : Option Raw → Option ℕ
date_of (some (plain n)) = parse_iso n
date_of _ = none

-- The time at which a timer for a date fires; at once for an invalid date.
abbrev pub fire_time : ℕ → Option ℕ → ℕ
fire_time now none = now
fire_time now (some date) = now + (date - now)

abbrev pub timer_for : ℕ → ℕ → ℕ → ℕ → Timer
timer_for id a c at = record { session = id; user_a = a; user_b = c; at = at }

-- `buildSyntheticSession`
abbrev pub synthetic_session : ℕ → ℕ → ℕ → Session
synthetic_session id a c = record { id = id; created_at = 0; user_a = a; user_b = c; queue_key = 0 }

abbrev pub start_messages : Session → ℕ → ℕ → List Output
start_messages s now expires =
    emit s.user_a (session_start s.id now (now + session_duration_ms) expires)
    ∷ emit s.user_b (session_start s.id now (now + session_duration_ms) expires)
    ∷ track s.user_a (Event.session_started s.id 45)
    ∷ track s.user_b (Event.session_started s.id 45)
    ∷ []

abbrev pub end_messages : Session → EndReason → ℕ → List Output
end_messages s reason now =
    let lasted = round_seconds (now - s.created_at) in
    emit s.user_a (session_end s.id reason now)
    ∷ emit s.user_b (session_end s.id reason now)
    ∷ track s.user_a (Event.session_ended s.id reason (map_ended_by reason) lasted)
    ∷ track s.user_b (Event.session_ended s.id reason (map_ended_by reason) lasted)
    ∷ []

module _ {b : Servers} where
  unfoldable pub ensure_choice_deadline : ℕ → World b → Option ℕ × World b
  ensure_choice_deadline id w =
      let existing = b.strings.get w.now (choice_deadline id) w.strings in
      let deadline = w.now + choice_window_ms in
      let (_, stored) =
        b.strings.set_nx w.now choice_state_ttl_ms (choice_deadline id) (plain (to_iso deadline))
          w.strings in
      if truthy existing
      then (date_of existing, w)
      else (some deadline, record w { strings = stored })

  unfoldable pub schedule_choice_timeout : ℕ → ℕ → ℕ → Option ℕ → World b → World b
  schedule_choice_timeout id a c deadline w = record w {
    choice_timers = timer_for id a c (fire_time w.now deadline) ∷ clear_timer id w.choice_timers;
  }

  unfoldable pub schedule_session_end : ℕ → ℕ → ℕ → ℕ → World b → World b
  schedule_session_end id a c end_at w = record w {
    timers = timer_for id a c (fire_time w.now (some end_at)) ∷ clear_timer id w.timers;
  }

  unfoldable pub persist_session_state : Session → ℕ → World b → World b
  persist_session_state s end_at w = record w {
    strings = b.strings.set_px w.now session_state_ttl_ms (session_active s.user_b) (plain s.id) (
        b.strings.set_px w.now session_state_ttl_ms (session_active s.user_a) (plain s.id) (
          b.strings.set_px w.now session_state_ttl_ms (session_state_of s.id)
            (session_state (str s.id) (str s.user_a) (str s.user_b) (str (to_iso end_at)))
            w.strings));
  }

  -- What `endSession` does once it has claimed the session.
  unfoldable pub finish_session : Session → EndReason → World b → World b
  unfolding map_ended_by
  finish_session s reason w =
      let cleared = record w {
        timers = clear_timer s.id w.timers;
        strings =
            b.strings.del (session_active s.user_b)
              (b.strings.del (session_active s.user_a) w.strings);
      } in
      let told = send (end_messages s reason w.now) cleared in
      let (deadline, w') = ensure_choice_deadline s.id told in
      schedule_choice_timeout s.id s.user_a s.user_b deadline w'

  unfoldable pub end_session : Session → EndReason → World b → World b
  end_session s reason w =
      let (claimed, stored) =
        b.strings.set_nx w.now session_state_ttl_ms (session_ended s.id) (plain 2) w.strings in
      if claimed then finish_session s reason (record w { strings = stored }) else w

  -- `handleSessionCreated`, once it has the lock
  unfoldable pub start_session : Session → World b → World b
  unfolding persist_session_state schedule_session_end build_session_tokens
  start_session s w = elim (build_session_tokens w.agora w.now) [
    | none ↦ end_session s token_error w
    | some expires ↦ schedule_session_end s.id s.user_a s.user_b (w.now + session_duration_ms) (
        send (start_messages s w.now expires)
          (persist_session_state s (w.now + session_duration_ms) w))
  ]

  unfoldable pub handle_session_created : Session → World b → World b
  handle_session_created s w =
      let (acquired, stored) =
        b.strings.set_nx w.now session_lock_ttl_ms (session_lock s.id) (plain 2) w.strings in
      if acquired then start_session s (record w { strings = stored }) else w
