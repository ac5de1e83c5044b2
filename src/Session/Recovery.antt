-- ===== src/Session/Recovery.antt =====
-- A restart and a shutdown: `onModuleInit`, `recoverSessionEndTimers`, `recoverChoiceTimeouts`,
-- `onModuleDestroy` and what they call in src/session/session.service.ts. The sessions whose keys the
-- scan of Scan finds are given, as many as the bound on the time lets through.
use verity_backend.Prelude.{ℕ, Option, none, some, List, [], ◌∷◌, leb, ◌==◌, if◌then◌else◌}
use verity_backend.Exec.{ok, Exec, ◌>>◌}
use verity_backend.Services.Redis.{
  Raw, session_state, str, session_state_of, session_ended, choice_deadline, truthy, parse_iso,
  pass,
}
use verity_backend.Schema.{Session, timeout}
use verity_backend.World.{Servers, World}
use verity_backend.Session.Decision.{StoredDecision, resolved, waiting, read_stored_decision}
use verity_backend.Session.Lifecycle.{
  date_of, synthetic_session, end_session, schedule_session_end, schedule_choice_timeout,
}
use verity_backend.Session.Finalize.{finalize_decision}

-- `SessionStateRecord`
pub record SessionState : Type 0 where
  pub session : ℕ
  pub user_a : ℕ
  pub user_b : ℕ
  pub end_at : ℕ

unfoldable pub parse_session_state : Option Raw → Option SessionState
parse_session_state (some (session_state (str s) (str a) (str c) (str end))) =
    some (record { session = s; user_a = a; user_b = c; end_at = end })
parse_session_state _ = none

abbrev pub users_of : Option Session → Option (ℕ × ℕ)
users_of none = none
users_of (some s) = some (s.user_a, s.user_b)

module _ {b : Servers} where
  -- an overdue session is ended, another one gets its timer back
  unfoldable pub recover_at : SessionState → Option ℕ → World b → World b
  recover_at s none w = w
  recover_at s (some end) w =
      if leb end w.now
      then end_session (synthetic_session s.session s.user_a s.user_b) timeout w
      else schedule_session_end s.session s.user_a s.user_b end w

  unfoldable pub recover_state : Option SessionState → World b → World b
  recover_state none w = w
  recover_state (some s) w =
      if truthy (b.strings.get w.now (session_ended s.session) w.strings)
      then w
      else recover_at s (parse_iso s.end_at) w

  abbrev pub state_of : ℕ → World b → Option SessionState
  unfolding parse_session_state
  state_of id w = parse_session_state (b.strings.get w.now (session_state_of id) w.strings)

  unfoldable pub recover_session_end_timers : List ℕ → World b → World b
  unfolding recover_state
  recover_session_end_timers [] w = w
  recover_session_end_timers (id ∷ ids) w =
      recover_session_end_timers ids (recover_state (state_of id w) w)

  abbrev pub participants_or : Option SessionState → ℕ → World b → Option (ℕ × ℕ)
  participants_or (some s) id w = some (s.user_a, s.user_b)
  participants_or none id w = users_of (b.sessions.find_first (λ s. s.id == id) w.sessions)

  unfoldable pub resolve_session_participants : ℕ → World b → Option (ℕ × ℕ)
  resolve_session_participants id w = participants_or (state_of id w) id w

  abbrev pub close_choice : ℕ → ℕ → ℕ → Exec (World b) (Unit {0})
  close_choice id a c w =
      (do finalize_decision (synthetic_session id a c) pass pass; λ v. (ok tt, v)) w

  unfoldable pub recover_due : ℕ → Option ℕ → Option (ℕ × ℕ) → Exec (World b) (Unit {0})
  recover_due id none users w = (ok tt, w)
  recover_due id (some deadline) none w = (ok tt, w)
  recover_due id (some deadline) (some (a, c)) w =
      if leb deadline w.now
      then close_choice id a c w
      else (ok tt, schedule_choice_timeout id a c (some deadline) w)

  -- the deadline of a decision that waits, or else that of the key
  unfoldable pub recover_choice : ℕ → StoredDecision → Exec (World b) (Unit {0})
  recover_choice id (resolved r) w = (ok tt, w)
  recover_choice id (waiting text deadline) w =
      recover_due id (some deadline) (resolve_session_participants id w) w
  recover_choice id _ w =
      recover_due id (date_of (b.strings.get w.now (choice_deadline id) w.strings))
        (resolve_session_participants id w) w

  unfoldable pub recover_choice_of : ℕ → Exec (World b) (Unit {0})
  recover_choice_of id w =
      if id == 0 then (ok tt, w) else recover_choice id (read_stored_decision id w) w

  unfoldable pub recover_choice_timeouts : List ℕ → Exec (World b) (Unit {0})
  recover_choice_timeouts [] w = (ok tt, w)
  recover_choice_timeouts (id ∷ ids) w = (recover_choice_of id >> recover_choice_timeouts ids) w

  unfoldable pub on_module_init : List ℕ → List ℕ → Exec (World b) (Unit {0})
  on_module_init states deadlines w =
      recover_choice_timeouts deadlines (recover_session_end_timers states w)

  unfoldable pub on_module_destroy : World b → World b
  on_module_destroy w = record w { timers = []; choice_timers = [] }
