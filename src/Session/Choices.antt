-- ===== src/Session/Choices.antt =====
-- The choices after a session: `submitChoice` and `evaluateChoices` of
-- src/session/session.service.ts.
use Prim.Native.Nat.{max}
use verity_backend.Prelude.{
  ℕ, ◌-◌, Bool, true, false, not, ◌&&◌, ◌||◌, Option, none, some, [], ◌∷◌, leb, ◌==◌, if◌then◌else◌,
  get_or_else,
}
use verity_backend.Exec.{
  ok, err, Exec, pure, throw, gets, ◌>>=◌, ◌>>◌, session_not_found, not_participant, not_ended,
  invalid_date, not_an_integer,
}
use verity_backend.Services.Redis.{session_ended, Choice, match, pass, truthy, to_iso}
use verity_backend.Schema.{Session, Event, track}
use verity_backend.World.{Servers, World, send}
use verity_backend.Session.Decision.{
  ChoiceResult, pending, StoredDecision, resolved, waiting, read_stored_decision,
}
use verity_backend.Session.Lifecycle.{ensure_choice_deadline}
use verity_backend.Session.Finalize.{enrich_choice_result, finalize_decision}

abbrev pub is_pass : Option Choice → Bool
is_pass (some pass) = true
is_pass _ = false

abbrev pub is_match : Option Choice → Bool
is_match (some match) = true
is_match _ = false

abbrev pub or_pass : Option Choice → Choice
or_pass c = get_or_else c pass

-- `Date.now() >= deadline.getTime()`
abbrev pub is_over : ℕ → Option ℕ → Bool
is_over now none = false
is_over now (some d) = leb d now

abbrev pub is_participant : Session → ℕ → Bool
is_participant s user = s.user_a == user || s.user_b == user

module _ {b : Servers} where
  abbrev pub pending_result : Option ℕ → Exec (World b) ChoiceResult
  pending_result none = throw invalid_date
  pending_result (some d) = pure (pending (to_iso d))

  unfoldable pub weigh :
      Session → Option ℕ → Option Choice → Option Choice → Exec (World b) ChoiceResult
  weigh s deadline choice_a choice_b w =
      if is_pass choice_a || is_pass choice_b
      then finalize_decision s (or_pass choice_a) (or_pass choice_b) w
      else if is_match choice_a && is_match choice_b
      then finalize_decision s match match w
      else if is_over w.now deadline
      then finalize_decision s (or_pass choice_a) (or_pass choice_b) w
      else pending_result deadline w

  -- `evaluateChoices`: the two choices are read first
  unfoldable pub evaluate_choices : Session → Option ℕ → Exec (World b) ChoiceResult
  evaluate_choices s deadline w =
      weigh s deadline (b.choices.hget w.now s.id s.user_a w.choices)
        (b.choices.hget w.now s.id s.user_b w.choices) w

  abbrev pub enriched : Session → ℕ → Exec (World b) ChoiceResult → Exec (World b) ChoiceResult
  enriched s user m = do result ← m; gets (enrich_choice_result result s user)

  -- `hset` and `pexpire`; Redis refuses the time of an invalid date
  unfoldable pub record_choice : ℕ → ℕ → Choice → Option ℕ → Exec (World b) (Unit {0})
  record_choice id user c none w =
      (err not_an_integer, record w { choices = b.choices.hset w.now id user c w.choices })
  record_choice id user c (some d) w = (
    ok tt,
    send (track user (Event.choice_submitted id c) ∷ []) (record w {
      choices =
          b.choices.pexpire w.now (max 1 (d - w.now)) id (b.choices.hset w.now id user c w.choices);
    }),
  )

  -- A choice that is there already is not replaced.
  unfoldable pub submit_once :
      Session → ℕ → Choice → Option ℕ → Option Choice → Exec (World b) ChoiceResult
  submit_once s user c deadline (some _) = enriched s user (evaluate_choices s deadline)
  submit_once s user c deadline none =
      record_choice s.id user c deadline >> enriched s user (evaluate_choices s deadline)

  -- `submitChoice` for a participant of an ended session with no decision yet
  unfoldable pub choose : Session → ℕ → Choice → Exec (World b) ChoiceResult
  unfolding submit_once
  choose s user c w =
      let (deadline, w') = ensure_choice_deadline s.id w in
      submit_once s user c deadline (b.choices.hget w'.now s.id user w'.choices) w'

  abbrev pub stored_or : StoredDecision → Session → ℕ → Choice → Exec (World b) ChoiceResult
  stored_or (resolved r) s user c w = (ok (enrich_choice_result r s user w), w)
  stored_or (waiting text _) s user c w = (ok (pending text), w)
  stored_or _ s user c w = choose s user c w

  unfoldable pub submit_choice : ℕ → ℕ → Choice → Exec (World b) ChoiceResult
  submit_choice id user c w = elim (b.sessions.find_first (λ s. s.id == id) w.sessions) [
    | none ↦ (err session_not_found, w)
    | some s ↦
        if not (is_participant s user)
        then (err not_participant, w)
        else if not (truthy (b.strings.get w.now (session_ended id) w.strings))
        then (err not_ended, w)
        else stored_or (read_stored_decision id w) s user c w
  ]
