-- ===== src/Moderation/Violations.antt =====
-- Violations that the detector reports: `handleWebhook`, `applyModerationAction` and what they
-- call, in src/moderation/moderation.service.ts.
use verity_backend.Prelude.{
  ℕ, ◌-◌, Bool, true, false, not, ◌&&◌, ◌||◌, Option, none, some, List, [], ◌∷◌, map, ◌==◌, leb,
  if◌then◌else◌, get_or_else, codes, same_text,
}
use verity_backend.Exec.{ok, err, Exec, missing_session_id}
use verity_backend.Services.Redis.{plain, user_ban, ban_cooldown, hive_webhook}
use verity_backend.Schema.{
  Session, ModerationEvent, Action, warn, ban, ended, Event, Output, track, emit, moderation_action,
}
use verity_backend.World.{Servers, World, send}
use verity_backend.Matches.Reveal.{lower}
use verity_backend.Session.Lifecycle.{end_session}
use verity_backend.Payments.Checkout.{non_empty}

abbrev pub violation_window_ms : ℕ
violation_window_ms = 86_400_000

abbrev pub ban_threshold : ℕ
ban_threshold = 3

abbrev pub ban_ttl_ms : ℕ
ban_ttl_ms = 86_400_000

abbrev pub ban_rate_limit_ms : ℕ
ban_rate_limit_ms = 60_000

abbrev pub webhook_replay_ttl_ms : ℕ
webhook_replay_ttl_ms = 600_000

-- The texts '1' and 'violation'.
abbrev pub one : ℕ
one = 4

abbrev pub default_reason : ℕ
default_reason = 12

-- `HiveViolationPayload`, with the number of labels.
pub record Payload : Type 0 where
  pub session : ℕ
  pub user : Option ℕ
  pub violation : Bool
  pub action : Option (List ℕ)
  pub event : Option (List ℕ)
  pub labels : ℕ
  pub severity : Option ℕ
  pub reason : Option ℕ

-- `a ?? b`
abbrev pub or_else {ℓ} : {A : Type ℓ} → Option A → Option A → Option A
or_else none b = b
or_else (some a) b = some a

abbrev pub is_violation_text : Option (List ℕ) → Bool
is_violation_text none = false
is_violation_text (some cs) = same_text (map lower cs) (codes "violation")

unfoldable pub is_violation : Payload → Bool
is_violation p = p.violation || is_violation_text (or_else p.action p.event) || not (p.labels == 0)

unfoldable pub policy_reason : Payload → ℕ
policy_reason p = get_or_else (or_else p.reason p.severity) default_reason

abbrev pub offenders : Option ℕ → Session → List ℕ
offenders (some user) s = user ∷ []
offenders none s = s.user_a ∷ s.user_b ∷ []

abbrev pub in_window : ℕ → ℕ → ModerationEvent → Bool
in_window user now e = e.user == user && leb (now - violation_window_ms) e.created_at

abbrev pub detected : ℕ → List ℕ → List Output
detected session users = map (λ user. track user (Event.safety_violation_detected session)) users

module _ {b : Servers} where
  unfoldable pub emit_moderation_action : ℕ → Action → ℕ → World b → World b
  emit_moderation_action user action reason w =
      if w.server_ready then send (emit user (moderation_action action reason) ∷ []) w else w

  unfoldable pub log_moderation_event : ℕ → World b → World b
  log_moderation_event user w = record w {
    events = (b.events.create (λ _. record { user = user; created_at = w.now }) w.events).1;
  }

  abbrev pub violation_count : ℕ → World b → ℕ
  violation_count user w = b.events.count (in_window user w.now) w.events

  unfoldable pub set_ban : ℕ → World b → World b
  set_ban user w = record w {
    strings = b.strings.set_px w.now ban_ttl_ms (user_ban user) (plain one) w.strings;
  }

  abbrev pub report_action : ℕ → Action → ℕ → ℕ → World b → World b
  report_action user action reason count w =
      send (track user (Event.safety_action_taken action true (some count)) ∷ [])
        (emit_moderation_action user action reason w)

  -- At most one ban a minute, which `ban_cooldown` keeps.
  unfoldable pub ban_once : ℕ → ℕ → ℕ → World b → World b
  ban_once user reason count w =
      let (allowed, strings) =
        b.strings.set_nx w.now ban_rate_limit_ms (ban_cooldown user) (plain one) w.strings in
      let w' = record w { strings = strings } in
      if allowed then report_action user ban reason count (set_ban user w') else w'

  unfoldable pub apply_moderation_action : ℕ → ℕ → World b → World b
  apply_moderation_action user reason w =
      let count = violation_count user w in
      if leb ban_threshold count
      then ban_once user reason count w
      else report_action user warn reason count w

  -- `reserveWebhookDelivery`, for the hash of a timestamp and a signature
  unfoldable pub reserve_webhook_delivery : ℕ → World b → Bool × World b
  reserve_webhook_delivery hash w =
      let (reserved, strings) =
        b.strings.set_nx w.now webhook_replay_ttl_ms (hive_webhook hash) (plain one) w.strings in
      (reserved, record w { strings = strings })

  unfoldable pub log_all : List ℕ → World b → World b
  log_all [] w = w
  log_all (user ∷ users) w = log_all users (log_moderation_event user w)

  unfoldable pub apply_all : List ℕ → ℕ → World b → World b
  apply_all [] reason w = w
  apply_all (user ∷ users) reason w = apply_all users reason (apply_moderation_action user reason w)

  -- a violation in a session that is known; the session is ended
  unfoldable pub punish : Payload → Option Session → World b → World b
  punish p none w = w
  punish p (some s) w =
      let users = offenders (non_empty p.user) s in
      end_session s ended
        (apply_all users (policy_reason p) (send (detected p.session users) (log_all users w)))

  unfoldable pub process_payload : Payload → World b → World b
  process_payload p w =
      if is_violation p
      then punish p (b.sessions.find_first (λ s. s.id == p.session) w.sessions) w
      else w

  -- without a hash every delivery is accepted
  unfoldable pub process_delivery : Payload → Option ℕ → World b → World b
  process_delivery p none w = process_payload p w
  process_delivery p (some hash) w =
      let (accepted, w') = reserve_webhook_delivery hash w in
      if accepted then process_payload p w' else w'

  unfoldable pub handle_webhook : Payload → Option ℕ → Exec (World b) (Unit {0})
  handle_webhook p delivery w =
      if p.session == 0 then (err missing_session_id, w) else (ok tt, process_delivery p delivery w)
