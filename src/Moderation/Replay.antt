-- ===== src/Moderation/Replay.antt =====
-- A webhook of src/moderation/moderation.service.ts that is delivered twice.
use verity_backend.Prelude.{
  ℕ, ◌+◌, ◌<◌, ◌≡◌, refl, ◌∙◌, false, Option, none, some, List, [], ◌∷◌, ◌==◌, leb, arith,
  Bool-cases, inl, inr,
}
use verity_backend.Services.Redis.{
  Raw, plain, user_ban, ban_cooldown, hive_webhook, session_ended, session_active, choice_deadline,
  key_eq_refl, set_nx_fresh, set_nx_taken, get-set_nx_ne, get-set_px_ne, get-del_ne, to_iso,
}
use verity_backend.Schema.{Session, EndReason, ended, Action, ban, warn}
use verity_backend.World.{Servers, World}
use verity_backend.Matches.Acknowledge.{later}
use verity_backend.Session.Lifecycle.{
  ensure_choice_deadline, schedule_choice_timeout, finish_session, end_session,
  session_state_ttl_ms, choice_state_ttl_ms, choice_window_ms,
}
use verity_backend.Payments.Checkout.{non_empty}
use verity_backend.Moderation.Violations.{
  Payload, one, ban_threshold, ban_ttl_ms, ban_rate_limit_ms, webhook_replay_ttl_ms, is_violation,
  policy_reason, offenders, emit_moderation_action, log_moderation_event, violation_count, set_ban,
  ban_once, apply_moderation_action, reserve_webhook_delivery, log_all, apply_all, punish,
  process_payload, process_delivery, handle_webhook,
}

module _ {b : Servers} (t hash : ℕ) where
  -- The mark of a delivery, at a time.
  abbrev mark : World b → Option Raw
  mark w = b.strings.get t (hive_webhook hash) w.strings

  mark-emit :
      (user : ℕ) (action : Action) (reason : ℕ) (w : World b)
      → mark (emit_moderation_action user action reason w) ≡ mark w
  unfolding emit_moderation_action
  mark-emit user action reason w = elim (Bool-cases w.server_ready) [
    | inl e ↦ rw e refl
    | inr e ↦ rw e refl
  ]

  mark-log_all : (users : List ℕ) (w : World b) → mark (log_all users w) ≡ mark w
  unfolding log_all log_moderation_event
  mark-log_all [] w = refl
  mark-log_all (user ∷ users) w = mark-log_all users _

  mark-ban_once :
      (user reason count : ℕ) (w : World b) → mark (ban_once user reason count w) ≡ mark w
  unfolding ban_once set_ban
  mark-ban_once user reason count w =
      let cooled =
        get-set_nx_ne b.strings w.now ban_rate_limit_ms t (ban_cooldown user) (hive_webhook hash)
          (plain one) w.strings refl in
      let allowed =
        b.strings.set_nx w.now ban_rate_limit_ms (ban_cooldown user) (plain one) w.strings in
      elim (Bool-cases allowed.0) [
        | inl e ↦ rw e (
            mark-emit user ban reason _
            ∙ get-set_px_ne b.strings w.now ban_ttl_ms t (user_ban user) (hive_webhook hash)
                (plain one) _ refl
            ∙ cooled)
        | inr e ↦ rw e cooled
      ]

  mark-apply :
      (user reason : ℕ) (w : World b) → mark (apply_moderation_action user reason w) ≡ mark w
  unfolding apply_moderation_action
  mark-apply user reason w = elim (Bool-cases (leb ban_threshold (violation_count user w))) [
    | inl e ↦ rw e (mark-ban_once user reason (violation_count user w) w)
    | inr e ↦ rw e (mark-emit user warn reason w)
  ]

  mark-apply_all :
      (users : List ℕ) (reason : ℕ) (w : World b) → mark (apply_all users reason w) ≡ mark w
  unfolding apply_all
  mark-apply_all [] reason w = refl
  mark-apply_all (user ∷ users) reason w =
      mark-apply_all users reason (apply_moderation_action user reason w) ∙ mark-apply user reason w

  mark-deadline : (id : ℕ) (w : World b) → mark (ensure_choice_deadline id w).1 ≡ mark w
  unfolding ensure_choice_deadline
  mark-deadline id w = ground (
    arith,
    get-set_nx_ne b.strings w.now choice_state_ttl_ms t (choice_deadline id) (hive_webhook hash)
        (plain (to_iso (w.now + choice_window_ms))) w.strings,
  )

  mark-finish :
      (s : Session) (reason : EndReason) (w : World b) → mark (finish_session s reason w) ≡ mark w
  unfolding finish_session schedule_choice_timeout
  mark-finish s reason w =
      mark-deadline s.id _
      ∙ get-del_ne b.strings t (session_active s.user_b) (hive_webhook hash) _ refl
      ∙ get-del_ne b.strings t (session_active s.user_a) (hive_webhook hash) _ refl

  mark-end :
      (s : Session) (reason : EndReason) (w : World b) → mark (end_session s reason w) ≡ mark w
  unfolding end_session
  mark-end s reason w =
      let claim =
        b.strings.set_nx w.now session_state_ttl_ms (session_ended s.id) (plain 2) w.strings in
      elim (Bool-cases claim.0) [
        | inl e ↦ rw e (
            mark-finish s reason _
            ∙ get-set_nx_ne b.strings w.now session_state_ttl_ms t (session_ended s.id)
                (hive_webhook hash) (plain 2) w.strings refl)
        | inr e ↦ rw e refl
      ]

  mark-punish : (p : Payload) (s : Option Session) (w : World b) → mark (punish p s w) ≡ mark w
  unfolding punish
  mark-punish p none w = refl
  mark-punish p (some s) w =
      let users = offenders (non_empty p.user) s in
      mark-end s ended _ ∙ mark-apply_all users (policy_reason p) _ ∙ mark-log_all users w

  mark-process : (p : Payload) (w : World b) → mark (process_payload p w) ≡ mark w
  unfolding process_payload
  mark-process p w = elim (Bool-cases (is_violation p)) [
    | inl e ↦ rw e (mark-punish p _ w)
    | inr e ↦ rw e refl
  ]

module _ {b : Servers} where
  abbrev reserved : ℕ → World b → World b
  reserved hash w = record w {
    strings =
        b.strings.set_px w.now webhook_replay_ttl_ms (hive_webhook hash) (plain one) w.strings;
  }

  process_first :
      (p : Payload) (hash : ℕ) (w : World b)
      → b.strings.get w.now (hive_webhook hash) w.strings ≡ none
      → process_delivery p (some hash) w ≡ process_payload p (reserved hash w)
  unfolding process_delivery reserve_webhook_delivery
  process_first p hash w h =
      rw
        (set_nx_fresh b.strings w.now webhook_replay_ttl_ms (hive_webhook hash) (plain one)
          w.strings h)
        refl

  process_again :
      (p : Payload) (hash : ℕ) (w : World b)
      → b.strings.get w.now (hive_webhook hash) w.strings ≡ some (plain one)
      → process_delivery p (some hash) w ≡ w
  unfolding process_delivery reserve_webhook_delivery
  process_again p hash w h =
      rw
        (set_nx_taken b.strings w.now webhook_replay_ttl_ms (hive_webhook hash) (plain one)
          w.strings h)
        refl

  handle_webhook-processed :
      (p : Payload) (hash : ℕ) (w : World b)
      → (p.session == 0) ≡ false
      → (handle_webhook p (some hash) w).1 ≡ process_delivery p (some hash) w
  unfolding handle_webhook
  handle_webhook-processed p hash w h = rw h refl

  handle_webhook-unchanged :
      (p : Payload) (hash : ℕ) (w : World b)
      → process_delivery p (some hash) w ≡ w
      → (handle_webhook p (some hash) w).1 ≡ w
  unfolding handle_webhook
  handle_webhook-unchanged p hash w h = elim (Bool-cases (p.session == 0)) [
    | inl e ↦ rw e refl
    | inr e ↦ rw e h
  ]

  -- A delivery that has been processed changes nothing when the next one, within ten minutes,
  -- has the same timestamp and signature, whatever its payload.
  pub handle_webhook-handle_webhook :
      (p again : Payload) (hash t : ℕ) (w : World b)
      → (p.session == 0) ≡ false
      → b.strings.get w.now (hive_webhook hash) w.strings ≡ none
      → t < w.now + 600_000
      → (handle_webhook again (some hash) (later t (handle_webhook p (some hash) w).1)).1
        ≡ later t (handle_webhook p (some hash) w).1
  handle_webhook-handle_webhook p again hash t w named new soon =
      let first = handle_webhook-processed p hash w named ∙ process_first p hash w new in
      let marked : b.strings.get t (hive_webhook hash) (process_payload p (reserved hash w)).strings
          ≡ some (plain one) =
        mark-process t hash p (reserved hash w)
        ∙ b.strings.get-set_px w.now webhook_replay_ttl_ms t (hive_webhook hash) (hive_webhook hash)
            (plain one) w.strings
        ∙ rw (key_eq_refl (hive_webhook hash)) (ground (arith, soon)) in
      handle_webhook-unchanged again hash (later t (handle_webhook p (some hash) w).1)
        (process_again again hash (later t (handle_webhook p (some hash) w).1) (rw first marked))
