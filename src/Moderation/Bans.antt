-- ===== src/Moderation/Bans.antt =====
-- The bans of `applyModerationAction` in src/moderation/moderation.service.ts, and `joinQueue`.
use verity_backend.Prelude.{
  ℕ, ◌+◌, ◌≤◌, ◌<◌, ◌≡◌, refl, ap, subst, inl, inr, Option, none, some, List, arith, Bool-cases,
}
use verity_backend.Exec.{ok, err, >>=-eq-ok, suspended}
use verity_backend.Services.Redis.{plain, user_ban, ban_cooldown, key_eq_refl, set_nx_fresh}
use verity_backend.Schema.{Report, banned, Action, ban}
use verity_backend.World.{Servers, World}
use verity_backend.Queue.City.{Input}
use verity_backend.Queue.Join.{join_queue}
use verity_backend.Matches.Acknowledge.{later}
use verity_backend.Moderation.Blocks.{create_block}
use verity_backend.Moderation.Violations.{
  ban_ttl_ms, ban_threshold, ban_rate_limit_ms, one, violation_count, emit_moderation_action,
  set_ban, report_action, ban_once, apply_moderation_action,
}
use verity_backend.Moderation.Reports.{
  status_for, mark_report, act_on_report, resolve_as, resolve_report,
}

module _ {b : Servers} where
  -- The key of the ban holds for a day from the time of the world.
  abbrev pub BannedFor : ℕ → World b → Type 0
  BannedFor user w =
      (t : ℕ)
      → t < w.now + ban_ttl_ms
      → b.strings.get t (user_ban user) w.strings ≡ some (plain one)

  suspended-join :
      (key_of : List ℕ → ℕ) (user value : ℕ) (city region : Input) (w : World b)
      → b.strings.get w.now (user_ban user) w.strings ≡ some (plain one)
      → join_queue key_of user city region value w ≡ (err suspended, w)
  unfolding join_queue
  suspended-join key_of user value city region w h = rw h

  set_ban-BannedFor : (user : ℕ) (w : World b) → BannedFor user (set_ban user w)
  unfolding set_ban
  set_ban-BannedFor user w t h =
      rw (b.strings.get-set_px, key_eq_refl (user_ban user)) (ground (arith, h))

  strings-emit_moderation_action :
      (user reason : ℕ) (action : Action) (w : World b)
      → ((emit_moderation_action user action reason w).strings ≡ w.strings)
        × ((emit_moderation_action user action reason w).now ≡ w.now)
  unfolding emit_moderation_action
  strings-emit_moderation_action user reason action w = elim (Bool-cases w.server_ready) [
    | inl e ↦ rw e (refl, refl)
    | inr e ↦ rw e (refl, refl)
  ]

  told-BannedFor :
      (user other reason : ℕ) (action : Action) (w : World b)
      → BannedFor user w
      → BannedFor user (emit_moderation_action other action reason w)
  told-BannedFor user other reason action w h t =
      let (strings, now) = strings-emit_moderation_action other reason action w in
      rw (strings, now) (h t)

  banned-Joins :
      (user t value : ℕ) (key_of : List ℕ → ℕ) (city region : Input) (w : World b)
      → BannedFor user w
      → t < w.now + ban_ttl_ms
      → join_queue key_of user city region value (later t w) ≡ (err suspended, later t w)
  banned-Joins user t value key_of city region w held h =
      suspended-join key_of user value city region (later t w) (held t h)

  act-BannedFor : (r : Report) (w : World b) → BannedFor r.reported (act_on_report ban r w).1
  unfolding act_on_report
  act-BannedFor r w =
      told-BannedFor r.reported r.reported r.reason ban (set_ban r.reported w)
        (set_ban-BannedFor r.reported w)

  act-reported :
      (action : Action) (r : Report) (w : World b)
      → (act_on_report action r w).0 ≡ ok (record r { status = status_for action })
  unfolding act_on_report
  act-reported action r w = refl

  resolve-BannedFor :
      (o : Option Report) (report : Report) (w w' : World b)
      → resolve_as ban o w ≡ (ok report, w')
      → BannedFor report.reported w'
  unfolding resolve_as
  resolve-BannedFor none report w w' h = cc (ap (λ x. x.0) h)
  resolve-BannedFor (some r) report w w' h =
      let (_, v, _, acted) =
        >>=-eq-ok (create_block r.reporter r.reported) (λ _. act_on_report ban r)
          (mark_report ban r w) w' report h in
      let same : record r { status = banned } ≡ report =
        cc (act-reported ban r v, ap (λ x. x.0) acted) in
      subst (λ user. BannedFor user w') (ap (λ z. z.reported) same)
        (subst (BannedFor r.reported) (ap (λ x. x.1) acted) (act-BannedFor r v))

  -- A user whom a report has banned cannot join a queue for a day.
  pub resolve_report-suspends :
      (id t value : ℕ) (key_of : List ℕ → ℕ) (city region : Input) (report : Report)
      (w w' : World b)
      → resolve_report id ban w ≡ (ok report, w')
      → t < w'.now + ban_ttl_ms
      → join_queue key_of report.reported city region value (later t w')
        ≡ (err suspended, later t w')
  unfolding resolve_report
  resolve_report-suspends id t value key_of city region report w w' h soon =
      banned-Joins report.reported t value key_of city region w' (resolve-BannedFor _ report w w' h)
        soon

  cooled : ℕ → World b → World b
  cooled user w = record w {
    strings = b.strings.set_px w.now ban_rate_limit_ms (ban_cooldown user) (plain one) w.strings;
  }

  ban_once-first :
      (user reason count : ℕ) (w : World b)
      → b.strings.get w.now (ban_cooldown user) w.strings ≡ none
      → ban_once user reason count w
        ≡ report_action user ban reason count (set_ban user (cooled user w))
  unfolding ban_once cooled
  ban_once-first user reason count w h =
      rw
        (set_nx_fresh b.strings w.now ban_rate_limit_ms (ban_cooldown user) (plain one) w.strings h)

  apply-bans :
      (user reason : ℕ) (w : World b)
      → ban_threshold ≤ violation_count user w
      → apply_moderation_action user reason w ≡ ban_once user reason (violation_count user w) w
  unfolding apply_moderation_action
  apply-bans user reason w h = ground (arith, h)

  now-report_action :
      (user reason count : ℕ) (action : Action) (w : World b)
      → (report_action user action reason count w).now ≡ w.now
  now-report_action user reason count action w =
      (strings-emit_moderation_action user reason action w).1

  now-set_ban : (user : ℕ) (w : World b) → (set_ban user (cooled user w)).now ≡ w.now
  unfolding set_ban cooled
  now-set_ban user w = refl

  -- At three violations within a day a user who was not banned in the last minute is banned: no
  -- join succeeds for a day.
  pub apply_moderation_action-suspends :
      (user reason t value : ℕ) (key_of : List ℕ → ℕ) (city region : Input) (w : World b)
      → ban_threshold ≤ violation_count user w
      → b.strings.get w.now (ban_cooldown user) w.strings ≡ none
      → t < w.now + ban_ttl_ms
      → let v = later t (apply_moderation_action user reason w) in
        join_queue key_of user city region value v ≡ (err suspended, v)
  apply_moderation_action-suspends user reason t value key_of city region w enough cool soon =
      let v = set_ban user (cooled user w) in
      let count = violation_count user w in
      rw (apply-bans user reason w enough, ban_once-first user reason count w cool)
        (banned-Joins user t value key_of city region (report_action user ban reason count v)
          (told-BannedFor user user reason ban v (set_ban-BannedFor user (cooled user w)))
          (rw (now-report_action user reason count ban v, now-set_ban user w) soon))
