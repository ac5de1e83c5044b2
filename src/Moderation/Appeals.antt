-- ===== src/Moderation/Appeals.antt =====
-- `createAppeal`, `listAppeals` and `resolveAppeal` of src/moderation/moderation.service.ts.
use verity_backend.Prelude.{
  ℕ, ◌-◌, Bool, true, false, Option, none, some, List, [], ◌∷◌, ◌==◌, if◌then◌else◌, take,
}
use verity_backend.Exec.{
  Result, ok, err, Exec, reason_too_long, report_not_found, not_reported_user, appeal_not_found,
  already_resolved,
}
use verity_backend.Services.Redis.{user_ban}
use verity_backend.Services.Database.{order_by_desc}
use verity_backend.Schema.{
  Report, Appeal, AppealStatus, open_appeal, upheld, overturned, Action, ban, Event, track,
}
use verity_backend.World.{Servers, World, send}
use verity_backend.Session.Lifecycle.{round_seconds}
use verity_backend.Chat.{safe_limit}
use verity_backend.Payments.Checkout.{non_empty}
use verity_backend.Moderation.Reports.{trimmed, is_too_long}

-- `CreateAppealDto`
pub record AppealInput : Type 0 where
  pub report : Option ℕ
  pub action : Action
  pub reason : Option (List ℕ)

pub data Resolution : Type 0 where
  uphold overturn : Resolution

abbrev pub status_of : Resolution → AppealStatus
status_of uphold = upheld
status_of overturn = overturned

abbrev pub is_open : AppealStatus → Bool
is_open open_appeal = true
is_open _ = false

-- An overturned ban is lifted.
abbrev pub lifts_ban : Resolution → Action → Bool
lifts_ban overturn ban = true
lifts_ban _ _ = false

-- The report that an appeal is about: none, or one on the user.
abbrev pub report_for : ℕ → Option Report → Result (Option Report)
report_for user none = err report_not_found
report_for user (some r) = if r.reported == user then ok (some r) else err not_reported_user

abbrev pub seconds_since : ℕ → Option Report → Option ℕ
seconds_since now none = none
seconds_since now (some r) = some (round_seconds (now - r.created_at))

abbrev pub id_of : Option Report → Option ℕ
id_of none = none
id_of (some r) = some r.id

abbrev pub resolved : ℕ → Resolution → ℕ → Appeal → Appeal
resolved resolver r now a = record a {
  status = status_of r;
  resolved_at = some now;
  resolver = some resolver;
}

module _ {b : Servers} where
  unfoldable pub report_of_input : ℕ → Option ℕ → World b → Result (Option Report)
  report_of_input user none w = ok none
  report_of_input user (some id) w =
      report_for user (b.reports.find_first (λ r. r.id == id) w.reports)

  unfoldable pub file_appeal : ℕ → AppealInput → Result (Option Report) → Exec (World b) Appeal
  file_appeal user input (err e) w = (err e, w)
  file_appeal user input (ok report) w =
      let (appeal, appeals) =
        b.appeals.create
          (λ id. record {
            id = id;
            user = user;
            report = id_of report;
            action = input.action;
            reason = trimmed input.reason;
            status = open_appeal;
            created_at = w.now;
            resolved_at = none;
            resolver = none;
          })
          w.appeals in
      (
        ok appeal,
        send
            (track user (
                Event.safety_appeal_opened appeal.id (id_of report) input.action
                  (seconds_since w.now report))
              ∷ [])
            (record w { appeals = appeals }),
      )

  unfoldable pub create_appeal : ℕ → AppealInput → Exec (World b) Appeal
  create_appeal user input w =
      if is_too_long (trimmed input.reason)
      then (err reason_too_long, w)
      else file_appeal user input (report_of_input user (non_empty input.report) w) w

  unfoldable pub list_appeals : (Appeal → Bool) → Option ℕ → World b → List Appeal
  list_appeals wanted limit w =
      take (safe_limit 50 200 limit)
        (order_by_desc (λ (a : Appeal). a.created_at) (b.appeals.find_many wanted w.appeals))

  abbrev pub set_resolved : ℕ → Resolution → Appeal → World b → World b
  set_resolved resolver r a w = record w {
    appeals = (b.appeals.update_many (λ x. x.id == a.id) (resolved resolver r w.now) w.appeals).1;
  }

  abbrev pub lift_ban : Bool → ℕ → World b → World b
  lift_ban true user w = record w { strings = b.strings.del (user_ban user) w.strings }
  lift_ban false user w = w

  unfoldable pub resolve_open : ℕ → Resolution → Appeal → Exec (World b) Appeal
  resolve_open resolver r a w = (
    ok (resolved resolver r w.now a),
    send
        (track a.user
            (Event.safety_appeal_resolved a.id a.action (round_seconds (w.now - a.created_at)))
          ∷ [])
        (lift_ban (lifts_ban r a.action) a.user (set_resolved resolver r a w)),
  )

  unfoldable pub resolve_found : ℕ → Resolution → Option Appeal → Exec (World b) Appeal
  resolve_found resolver r none w = (err appeal_not_found, w)
  resolve_found resolver r (some a) w =
      let done = resolve_open resolver r a w in
      if is_open a.status then done else (err already_resolved, w)

  unfoldable pub resolve_appeal : ℕ → ℕ → Resolution → Exec (World b) Appeal
  resolve_appeal resolver id r w =
      resolve_found resolver r (b.appeals.find_first (λ a. a.id == id) w.appeals) w
