-- ===== src/Moderation/Reports.antt =====
-- `createReport`, `listReports`, `resolveReport` and `bumpReportEscalation` of
-- src/moderation/moderation.service.ts.
use verity_backend.Prelude.{
  ℕ, ◌+◌, ◌-◌, Bool, true, false, ◌&&◌, Option, none, some, List, [], ◌∷◌, ◌==◌, leb, ltb,
  if◌then◌else◌, is_some, take, trim, text_length,
}
use verity_backend.Exec.{
  ok, err, Exec, ◌>>◌, self_report, details_too_long, report_limit, no_such_row,
}
use verity_backend.Services.Redis.{Raw, decimal, user_reports}
use verity_backend.Services.Database.{order_by_desc}
use verity_backend.Schema.{
  Report, ReportStatus, open_report, warned, banned, Block, Action, warn, ban, Event, track,
}
use verity_backend.World.{Servers, World, send}
use verity_backend.Chat.{safe_limit}
use verity_backend.Moderation.Blocks.{
  remove_from_queue_if_present, block_of, add_block, set_lifted, create_block,
}
use verity_backend.Moderation.Violations.{set_ban, emit_moderation_action}

abbrev pub report_spam_window_ms : ℕ
report_spam_window_ms = 86_400_000

abbrev pub max_reports_per_user_per_day : ℕ
max_reports_per_user_per_day = 10

abbrev pub report_escalation_ttl_ms : ℕ
report_escalation_ttl_ms = 86_400_000

-- `ReportUserDto`
pub record ReportInput : Type 0 where
  pub reported : ℕ
  pub reason : ℕ
  pub details : Option (List ℕ)

-- The trimmed details of a report, and the reason of an appeal.
abbrev pub trimmed : Option (List ℕ) → Option (List ℕ)
trimmed none = none
trimmed (some cs) = some (trim cs)

abbrev pub is_too_long : Option (List ℕ) → Bool
is_too_long none = false
is_too_long (some cs) = ltb 500 (text_length cs)

abbrev pub has_text : Option (List ℕ) → Bool
has_text (some (_ ∷ _)) = true
has_text _ = false

-- The number that the key holds; no other text is written to it.
abbrev pub number_of : Option Raw → ℕ
number_of (some (decimal n)) = n
number_of _ = 0

abbrev pub recent_by : ℕ → ℕ → Report → Bool
recent_by user now r = r.reporter == user && leb (now - report_spam_window_ms) r.created_at

abbrev pub status_for : Action → ReportStatus
status_for ban = banned
status_for warn = warned

module _ {b : Servers} where
  unfoldable pub bump_report_escalation : ℕ → World b → World b
  bump_report_escalation user w =
      let current = number_of (b.strings.get w.now (user_reports user) w.strings) in
      record w {
        strings =
            b.strings.set_px w.now report_escalation_ttl_ms (user_reports user)
              (decimal (current + 1)) w.strings;
      }

  abbrev pub block_again : ℕ → ℕ → Option Block → World b → World b
  block_again reporter reported none w = (add_block reporter reported w).1
  block_again reporter reported (some x) w = if is_some x.lifted_at then set_lifted none x w else w

  abbrev pub new_report : ℕ → ReportInput → Option (List ℕ) → World b → ℕ → Report
  new_report reporter input details w id = record {
    id = id;
    created_at = w.now;
    reporter = reporter;
    reported = input.reported;
    reason = input.reason;
    details = details;
    status = open_report;
  }

  -- the transaction, the count and the queue
  unfoldable pub file_report : ℕ → ReportInput → Option (List ℕ) → World b → Report × World b
  file_report reporter input details w =
      let (r, reports) = b.reports.create (new_report reporter input details w) w.reports in
      let w' =
        block_again reporter input.reported (block_of reporter input.reported w)
          (record w { reports = reports }) in
      (
        r,
        send
            (track reporter
                (Event.safety_report_submitted r.id input.reported input.reason (has_text details))
              ∷ [])
            (remove_from_queue_if_present input.reported
              (bump_report_escalation input.reported w')),
      )

  unfoldable pub create_report : ℕ → ReportInput → Exec (World b) Report
  create_report reporter input w =
      let details = trimmed input.details in
      let (report, w') = file_report reporter input details w in
      if reporter == input.reported
      then (err self_report, w)
      else if is_too_long details
      then (err details_too_long, w)
      else if leb max_reports_per_user_per_day
          (b.reports.count (recent_by reporter w.now) w.reports)
      then (err report_limit, w)
      else (ok report, w')

  unfoldable pub list_reports : (Report → Bool) → Option ℕ → World b → List Report
  list_reports wanted limit w =
      take (safe_limit 50 200 limit)
        (order_by_desc (λ (r : Report). r.created_at) (b.reports.find_many wanted w.reports))

  abbrev pub mark_report : Action → Report → World b → World b
  mark_report action r w = record w {
    reports =
        (b.reports.update_many (λ x. x.id == r.id) (λ x. record x { status = status_for action })
          w.reports).1;
  }

  -- after the block
  unfoldable pub act_on_report : Action → Report → Exec (World b) Report
  act_on_report action r w =
      let told = send (track r.reported (Event.safety_action_taken action false none) ∷ []) (
        emit_moderation_action r.reported action r.reason
          (elim action [ ban ↦ set_ban r.reported w | warn ↦ w ])) in
      (ok (record r { status = status_for action }), told)

  unfoldable pub resolve_as : Action → Option Report → Exec (World b) Report
  resolve_as action none w = (err no_such_row, w)
  resolve_as action (some r) w =
      (do create_block r.reporter r.reported; act_on_report action r) (mark_report action r w)

  unfoldable pub resolve_report : ℕ → Action → Exec (World b) Report
  resolve_report id action w =
      resolve_as action (b.reports.find_first (λ r. r.id == id) w.reports) w
