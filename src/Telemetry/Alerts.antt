-- ===== src/Telemetry/Alerts.antt =====
-- src/telemetry/telemetry-alerts.service.ts. The reply of the alert webhook is given.
use verity_backend.Prelude.{
  ℕ, ◌+◌, ◌*◌, Bool, true, false, ◌&&◌, Option, none, some, List, [], ◌∷◌, ◌++◌, leb, ltb, codes,
  trim, get_or_else, if◌then◌else◌,
}
use verity_backend.Prelude.Int.{ℤ}
use verity_backend.Services.Numbers.{Numbers}
use verity_backend.Services.Redis.{Raw, decimal, wait_breach, alert_cooldown}
use verity_backend.Schema.{AppealStatus, open_appeal}
use verity_backend.World.{Servers, World}
use verity_backend.Environment.{positive_or}
use verity_backend.Queue.City.{non_empty}
use verity_backend.Telemetry.Metrics.{Ratio}
use verity_backend.Telemetry.Gates.{is_over, is_over_ratio}
use verity_backend.Telemetry.Snapshot.{StageGateSnapshot}

abbrev pub wait_p90_threshold_seconds : ℕ
wait_p90_threshold_seconds = 150

abbrev pub wait_p90_sustain_ms : ℕ
wait_p90_sustain_ms = 2 * 60 * 60 * 1000

abbrev pub auto_pause_cooldown_ms : ℕ
auto_pause_cooldown_ms = 15 * 60 * 1000

abbrev pub severe_incident_threshold_per_10k : ℕ
severe_incident_threshold_per_10k = 5

-- The variables TELEMETRY_ALERT_WEBHOOK_URL, TELEMETRY_ALERT_ESCALATION_OWNER,
-- TELEMETRY_ALERT_RUNBOOK_URL and TELEMETRY_APPEAL_BACKLOG_SLA_HOURS.
pub record AlertEnv : Type 0 where
  pub webhook_url : Option (List ℕ)
  pub escalation_owner : Option (List ℕ)
  pub runbook_url : Option (List ℕ)
  pub appeal_backlog_sla_hours : Option (List ℕ)

unfoldable pub appeal_backlog_sla_hours : AlertEnv → ℕ
unfolding positive_or
appeal_backlog_sla_hours env = positive_or 24 env.appeal_backlog_sla_hours

-- `env?.trim()`, which is empty where nothing is left
abbrev pub trimmed : Option (List ℕ) → Option (List ℕ)
trimmed none = none
trimmed (some value) = some (trim value)

-- `!webhook`: unset, or nothing but white space
abbrev pub webhook_of : AlertEnv → Option (List ℕ)
webhook_of env = non_empty (get_or_else (trimmed env.webhook_url) [])

-- How the request to the webhook ends.
pub data Reply : Type 0 where
  answered : Bool → Reply
  failed : Reply

abbrev pub was_sent : Reply → Bool
was_sent (answered is_ok) = is_ok
was_sent failed = false

module _ (n : Numbers) where
  pub data AlertReason : Type 0 where
    severe_incidents : Option Ratio → AlertReason
    wait_over : Option n.Number → AlertReason
    appeal_backlog : ℕ → ℕ → AlertReason

  -- The payload by what stands in its texts.
  pub record AlertPayload : Type 0 where
    pub escalation_owner : List ℕ
    pub window_start : ℤ
    pub window_end : ℕ
    pub runbook_link : List ℕ
    pub reasons : List AlertReason
    pub wait_p90_seconds : Option n.Number
    pub severe_incident_per_10k : Option Ratio
    pub appeal_overturn_rate : Option Ratio

  pub record AlertReply : Type 0 where
    pub triggered : Bool
    pub reasons : List AlertReason
    pub sent : Bool

  unfoldable pub payload_of : AlertEnv → StageGateSnapshot n → List AlertReason → AlertPayload
  payload_of env s reasons = record {
    escalation_owner = get_or_else (trimmed env.escalation_owner) (codes "unassigned");
    window_start = s.window_start;
    window_end = s.window_end;
    runbook_link =
        get_or_else (trimmed env.runbook_url)
          (codes "docs/notes/incident-runbook.md#telemetry-outage-play");
    reasons = reasons;
    wait_p90_seconds = s.wait_p90_seconds;
    severe_incident_per_10k = s.severe_incident_per_10k;
    appeal_overturn_rate = s.appeal_overturn_rate;
  }

abbrev pub is_open_status : AppealStatus → Bool
is_open_status open_appeal = true
is_open_status _ = false

abbrev pub post : {A : Type 0} → Option (List ℕ) → Reply → A → Bool × Option A
post none reply payload = (false, none)
post (some url) reply payload = (was_sent reply, some payload)

abbrev pub reason_if : {A : Type 0} → Bool → A → List A
reason_if test r = if test then r ∷ [] else []

module _ {b : Servers} where
  abbrev pub mark_breach : World b → World b
  mark_breach w = record w {
    strings =
        b.strings.set_px w.now (wait_p90_sustain_ms * 2) wait_breach (decimal w.now) w.strings;
  }

  -- a breach that is over now, by what is stored of its start
  abbrev pub breach_since : Option Raw → World b → Bool × World b
  breach_since (some (decimal started)) w = (leb (started + wait_p90_sustain_ms) w.now, w)
  breach_since _ w = (false, mark_breach w)

  unfoldable pub is_sustained_wait_breach :
      (n : Numbers) → Option n.Number → World b → Bool × World b
  is_sustained_wait_breach n p90 w =
      if is_over n p90 wait_p90_threshold_seconds
      then breach_since (b.strings.get w.now wait_breach w.strings) w
      else (false, record w { strings = b.strings.del wait_breach w.strings })

  unfoldable pub get_appeal_backlog_breach_count : AlertEnv → World b → ℕ
  unfolding appeal_backlog_sla_hours
  get_appeal_backlog_breach_count env w =
      let sla_ms = appeal_backlog_sla_hours env * 60 * 60 * 1000 in
      b.appeals.count (λ a. is_open_status a.status && leb (a.created_at + sla_ms) w.now) w.appeals

  -- Whether the alert was sent, and what was posted.
  unfoldable pub send_auto_pause_alert :
      (n : Numbers)
      → AlertEnv
      → Reply
      → StageGateSnapshot n
      → List (AlertReason n)
      → World b
      → (Bool × Option (AlertPayload n)) × World b
  unfolding payload_of
  send_auto_pause_alert n env reply s reasons w =
      let (allowed, strings) =
        b.strings.set_nx w.now auto_pause_cooldown_ms alert_cooldown (decimal 1) w.strings in
      let w' = record w { strings = strings } in
      if allowed
      then (post (webhook_of env) reply (payload_of n env s reasons), w')
      else ((false, none), w')

  abbrev pub alert_if_any :
      (n : Numbers)
      → AlertEnv
      → Reply
      → StageGateSnapshot n
      → List (AlertReason n)
      → World b
      → (AlertReply n × Option (AlertPayload n)) × World b
  unfolding send_auto_pause_alert
  alert_if_any n env reply s [] w =
      ((record { triggered = false; reasons = []; sent = false }, none), w)
  alert_if_any n env reply s (r ∷ rs) w =
      let ((sent, posted), w') = send_auto_pause_alert n env reply s (r ∷ rs) w in
      ((record { triggered = true; reasons = r ∷ rs; sent = sent }, posted), w')

  unfoldable pub evaluate_and_alert :
      (n : Numbers)
      → AlertEnv
      → Reply
      → StageGateSnapshot n
      → World b
      → (AlertReply n × Option (AlertPayload n)) × World b
  unfolding is_sustained_wait_breach get_appeal_backlog_breach_count alert_if_any
      appeal_backlog_sla_hours
  evaluate_and_alert n env reply s w =
      let (sustained, w1) = is_sustained_wait_breach n s.wait_p90_seconds w in
      let backlog = get_appeal_backlog_breach_count env w1 in
      let reasons =
        reason_if (is_over_ratio s.severe_incident_per_10k severe_incident_threshold_per_10k)
          (severe_incidents s.severe_incident_per_10k)
        ++ (reason_if sustained (wait_over s.wait_p90_seconds)
            ++ reason_if (ltb 0 backlog) (appeal_backlog backlog (appeal_backlog_sla_hours env))) in
      alert_if_any n env reply s reasons w1
