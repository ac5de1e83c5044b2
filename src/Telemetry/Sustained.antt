-- ===== src/Telemetry/Sustained.antt =====
-- When a long wait is reported, and how often an alert goes out.
use verity_backend.Prelude.{
  ℕ, ◌+◌, ◌*◌, ◌≤◌, ◌<◌, ◌≡◌, refl, ◌∙◌, ◌⊎◌, inl, inr, Bool, true, false, Option, none, some, List,
  [], ◌∷◌, arith, Bool-cases, if◌then◌else◌,
}
use verity_backend.Services.Numbers.{Numbers}
use verity_backend.Services.Redis.{
  Raw, plain, decimal, queue_entry, session_state, decision, wait_breach, alert_cooldown,
  set_nx_fresh, set_nx_taken,
}
use verity_backend.World.{Servers, World}
use verity_backend.Telemetry.Gates.{is_over}
use verity_backend.Telemetry.Snapshot.{StageGateSnapshot}
use verity_backend.Telemetry.Alerts.{
  AlertEnv, Reply, AlertReason, wait_p90_threshold_seconds, wait_p90_sustain_ms,
  auto_pause_cooldown_ms, mark_breach, breach_since, is_sustained_wait_breach,
  send_auto_pause_alert,
}

-- The evaluations so far, the last one first: when each took place, and whether the wait was over
-- the threshold.
abbrev pub History : Type 0
History = List (ℕ × Bool)

-- The wait was over the threshold at an evaluation at the time s, and at each one since.
abbrev pub OverSince : ℕ → History → Type 0
OverSince s [] = ⊥
OverSince s ((t, over) ∷ h) = (over ≡ true) × ((t ≡ s) ⊎ OverSince s h)

gone : {o : Option Raw} {s : ℕ} → o ≡ none → o ≡ some (decimal s) → ⊥
gone p q = cc

reply-true :
    {S : Type 0} (test : Bool) (x y : Bool × S)
    → y.0 ≡ false
    → (if test then x else y).0 ≡ true
    → (test ≡ true) × (x.0 ≡ true)
reply-true true x y h e = (refl, e)
reply-true false x y h e = cc

module _ {b : Servers} where
  abbrev breach_at : ℕ → World b → Option Raw
  breach_at m w = b.strings.get m wait_breach w.strings

  -- The states that evaluations lead to, whatever else happens to the other keys between them.
  pub data Run (n : Numbers) : History → World b → Type 0 where
    start : {w : World b} → ((m : ℕ) → b.strings.get m wait_breach w.strings ≡ none) → Run n [] w
    evaluation :
        {h : History} {w : World b}
        → Run n h w
        → (p90 : Option n.Number)
        → Run n
            ((w.now, is_over n p90 wait_p90_threshold_seconds) ∷ h)
            (is_sustained_wait_breach n p90 w).1
    other :
        {h : History} {w w' : World b}
        → Run n h w
        → ((m : ℕ) → b.strings.get m wait_breach w'.strings ≡ b.strings.get m wait_breach w.strings)
        → Run n h w'

  -- What is stored is the time of an evaluation since which the wait was over the threshold.
  abbrev Marks : History → World b → Type 0
  Marks h w = (m s : ℕ) → breach_at m w ≡ some (decimal s) → OverSince s h

  mark_breach-Marks : (h : History) (w : World b) → Marks ((w.now, true) ∷ h) (mark_breach w)
  mark_breach-Marks h w m s e =
      let stored =
        b.strings.get-set_px w.now (wait_p90_sustain_ms * 2) m wait_breach wait_breach
          (decimal w.now) w.strings in
      (refl, inl (ground (arith, stored, e)))

  breach_since-Marks :
      (o : Option Raw) (h : History) (w : World b)
      → breach_at w.now w ≡ o
      → Marks h w
      → Marks ((w.now, true) ∷ h) (breach_since o w).1
  breach_since-Marks none h w e marks = mark_breach-Marks h w
  breach_since-Marks (some (decimal d)) h w e marks = λ m s found. (refl, inr (marks m s found))
  breach_since-Marks (some (plain t)) h w e marks = mark_breach-Marks h w
  breach_since-Marks (some (queue_entry x y)) h w e marks = mark_breach-Marks h w
  breach_since-Marks (some (session_state x y z u)) h w e marks = mark_breach-Marks h w
  breach_since-Marks (some (decision x y z u)) h w e marks = mark_breach-Marks h w

  evaluation-Marks :
      (n : Numbers) (p90 : Option n.Number) (h : History) (w : World b)
      → Marks h w
      → Marks
          ((w.now, is_over n p90 wait_p90_threshold_seconds) ∷ h)
          (is_sustained_wait_breach n p90 w).1
  unfolding is_sustained_wait_breach
  evaluation-Marks n p90 h w marks = elim (Bool-cases (is_over n p90 wait_p90_threshold_seconds)) [
    | inl e ↦ rw e (breach_since-Marks (breach_at w.now w) h w refl marks)
    | inr e ↦
        rw e
          (λ m s found. absurd (gone (b.strings.get-del m wait_breach wait_breach w.strings) found))
  ]

  Run-Marks : {n : Numbers} {h : History} {w : World b} → Run n h w → Marks h w
  Run-Marks (start clear) m s e = absurd (gone (clear m) e)
  Run-Marks (evaluation r p90) m s e = evaluation-Marks _ p90 _ _ (Run-Marks r) m s e
  Run-Marks (other r same) m s e = Run-Marks r m s (cc (same m, e))

  breach_since-true :
      (o : Option Raw) (w : World b)
      → (breach_since o w).0 ≡ true
      → (s : ℕ) × (o ≡ some (decimal s)) × (s + wait_p90_sustain_ms ≤ w.now)
  breach_since-true none w e = cc
  breach_since-true (some (decimal d)) w e = (d, refl, ground arith)
  breach_since-true (some (plain t)) w e = cc
  breach_since-true (some (queue_entry x y)) w e = cc
  breach_since-true (some (session_state x y z u)) w e = cc
  breach_since-true (some (decision x y z u)) w e = cc

  -- A long wait is reported only where the wait is over the threshold now, and was so at an
  -- evaluation at least two hours ago and at each one since.
  pub is_sustained_wait_breach-OverSince :
      (n : Numbers) (p90 : Option n.Number) (h : History) (w : World b)
      → Run n h w
      → (is_sustained_wait_breach n p90 w).0 ≡ true
      → (is_over n p90 wait_p90_threshold_seconds ≡ true)
        × ((s : ℕ) × (s + wait_p90_sustain_ms ≤ w.now) × OverSince s h)
  unfolding is_sustained_wait_breach
  is_sustained_wait_breach-OverSince n p90 h w r e =
      let (over, reported) =
        reply-true (is_over n p90 wait_p90_threshold_seconds) (breach_since (breach_at w.now w) w)
          (false, record w { strings = b.strings.del wait_breach w.strings }) refl e in
      let (s, stored, passed) = breach_since-true (breach_at w.now w) w reported in
      (over, (s, passed, Run-Marks r w.now s stored))

  -- After an alert has been tried, none is posted for fifteen minutes.
  pub send_auto_pause_alert-send_auto_pause_alert :
      (n : Numbers) (env env' : AlertEnv) (reply reply' : Reply) (shot shot' : StageGateSnapshot n)
      (reasons reasons' : List (AlertReason n)) (w w' : World b)
      → b.strings.get w.now alert_cooldown w.strings ≡ none
      → b.strings.get w'.now alert_cooldown w'.strings
        ≡ b.strings.get w'.now alert_cooldown
            (send_auto_pause_alert n env reply shot reasons w).1.strings
      → w'.now < w.now + auto_pause_cooldown_ms
      → send_auto_pause_alert n env' reply' shot' reasons' w' ≡ ((false, none), w')
  unfolding send_auto_pause_alert
  send_auto_pause_alert-send_auto_pause_alert n env env' reply reply' shot shot' reasons reasons' w
        w' free same soon =
      let cooling : b.strings.get w'.now alert_cooldown
            (send_auto_pause_alert n env reply shot reasons w).1.strings
          ≡ some (decimal 1) =
        rw
          (
            set_nx_fresh b.strings w.now auto_pause_cooldown_ms alert_cooldown (decimal 1) w.strings
                free,
            send_auto_pause_alert,
          )
          (ground (
            arith,
            b.strings.get-set_px w.now auto_pause_cooldown_ms w'.now alert_cooldown alert_cooldown
                (decimal 1) w.strings,
          )) in
      rw (
        set_nx_taken b.strings w'.now auto_pause_cooldown_ms alert_cooldown (decimal 1) w'.strings
            (same ∙ cooling),
        send_auto_pause_alert,
      )
