-- ===== src/Telemetry/Gates.antt =====
-- The status of each stage and the reasons to pause: `stage0Status`, `stage1Status`,
-- `stage2Status` and the reasons in `computeAndPersistSnapshot` of
-- src/telemetry/telemetry-metrics.service.ts.
use verity_backend.Prelude.{
  ℕ, Bool, false, not, ◌&&◌, Option, none, some, List, [], ◌∷◌, ◌++◌, if◌then◌else◌,
}
use verity_backend.Services.Numbers.{Numbers}
use verity_backend.Telemetry.Metrics.{Ratio, is_at_most, is_at_least, Metrics}

-- `StageStatus`
pub data StageStatus : Type 0 where
  green amber red : StageStatus

pub data PauseReason : Type 0 where
  severe_incidents_over_5_per_10k wait_p90_over_150s : PauseReason

abbrev pub push_if : Bool → PauseReason → List PauseReason
push_if test r = if test then r ∷ [] else []

abbrev pub is_over_ratio : Option Ratio → ℕ → Bool
is_over_ratio none limit = false
is_over_ratio (some r) limit = not (is_at_most r limit 1)

module _ (n : Numbers) where
  unfoldable pub stage0_status : Option n.Number → StageStatus
  stage0_status none = amber
  stage0_status (some latency) = if n.le latency (n.literal 2000) then green else red

  unfoldable pub stage1_status :
      Option n.Number → Option n.Number → Option Ratio → Option Ratio → StageStatus
  stage1_status (some p50) (some p90) (some abandonment) (some severe) =
      if n.le p50 (n.literal 30)
        && n.le p90 (n.literal 90)
        && is_at_most abandonment 15 100
        && is_at_most severe 3 1
      then green
      else red
  stage1_status _ _ _ _ = amber

  unfoldable pub stage2_status : Option Ratio → Option Ratio → Option Ratio → StageStatus
  stage2_status (some completion) (some match_rate) (some chat) =
      if is_at_least completion 85 100
        && is_at_least match_rate 12 100
        && is_at_most match_rate 35 100
        && is_at_least chat 6 10
      then amber
      else red
  stage2_status _ _ _ = amber

  abbrev pub is_over : Option n.Number → ℕ → Bool
  is_over none limit = false
  is_over (some x) limit = not (n.le x (n.literal limit))

  unfoldable pub auto_pause_reasons : Metrics n → List PauseReason
  auto_pause_reasons m =
      push_if (is_over_ratio m.severe_incident_per_10k 5) severe_incidents_over_5_per_10k
      ++ push_if (is_over m.wait_p90_seconds 150) wait_p90_over_150s
