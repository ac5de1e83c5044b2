-- ===== src/Session/Decision.antt =====
-- The decision of a session as it is stored and read back: `ChoiceResult`, `parseStoredDecision`
-- and `readStoredDecision` of src/session/session.service.ts.
use verity_backend.Prelude.{ℕ, Bool, false, ◌&&◌, Option, none, some, ◌==◌, if◌then◌else◌}
use verity_backend.Services.Redis.{
  Scalar, undefined, str, Raw, decision, decision_of, truthy, parse_iso,
}
use verity_backend.Schema.{PartnerReveal}
use verity_backend.World.{Servers, World}

-- A pending result carries the text of its deadline, a mutual one the match and, for the user
-- that asked, the partner's profile.
pub data ChoiceResult : Type 0 where
  pending : ℕ → ChoiceResult
  mutual_match : ℕ → Option PartnerReveal → ChoiceResult
  non_mutual : ChoiceResult

pub data StoredDecision : Type 0 where
  nothing invalid : StoredDecision
  resolved : ChoiceResult → StoredDecision
  waiting : ℕ → ℕ → StoredDecision

-- The texts 'resolved', 'pending', 'mutual' and 'non_mutual' by their numbers.
abbrev pub resolved_text : ℕ
resolved_text = 2

abbrev pub pending_text : ℕ
pending_text = 4

abbrev pub mutual_text : ℕ
mutual_text = 6

abbrev pub non_mutual_text : ℕ
non_mutual_text = 8

-- `value === text` and `typeof value === 'string'`
abbrev pub is_text : ℕ → Scalar → Bool
is_text t (str n) = n == t
is_text t _ = false

abbrev pub text_of : Scalar → Option ℕ
text_of (str n) = some n
text_of _ = none

abbrev pending_of : Option ℕ → StoredDecision
pending_of none = invalid
pending_of (some text) = elim (parse_iso text) [ none ↦ invalid | some d ↦ waiting text d ]

-- the tests in their order: mutual, non_mutual, pending
abbrev classify : Scalar → Scalar → Option ℕ → Option ℕ → StoredDecision
classify status outcome none deadline =
    if is_text resolved_text status && is_text non_mutual_text outcome
    then resolved non_mutual
    else if is_text pending_text status
    then pending_of deadline
    else invalid
classify status outcome (some m) deadline =
    if is_text resolved_text status && is_text mutual_text outcome
    then resolved (mutual_match m none)
    else if is_text resolved_text status && is_text non_mutual_text outcome
    then resolved non_mutual
    else if is_text pending_text status
    then pending_of deadline
    else invalid

unfoldable pub parse_stored_decision : Option Raw → StoredDecision
parse_stored_decision none = nothing
parse_stored_decision (some (decision status outcome match_id deadline)) =
    classify status outcome (text_of match_id) (text_of deadline)
parse_stored_decision (some raw) = if truthy (some raw) then invalid else nothing

-- `JSON.stringify` of a result
abbrev pub encode : ChoiceResult → Raw
encode (pending d) = decision (str pending_text) undefined undefined (str d)
encode (mutual_match m _) = decision (str resolved_text) (str mutual_text) (str m) undefined
encode non_mutual = decision (str resolved_text) (str non_mutual_text) undefined undefined

module _ {b : Servers} where
  unfoldable pub read_stored_decision : ℕ → World b → StoredDecision
  read_stored_decision session w =
      parse_stored_decision (b.strings.get w.now (decision_of session) w.strings)
