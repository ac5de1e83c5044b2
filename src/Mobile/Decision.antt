-- ===== src/Mobile/Decision.antt =====
-- `useDecision` of verity-mobile/src/hooks/useDecision.ts: the choice after a session. A step is a
-- tap, the timer, the reply to a request, or a message of the server.
use verity_backend.Prelude.{
  ℕ, ◌≡◌, Bool, true, false, not, ◌&&◌, ◌||◌, Option, none, some, List, [], ◌∷◌, ◌++◌, suc, ◌==◌,
  leb, if◌then◌else◌,
}
use verity_backend.Services.Redis.{Choice, pass}
use verity_backend.Schema.{PartnerReveal}

pub data Outcome : Type 0 where
  both rejected : Outcome

pub record DecisionResult : Type 0 where
  pub outcome : Outcome
  pub match_id : Option ℕ
  pub partner_reveal_version : Option ℕ
  pub partner_reveal : Option PartnerReveal

abbrev pub rejection : DecisionResult
rejection = record {
  outcome = rejected;
  match_id = none;
  partner_reveal_version = none;
  partner_reveal = none;
}

pub data Status : Type 0 where
  idle submitting waiting resolved : Status

-- `timerRef`: no timer, a timer of a minute, or one that has fired.
pub data AutoPass : Type 0 where
  no_timer armed fired : AutoPass

-- What the user is told, and the logout.
pub data Notice : Type 0 where
  session_missing session_expired submission_failed log_out : Notice

-- `in_flight` counts the requests without a reply yet, and `accepted` those with a good one.
pub record State : Type 0 where
  pub choice : Option Choice
  pub status : Status
  pub result : Option DecisionResult
  pub submitted : Bool
  pub timer : AutoPass
  pub notices : List Notice
  pub in_flight : ℕ
  pub accepted : ℕ

abbrev pub initial : State
initial = record {
  choice = none;
  status = idle;
  result = none;
  submitted = false;
  timer = no_timer;
  notices = [];
  in_flight = 0;
  accepted = 0;
}

-- The reply to a request: its status, and its body where it is resolved.
pub record Reply : Type 0 where
  pub status : ℕ
  pub body : Option DecisionResult

-- What comes of a request: nothing, where `fetch` throws, or its reply.
pub data Answer : Type 0 where
  unreachable : Answer
  replied : Reply → Answer

abbrev pub is_ok : Reply → Bool
is_ok r = leb 200 r.status && leb r.status 299

-- A message about a session, or about none.
pub record SocketPayload : Type 0 where
  pub session : Option ℕ
  pub match_id : Option ℕ
  pub partner_reveal_version : Option ℕ
  pub partner_reveal : Option PartnerReveal

-- of a body, the fields of a match only where it is mutual
abbrev pub result_as : Outcome → DecisionResult → DecisionResult
result_as both r = r
result_as rejected r = rejection

abbrev pub result_of : DecisionResult → DecisionResult
result_of r = result_as r.outcome r

abbrev pub tell : List Notice → State → State
tell ns s = record s { notices = s.notices ++ ns }

abbrev pub sending : Choice → State → State
sending next s = record s {
  submitted = true;
  status = submitting;
  choice = some next;
  in_flight = suc s.in_flight;
}

-- `submitChoice`, until its request; the number of the session is 0 where there is none
unfoldable pub submit_choice : ℕ → Choice → State → State
submit_choice session next s =
    if session == 0
    then tell (session_missing ∷ []) s
    else if s.submitted
    then s
    else sending next s

abbrev pub settled : Option DecisionResult → State → State
settled none s = record s { status = waiting }
settled (some r) s = record s { result = some (result_of r); status = resolved }

-- `submitChoice`, from its reply on
unfoldable pub on_reply : Reply → State → State
on_reply r s =
    if r.status == 401 || r.status == 403
    then tell (session_expired ∷ log_out ∷ []) s
    else if not (is_ok r)
    then tell (submission_failed ∷ []) (record s { submitted = false; status = idle })
    else settled r.body (record s { accepted = suc s.accepted })

-- an exception of `fetch` goes out of `submitChoice`
unfoldable pub on_answer : Answer → State → State
unfolding on_reply
on_answer unreachable s = s
on_answer (replied r) s = on_reply r s

unfoldable pub start_auto_pass : State → State
start_auto_pass s = elim s.timer [ no_timer ↦ record s { timer = armed } | armed ↦ s | fired ↦ s ]

unfoldable pub on_timer : ℕ → State → State
unfolding submit_choice
on_timer session s =
    let s' = record s { timer = fired } in if s.submitted then s' else submit_choice session pass s'

-- whether a message is for another session
abbrev pub is_other : ℕ → Option ℕ → Bool
is_other session none = false
is_other session (some other) = not (session == 0) && not (other == 0) && not (other == session)

unfoldable pub handle_mutual : ℕ → SocketPayload → State → State
handle_mutual session p s = if is_other session p.session then s else record s {
  result = some (record {
    outcome = both;
    match_id = p.match_id;
    partner_reveal_version = p.partner_reveal_version;
    partner_reveal = p.partner_reveal;
  });
  status = resolved;
}

unfoldable pub handle_rejected : ℕ → SocketPayload → State → State
handle_rejected session p s =
    if is_other session p.session
    then s
    else record s { result = some rejection; status = resolved }

-- The steps of the app, for a session; a reply wants a request.
pub data Step (session : ℕ) : State → State → Type 0 where
  tap : (next : Choice) (s : State) → Step session s (submit_choice session next s)
  show : (s : State) → Step session s (start_auto_pass s)
  time_out : (s : State) → s.timer ≡ armed → Step session s (on_timer session s)
  answer :
      (r : Answer) (n : ℕ) (s : State)
      → s.in_flight ≡ suc n
      → Step session s (on_answer r (record s { in_flight = n }))
  match_mutual : (p : SocketPayload) (s : State) → Step session s (handle_mutual session p s)
  match_non_mutual : (p : SocketPayload) (s : State) → Step session s (handle_rejected session p s)

pub data Reachable (session : ℕ) : State → Type 0 where
  start : Reachable session initial
  then_step : (s s' : State) → Reachable session s → Step session s s' → Reachable session s'
