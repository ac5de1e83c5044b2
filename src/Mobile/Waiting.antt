-- ===== src/Mobile/Waiting.antt =====
-- The store of verity-mobile/src/hooks/useQueue.ts: a place in the queue, from the join to the match. A
-- request and its reply are two steps, between which other steps may come.
use verity_backend.Prelude.{
  ℕ, ◌≡◌, Bool, true, false, not, ◌&&◌, Option, none, some, List, [], ◌∷◌, ◌++◌, suc, trim, codes,
  get_or_else,
}
use verity_backend.Queue.City.{non_empty}

pub data Status : Type 0 where
  idle joining waiting matched : Status

pub record MatchPayload : Type 0 where
  pub session : Option ℕ
  pub partner : Option ℕ
  pub partner_anonymous : Option ℕ
  pub queue_key : Option ℕ

-- What `leaveQueue` read before its request.
pub record Leaving : Type 0 where
  pub status : Status
  pub token_spent : Bool

-- `joins` counts the joins without a reply yet, and `leaves` holds the leaves without one; `refunds`
-- are the results of the leaves.
pub record State : Type 0 where
  pub status : Status
  pub estimated_seconds : Option ℕ
  pub found : Option MatchPayload
  pub token_spent : Bool
  pub users_searching : Option ℕ
  pub queue_key : Option ℕ
  pub joins : ℕ
  pub leaves : List Leaving
  pub refunds : List Bool

-- `reset`, and the store at first
abbrev pub reset : State → State
reset s = record s {
  status = idle;
  estimated_seconds = none;
  found = none;
  token_spent = false;
  users_searching = none;
  queue_key = none;
}

abbrev pub initial : State
initial = record {
  status = idle;
  estimated_seconds = none;
  found = none;
  token_spent = false;
  users_searching = none;
  queue_key = none;
  joins = 0;
  leaves = [];
  refunds = [];
}

-- The region of a join, by `toLowerCase` and the default of the environment.
unfoldable pub resolve_queue_region : (List ℕ → List ℕ) → List ℕ → Option (List ℕ) → List ℕ
resolve_queue_region lower_case default region =
    get_or_else (non_empty (lower_case (trim (get_or_else region default)))) (codes "au")

unfoldable pub set_match : MatchPayload → State → State
set_match p s = record s {
  found = some p;
  status = matched;
  estimated_seconds = none;
  users_searching = none;
  queue_key = p.queue_key;
}

abbrev pub or_partner : Option ℕ → Option ℕ → Option ℕ
or_partner none partner = partner
or_partner (some anonymous) partner = some anonymous

-- `handleMatch`
unfoldable pub handle_match : MatchPayload → State → State
unfolding set_match
handle_match p s =
    set_match (record p { partner_anonymous = or_partner p.partner_anonymous p.partner }) s

-- `handleEstimate`, for the number that a message holds
unfoldable pub handle_estimate : Option ℕ → State → State
handle_estimate seconds s = record s { estimated_seconds = seconds }

unfoldable pub handle_status : Option ℕ → State → State
handle_status count s = record s { users_searching = count }

unfoldable pub handle_queue_disconnect : State → State
handle_queue_disconnect s = record s { estimated_seconds = none; users_searching = none }

unfoldable pub mark_token_spent : Bool → State → State
mark_token_spent spent s = record s { token_spent = spent }

abbrev pub ask_to_join : State → State
ask_to_join s = record s { status = joining; users_searching = none; joins = suc s.joins }

-- `joinQueue`, until its request
unfoldable pub join_queue : State → State
join_queue s = elim s.status [
  | idle ↦ ask_to_join s
  | joining ↦ s
  | waiting ↦ s
  | matched ↦ ask_to_join s
]

-- What comes of a join: nothing, where `fetch` throws, a failure, or the key of the queue.
pub data JoinReply : Type 0 where
  join_unreachable join_failed : JoinReply
  join_ok : Option ℕ → JoinReply

unfoldable pub on_join_reply : JoinReply → State → State
on_join_reply join_unreachable s = s
on_join_reply join_failed s = record s { status = idle }
on_join_reply (join_ok key) s = record s { status = waiting; queue_key = key }

abbrev pub ask_to_leave : State → State
ask_to_leave s = record s {
  leaves = s.leaves ++ record { status = s.status; token_spent = s.token_spent } ∷ [];
}

-- `leaveQueue`, until its request; without a place there is nothing to leave
unfoldable pub leave_queue : State → State
leave_queue s = elim s.status [
  | idle ↦ record s { refunds = s.refunds ++ false ∷ [] }
  | joining ↦ ask_to_leave s
  | waiting ↦ ask_to_leave s
  | matched ↦ ask_to_leave s
]

abbrev pub is_matched : Status → Bool
is_matched idle = false
is_matched joining = false
is_matched waiting = false
is_matched matched = true

-- Whether the reply is a success, and the refund that it names.
pub record LeaveReply : Type 0 where
  pub is_ok : Bool
  pub refunded : Option Bool

-- The result of `leaveQueue`: whether the app counts the token as given back.
unfoldable pub refund_of : Leaving → LeaveReply → Bool
refund_of l r = r.is_ok && l.token_spent && not (is_matched l.status) && get_or_else r.refunded true

-- `none` where `fetch` throws
unfoldable pub on_leave_reply : Leaving → Option LeaveReply → State → State
unfolding refund_of
on_leave_reply l none s = s
on_leave_reply l (some r) s = reset (record s { refunds = s.refunds ++ refund_of l r ∷ [] })

-- The steps of the store; a reply wants a request.
pub data Step : State → State → Type 0 where
  tap_join : (s : State) → Step s (join_queue s)
  join_reply :
      (r : JoinReply) (n : ℕ) (s : State)
      → s.joins ≡ suc n
      → Step s (on_join_reply r (record s { joins = n }))
  tap_leave : (s : State) → Step s (leave_queue s)
  leave_reply :
      (l : Leaving) (before after : List Leaving) (r : Option LeaveReply) (s : State)
      → s.leaves ≡ before ++ l ∷ after
      → Step s (on_leave_reply l r (record s { leaves = before ++ after }))
  found_match : (p : MatchPayload) (s : State) → Step s (handle_match p s)
  estimate : (seconds : Option ℕ) (s : State) → Step s (handle_estimate seconds s)
  searching : (count : Option ℕ) (s : State) → Step s (handle_status count s)
  disconnect : (s : State) → Step s (handle_queue_disconnect s)
  spent : (t : Bool) (s : State) → Step s (mark_token_spent t s)
  cleared : (s : State) → Step s (reset s)

pub data Reachable : State → Type 0 where
  start : Reachable initial
  then_step : (s s' : State) → Reachable s → Step s s' → Reachable s'
