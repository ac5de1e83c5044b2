-- ===== src/Mobile/Consistent.antt =====
-- The reachable states of the store of verity-mobile/src/hooks/useQueue.ts.
use verity_backend.Prelude.{
  ℕ, ◌≡◌, ◌≢◌, refl, subst, Bool, true, Option, none, some, List, [], ◌∷◌, ◌++◌, is_some, All,
}
use verity_backend.Mobile.Waiting.{
  Status, idle, joining, waiting, matched, Leaving, State, reset, set_match, handle_match,
  handle_estimate, handle_status, handle_queue_disconnect, mark_token_spent, ask_to_join,
  join_queue, JoinReply, join_unreachable, join_failed, join_ok, on_join_reply, ask_to_leave,
  leave_queue, LeaveReply, on_leave_reply, Step, tap_join, join_reply, tap_leave, leave_reply,
  found_match, estimate, searching, disconnect, spent, cleared, Reachable, start, then_step,
}

-- A match that is shown is there, and what is left was not idle.
pub record IsConsistent (s : State) : Type 0 where
  pub matched_with : s.status ≡ matched → is_some s.found ≡ true
  pub left : All (λ l. l.status ≢ idle) s.leaves

joined-IsConsistent : (s : State) → IsConsistent s → IsConsistent (ask_to_join s)
joined-IsConsistent s h = record { matched_with = λ e. cc; left = h.left }

join_queue-IsConsistent : (s : State) → IsConsistent s → IsConsistent (join_queue s)
unfolding join_queue
join_queue-IsConsistent s h =
    elim s.status
      as (λ t.
        IsConsistent
          (elim t [ idle ↦ ask_to_join s | joining ↦ s | waiting ↦ s | matched ↦ ask_to_join s ])) [
            | idle ↦ joined-IsConsistent s h
            | joining ↦ h
            | waiting ↦ h
            | matched ↦ joined-IsConsistent s h
          ]

on_join_reply-IsConsistent :
    (r : JoinReply) (n : ℕ) (s : State)
    → IsConsistent s
    → IsConsistent (on_join_reply r (record s { joins = n }))
unfolding on_join_reply
on_join_reply-IsConsistent join_unreachable n s h = record {
  matched_with = h.matched_with;
  left = h.left;
}
on_join_reply-IsConsistent join_failed n s h = record { matched_with = λ e. cc; left = h.left }
on_join_reply-IsConsistent (join_ok key) n s h = record { matched_with = λ e. cc; left = h.left }

All-append-one :
    (ls : List Leaving) (l : Leaving)
    → All (λ x. x.status ≢ idle) ls
    → l.status ≢ idle
    → All (λ x. x.status ≢ idle) (ls ++ l ∷ [])
All-append-one [] l h k = (k, tt)
All-append-one (x ∷ xs) l (y, h) k = (y, All-append-one xs l h k)

leave_queue-as :
    (t : Status) (s : State)
    → s.status ≡ t
    → IsConsistent s
    → IsConsistent (elim t [
      | idle ↦ record s { refunds = s.refunds ++ Bool.false ∷ [] }
      | joining ↦ ask_to_leave s
      | waiting ↦ ask_to_leave s
      | matched ↦ ask_to_leave s
    ])
leave_queue-as idle s e h = record { matched_with = h.matched_with; left = h.left }
leave_queue-as joining s e h = record {
  matched_with = h.matched_with;
  left = All-append-one s.leaves _ h.left (λ z. cc (e, z));
}
leave_queue-as waiting s e h = record {
  matched_with = h.matched_with;
  left = All-append-one s.leaves _ h.left (λ z. cc (e, z));
}
leave_queue-as matched s e h = record {
  matched_with = h.matched_with;
  left = All-append-one s.leaves _ h.left (λ z. cc (e, z));
}

leave_queue-IsConsistent : (s : State) → IsConsistent s → IsConsistent (leave_queue s)
unfolding leave_queue
leave_queue-IsConsistent s h = leave_queue-as s.status s refl h

reset-IsConsistent : (s : State) → All (λ l. l.status ≢ idle) s.leaves → IsConsistent (reset s)
reset-IsConsistent s h = record { matched_with = λ e. cc; left = h }

All-without :
    (before after : List Leaving) (l : Leaving)
    → All (λ x. x.status ≢ idle) (before ++ l ∷ after)
    → All (λ x. x.status ≢ idle) (before ++ after)
All-without [] after l (k, h) = h
All-without (x ∷ xs) after l (k, h) = (k, All-without xs after l h)

on_leave_reply-IsConsistent :
    (l : Leaving) (before after : List Leaving) (r : Option LeaveReply) (s : State)
    → s.leaves ≡ before ++ l ∷ after
    → IsConsistent s
    → IsConsistent (on_leave_reply l r (record s { leaves = before ++ after }))
unfolding on_leave_reply
on_leave_reply-IsConsistent l before after none s e h = record {
  matched_with = h.matched_with;
  left = All-without before after l (subst (All (λ (x : Leaving). x.status ≢ idle)) e h.left);
}
on_leave_reply-IsConsistent l before after (some r) s e h = record {
  matched_with = λ x. cc;
  left = All-without before after l (subst (All (λ (x : Leaving). x.status ≢ idle)) e h.left);
}

step-IsConsistent : {s s' : State} → Step s s' → IsConsistent s → IsConsistent s'
unfolding handle_match set_match handle_estimate handle_status handle_queue_disconnect
    mark_token_spent
step-IsConsistent (tap_join s) h = join_queue-IsConsistent s h
step-IsConsistent (join_reply r n s e) h = on_join_reply-IsConsistent r n s h
step-IsConsistent (tap_leave s) h = leave_queue-IsConsistent s h
step-IsConsistent (leave_reply l before after r s e) h =
    on_leave_reply-IsConsistent l before after r s e h
step-IsConsistent (found_match p s) h = record { matched_with = λ e. refl; left = h.left }
step-IsConsistent (estimate seconds s) h = record { matched_with = h.matched_with; left = h.left }
step-IsConsistent (searching count s) h = record { matched_with = h.matched_with; left = h.left }
step-IsConsistent (disconnect s) h = record { matched_with = h.matched_with; left = h.left }
step-IsConsistent (spent t s) h = record { matched_with = h.matched_with; left = h.left }
step-IsConsistent (cleared s) h = reset-IsConsistent s h.left

-- Whatever the user and the server do, in any order: the app shows a match only where it has one,
-- and asks to leave the queue only from a place.
pub Reachable-IsConsistent : (s : State) → Reachable s → IsConsistent s
Reachable-IsConsistent _ start = record { matched_with = λ e. cc; left = tt }
Reachable-IsConsistent _ (then_step s s' r m) = step-IsConsistent m (Reachable-IsConsistent s r)

-- A join whose request fails in the network is shown for ever: to join again does nothing.
pub join_queue-unreachable :
    (n : ℕ) (s : State)
    → s.status ≡ joining
    → (join_queue (on_join_reply join_unreachable (record s { joins = n }))
        ≡ on_join_reply join_unreachable (record s { joins = n }))
      × ((on_join_reply join_unreachable (record s { joins = n })).status ≡ joining)
unfolding join_queue on_join_reply
join_queue-unreachable n s e = (rw e refl, e)
