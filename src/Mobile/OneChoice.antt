-- ===== src/Mobile/OneChoice.antt =====
-- The choices that verity-mobile/src/hooks/useDecision.ts sends.
use verity_backend.Prelude.{
  ℕ, ◌+◌, ◌≤◌, ◌≡◌, refl, Bool, true, false, not, ◌||◌, Option, none, some, suc, ◌==◌, is_some,
  if◌then◌else◌, arith, Bool-cases, inl, inr,
}
use verity_backend.Services.Redis.{Choice, pass}
use verity_backend.Mobile.Decision.{
  State, resolved, Answer, unreachable, replied, on_answer, AutoPass, no_timer, armed, fired, Reply,
  SocketPayload, DecisionResult, initial, is_ok, is_other, settled, submit_choice, on_reply,
  start_auto_pass, on_timer, handle_mutual, handle_rejected, Step, tap, show, time_out, answer,
  match_mutual, match_non_mutual, Reachable, start, then_step,
}

-- One request at most is under way or has been accepted, none where the hook takes a choice, and a
-- resolved choice has its result.
pub record IsSingle (s : State) : Type 0 where
  pub one : s.in_flight + s.accepted ≤ 1
  pub none_yet : s.submitted ≡ false → s.in_flight + s.accepted ≡ 0
  pub has_result : s.status ≡ resolved → is_some s.result ≡ true

initial-IsSingle : IsSingle initial
initial-IsSingle = record { one = omega arith; none_yet = λ h. refl; has_result = λ h. cc }

-- By cases on a test.
if-IsSingle :
    (t : Bool) (a c : State)
    → (t ≡ true → IsSingle a)
    → (t ≡ false → IsSingle c)
    → IsSingle (if t then a else c)
if-IsSingle true a c h k = h refl
if-IsSingle false a c h k = k refl

submit_choice-IsSingle :
    (session : ℕ) (next : Choice) (s : State) → IsSingle s → IsSingle (submit_choice session next s)
unfolding submit_choice
submit_choice-IsSingle session next s h =
    if-IsSingle (session == 0) _ _
      (λ e. record { one = h.one; none_yet = h.none_yet; has_result = h.has_result })
      λ e.
        if-IsSingle s.submitted _ _ (λ done. h)
          λ new. record {
            one = omega (arith, h.none_yet new);
            none_yet = λ x. cc;
            has_result = λ x. cc;
          }

shown : (t : AutoPass) (s : State) → IsSingle s → IsSingle (record s { timer = t })
shown t s h = record { one = h.one; none_yet = h.none_yet; has_result = h.has_result }

start_auto_pass-IsSingle : (s : State) → IsSingle s → IsSingle (start_auto_pass s)
unfolding start_auto_pass
start_auto_pass-IsSingle s h =
    elim s.timer
      as (λ t.
        IsSingle (elim t [ no_timer ↦ record s { timer = armed } | armed ↦ s | fired ↦ s ])) [
          | no_timer ↦ shown armed s h
          | armed ↦ h
          | fired ↦ h
        ]

on_timer-IsSingle : (session : ℕ) (s : State) → IsSingle s → IsSingle (on_timer session s)
unfolding on_timer
on_timer-IsSingle session s h =
    if-IsSingle s.submitted _ _ (λ done. shown fired s h)
      λ new. submit_choice-IsSingle session pass _ (shown fired s h)

settled-IsSingle :
    (body : Option DecisionResult) (s : State)
    → s.in_flight + s.accepted ≤ 1
    → (s.submitted ≡ false → s.in_flight + s.accepted ≡ 0)
    → IsSingle (settled body s)
settled-IsSingle none s one none_yet = record {
  one = one;
  none_yet = none_yet;
  has_result = λ x. cc;
}
settled-IsSingle (some r) s one none_yet = record {
  one = one;
  none_yet = none_yet;
  has_result = λ x. refl;
}

-- With a request under way the hook takes no other choice.
is_submitted : (n : ℕ) (s : State) → s.in_flight ≡ suc n → IsSingle s → s.submitted ≡ true
is_submitted n s e h = elim (Bool-cases s.submitted) [
  | inl t ↦ t
  | inr f ↦ absurd (nothing (h.none_yet f))
]
  where
    nothing : s.in_flight + s.accepted ≡ 0 → ⊥
    nothing z = omega arith

on_reply-IsSingle :
    (r : Reply) (n : ℕ) (s : State)
    → s.in_flight ≡ suc n
    → IsSingle s
    → IsSingle (on_reply r (record s { in_flight = n }))
unfolding on_reply
on_reply-IsSingle r n s e h =
    let busy = is_submitted n s e h in
    let alone : n + s.accepted ≡ 0 = omega (arith, e, h.one) in
    if-IsSingle (r.status == 401 || r.status == 403) _ _
      (λ t. record { one = omega (arith, alone); none_yet = λ x. cc; has_result = h.has_result })
      λ f.
        if-IsSingle (not (is_ok r)) _ _
          (λ t. record { one = omega (arith, alone); none_yet = λ x. alone; has_result = λ x. cc })
          λ g. settled-IsSingle r.body _ (omega (arith, alone)) (λ x. cc)

on_answer-IsSingle :
    (r : Answer) (n : ℕ) (s : State)
    → s.in_flight ≡ suc n
    → IsSingle s
    → IsSingle (on_answer r (record s { in_flight = n }))
unfolding on_answer
on_answer-IsSingle unreachable n s e h =
    let busy = is_submitted n s e h in
    record { one = omega (arith, e, h.one); none_yet = λ x. cc; has_result = h.has_result }
on_answer-IsSingle (replied r) n s e h = on_reply-IsSingle r n s e h

handle_mutual-IsSingle :
    (session : ℕ) (p : SocketPayload) (s : State)
    → IsSingle s
    → IsSingle (handle_mutual session p s)
unfolding handle_mutual
handle_mutual-IsSingle session p s h =
    if-IsSingle (is_other session p.session) _ _ (λ t. h)
      λ f. record { one = h.one; none_yet = h.none_yet; has_result = λ x. refl }

handle_rejected-IsSingle :
    (session : ℕ) (p : SocketPayload) (s : State)
    → IsSingle s
    → IsSingle (handle_rejected session p s)
unfolding handle_rejected
handle_rejected-IsSingle session p s h =
    if-IsSingle (is_other session p.session) _ _ (λ t. h)
      λ f. record { one = h.one; none_yet = h.none_yet; has_result = λ x. refl }

step-IsSingle : {session : ℕ} {s s' : State} → Step session s s' → IsSingle s → IsSingle s'
step-IsSingle {session} (tap next s) h = submit_choice-IsSingle session next s h
step-IsSingle (show s) h = start_auto_pass-IsSingle s h
step-IsSingle {session} (time_out s e) h = on_timer-IsSingle session s h
step-IsSingle (answer r n s e) h = on_answer-IsSingle r n s e h
step-IsSingle {session} (match_mutual p s) h = handle_mutual-IsSingle session p s h
step-IsSingle {session} (match_non_mutual p s) h = handle_rejected-IsSingle session p s h

-- Whatever the user, the timer, the network and the server do, and in any order: one choice of a
-- session at most is under way or accepted, none is while the hook takes one, and a resolved
-- choice has its result.
pub Reachable-IsSingle : (session : ℕ) (s : State) → Reachable session s → IsSingle s
Reachable-IsSingle session _ start = initial-IsSingle
Reachable-IsSingle session _ (then_step s s' r m) = step-IsSingle m (Reachable-IsSingle session s r)
