-- ===== src/Session/Finalize.antt =====
-- The outcome of a session: `finalizeDecision` and what it calls in
-- src/session/session.service.ts.
use verity_backend.Prelude.{
  ℕ, Bool, true, false, ◌&&◌, Option, none, some, List, [], ◌∷◌, ltb, ◌==◌, if◌then◌else◌,
}
use verity_backend.Exec.{Result, ok, err, Exec, ◌>>=◌, missing_match_id}
use verity_backend.Services.Redis.{decision_of, Choice, match, pass}
use verity_backend.Schema.{
  Session, PartnerReveal, Event, Output, track, emit, notify, match_mutual, match_non_mutual,
  push_match_mutual,
}
use verity_backend.World.{Servers, World, send, clear_timer}
use verity_backend.Matches.Reveal.{build_partner_reveal}
use verity_backend.Session.Decision.{
  ChoiceResult, mutual_match, non_mutual, StoredDecision, resolved, waiting, encode,
  read_stored_decision,
}
use verity_backend.Session.Lifecycle.{choice_state_ttl_ms}

unfoldable pub canonical_pair : ℕ → ℕ → ℕ × ℕ
canonical_pair a c = if ltb a c then (a, c) else (c, a)

abbrev pub both_match : Choice → Choice → Bool
both_match match match = true
both_match _ _ = false

abbrev pub both_pass : Choice → Choice → Bool
both_pass pass pass = true
both_pass _ _ = false

abbrev pub partner_of : Session → ℕ → Option ℕ
partner_of s user =
    if s.user_a == user then some s.user_b else if s.user_b == user then some s.user_a else none

abbrev pub result_messages : Session → Bool → Bool → Bool → List Output
result_messages s is_mutual passed has_match =
    track s.user_a (Event.choice_resolved s.id is_mutual has_match)
    ∷ track s.user_a (Event.session_result s.id is_mutual passed has_match)
    ∷ track s.user_b (Event.choice_resolved s.id is_mutual has_match)
    ∷ track s.user_b (Event.session_result s.id is_mutual passed has_match)
    ∷ []

abbrev pub is_mutual : ChoiceResult → Bool
is_mutual (mutual_match _ _) = true
is_mutual _ = false

module _ {b : Servers} where
  unfoldable pub build_partner_reveal_for_user : Session → ℕ → World b → Option PartnerReveal
  unfolding build_partner_reveal
  build_partner_reveal_for_user s user w = elim (partner_of s user) [
    | none ↦ none
    | some partner ↦
        if partner == 0 then none else (elim (b.users.find_first (λ u. u.id == partner) w.users) [
          | none ↦ none
          | some u ↦ some (build_partner_reveal u)
        ])
  ]

  unfoldable pub enrich_choice_result : ChoiceResult → Session → ℕ → World b → ChoiceResult
  enrich_choice_result (mutual_match m old) s user w =
      elim (build_partner_reveal_for_user s user w) [
        | none ↦ mutual_match m old
        | some reveal ↦ mutual_match m (some reveal)
      ]
  enrich_choice_result r s user w = r

  -- `match.upsert` with an empty update, on the canonical pair
  unfoldable pub upsert_match : ℕ → ℕ → World b → ℕ × World b
  upsert_match low high w =
      elim (b.matches.find_first (λ m. m.user_a == low && m.user_b == high) w.matches) [
        | some m ↦ (m.id, w)
        | none ↦
            let (m, created) =
              b.matches.create
                (λ id. record {
                  id = id;
                  created_at = w.now;
                  user_a = low;
                  user_b = high;
                  ack_a = none;
                  ack_b = none;
                })
                w.matches in
            (m.id, record w { matches = created })
      ]

  -- The payload of a decision; for a mutual one the match is made first.
  unfoldable pub decide : Session → Choice → Choice → Exec (World b) ChoiceResult
  unfolding upsert_match canonical_pair
  decide s choice_a choice_b w =
      if both_match choice_a choice_b
      then (let (low, high) = canonical_pair s.user_a s.user_b in
          let (id, w') = upsert_match low high w in
          if id == 0 then (err missing_match_id, w') else (ok (mutual_match id none), w'))
      else (ok non_mutual, w)

  abbrev pub write_decision : ℕ → ChoiceResult → World b → World b
  write_decision id payload w = record w {
    strings =
        b.strings.set_px w.now choice_state_ttl_ms (decision_of id) (encode payload) w.strings;
  }

  -- The write when a decision was not stored: `some r` where another one stands.
  abbrev pub yield_to : StoredDecision → ℕ → ChoiceResult → World b → Option ChoiceResult × World b
  yield_to (resolved r) id payload w = (some r, w)
  yield_to (waiting _ _) id payload w = (none, write_decision id payload w)
  yield_to _ id payload w = (none, w)

  abbrev pub store_new : ℕ → ChoiceResult → World b → Option ChoiceResult × World b
  store_new id payload w =
      let (stored, strings) =
        b.strings.set_nx w.now choice_state_ttl_ms (decision_of id) (encode payload) w.strings in
      if stored
      then (none, record w { strings = strings })
      else yield_to (read_stored_decision id w) id payload w

  unfoldable pub store_decision :
      StoredDecision → ℕ → ChoiceResult → World b → Option ChoiceResult × World b
  store_decision (waiting _ _) id payload w = (none, write_decision id payload w)
  store_decision _ id payload w = store_new id payload w

  abbrev pub mutual_message : Session → ℕ → ℕ → World b → Output
  mutual_message s id user w =
      emit user (match_mutual s.id id (build_partner_reveal_for_user s user w))

  -- `emitMatchMutual` with the push notification, or `emitMatchNonMutual`
  abbrev pub outcome_messages : Session → ChoiceResult → World b → List Output
  outcome_messages s (mutual_match id _) w =
      if w.server_ready
      then mutual_message s id s.user_a w
        ∷ mutual_message s id s.user_b w
        ∷ notify (s.user_a ∷ s.user_b ∷ []) (push_match_mutual s.id id)
        ∷ []
      else notify (s.user_a ∷ s.user_b ∷ []) (push_match_mutual s.id id) ∷ []
  outcome_messages s _ w =
      if w.server_ready
      then emit s.user_a (match_non_mutual s.id) ∷ emit s.user_b (match_non_mutual s.id) ∷ []
      else []

  -- What `finalizeDecision` sends and clears after its decision has been stored.
  unfoldable pub announce : Session → Choice → Choice → ChoiceResult → World b → World b
  announce s choice_a choice_b payload w =
      let counted =
        send
          (result_messages s (is_mutual payload) (both_pass choice_a choice_b) (is_mutual payload))
          w in
      let told = send (outcome_messages s payload counted) counted in
      record told { choice_timers = clear_timer s.id told.choice_timers }

  unfoldable pub conclude :
      Session
      → Choice
      → Choice
      → ChoiceResult
      → Option ChoiceResult × World b
      → Result ChoiceResult × World b
  conclude s choice_a choice_b payload (some r, w) = (ok r, w)
  conclude s choice_a choice_b payload (none, w) =
      (ok payload, announce s choice_a choice_b payload w)

  unfoldable pub settle : Session → Choice → Choice → StoredDecision → Exec (World b) ChoiceResult
  unfolding store_decision conclude
  settle s choice_a choice_b existing = do
    payload ← decide s choice_a choice_b
    λ w. conclude s choice_a choice_b payload (store_decision existing s.id payload w)

  unfoldable pub finalize_decision : Session → Choice → Choice → Exec (World b) ChoiceResult
  finalize_decision s choice_a choice_b w = elim (read_stored_decision s.id w) [
    | resolved r ↦ (ok r, w)
    | other ↦ settle s choice_a choice_b other w
  ]
