-- ===== src/Session/Once.antt =====
-- The stored decision, and `finalizeDecision` of src/session/session.service.ts.
use verity_backend.Prelude.{ℕ, ◌≡◌, refl, ap, ◌∙◌, ◌+◌, ◌<◌, ◌⊎◌, inl, inr, none, some, arith}
use verity_backend.Exec.{Exception, Result, ok, err}
use verity_backend.Services.Redis.{decision_of, Choice, key_eq_refl, set_nx_fresh}
use verity_backend.Schema.{Session}
use verity_backend.World.{Servers, World}
use verity_backend.Session.Decision.{
  ChoiceResult, pending, mutual_match, non_mutual, StoredDecision, resolved, waiting,
  parse_stored_decision, encode, read_stored_decision,
}
use verity_backend.Session.Lifecycle.{choice_state_ttl_ms}
use verity_backend.Session.Finalize.{
  decide, write_decision, store_decision, announce, conclude, settle, finalize_decision,
}

-- What is stored of a result: not the partner's profile.
abbrev pub IsBare : ChoiceResult → Type 0
IsBare (pending _) = ⊥
IsBare (mutual_match _ reveal) = reveal ≡ none
IsBare non_mutual = Unit

-- A stored decision without a profile is read as it was written.
pub parse-encode :
    (r : ChoiceResult) → IsBare r → parse_stored_decision (some (encode r)) ≡ resolved r
unfolding parse_stored_decision
parse-encode (pending d) h = absurd h
parse-encode (mutual_match m reveal) h = ground arith
parse-encode non_mutual h = refl

module _ {b : Servers} where
  -- Nothing is stored for the session, or a result that still waits.
  abbrev pub IsOpen : ℕ → World b → Type 0
  IsOpen id w =
      (b.strings.get w.now (decision_of id) w.strings ≡ none)
      ⊎ ((text d : ℕ) × (read_stored_decision id w ≡ waiting text d))

  -- What is read at a time of the decision.
  abbrev pub decision_at : ℕ → ℕ → World b → StoredDecision
  decision_at id t w = parse_stored_decision (b.strings.get t (decision_of id) w.strings)

  -- For two hours the decision is read as the result.
  abbrev pub Lasting : ℕ → ChoiceResult → World b → Type 0
  Lasting id r w = (t : ℕ) → t < w.now + 7_200_000 → decision_at id t w ≡ resolved r

  Lasting-write :
      (id : ℕ) (r : ChoiceResult) (w : World b) → IsBare r → Lasting id r (write_decision id r w)
  Lasting-write id r w h t soon =
      ap parse_stored_decision (
        b.strings.get-set_px w.now choice_state_ttl_ms t (decision_of id) (decision_of id)
          (encode r) w.strings
        ∙ rw (key_eq_refl (decision_of id)) (ground (arith, soon)))
      ∙ parse-encode r h

  decide-IsBare :
      (s : Session) (x y : Choice) (w : World b) (r : ChoiceResult)
      → (decide s x y w).0 ≡ ok r
      → IsBare r
  unfolding decide
  decide-IsBare s x y w (pending d) e = ground arith
  decide-IsBare s x y w (mutual_match m reveal) e = ground arith
  decide-IsBare s x y w non_mutual e = tt

  pub decide-strings :
      (s : Session) (x y : Choice) (w : World b)
      → ((decide s x y w).1.strings ≡ w.strings) × ((decide s x y w).1.now ≡ w.now)
  unfolding decide
  decide-strings s x y w = ground arith

  store_decision_lem :
      (id : ℕ) (r : ChoiceResult) (w : World b) (o : StoredDecision)
      → read_stored_decision id w ≡ o
      → IsOpen id w
      → store_decision o id r w ≡ (none, write_decision id r w)
  unfolding store_decision read_stored_decision parse_stored_decision
  store_decision_lem id r w (waiting text d) e h = refl
  store_decision_lem id r w o e (inl h) = rw (set_nx_fresh b.strings _ _ _ _ _ h)
  store_decision_lem id r w o e (inr (text, d, h)) = cc

  Lasting-announce :
      (s : Session) (x y : Choice) (r : ChoiceResult) (w : World b)
      → Lasting s.id r w
      → Lasting s.id r (announce s x y r w)
  unfolding announce
  Lasting-announce s x y r w h = h

  read-cong :
      (id : ℕ) (w w' : World b)
      → w'.strings ≡ w.strings
      → w'.now ≡ w.now
      → read_stored_decision id w' ≡ read_stored_decision id w
  unfolding read_stored_decision
  read-cong id w w' p q = cc

  pub IsOpen-cong :
      (id : ℕ) (w w' : World b)
      → w'.strings ≡ w.strings
      → w'.now ≡ w.now
      → IsOpen id w
      → IsOpen id w'
  IsOpen-cong id w w' p q (inl h) = inl (cc)
  IsOpen-cong id w w' p q (inr (text, d, h)) = inr (text, d, read-cong id w w' p q ∙ h)

  pub decide-pair :
      (s : Session) (x y : Choice) (w w' : World b) (r : Result ChoiceResult)
      → decide s x y w ≡ (r, w')
      → (w'.strings ≡ w.strings) × (w'.now ≡ w.now)
  decide-pair s x y w w' r e =
      let eq : (decide s x y w).1 ≡ w' = ap (λ (d : Result ChoiceResult × World b). d.1) e in
      rw (← eq) (decide-strings s x y w)

  pub settle_ok :
      (s : Session) (x y : Choice) (w w' : World b) (r : ChoiceResult)
      → IsOpen s.id w
      → decide s x y w ≡ (ok r, w')
      → settle s x y (read_stored_decision s.id w) w
        ≡ (ok r, announce s x y r (write_decision s.id r w'))
  unfolding settle
  settle_ok s x y w w' r h e =
      let (same, clock) = decide-pair s x y w w' (ok r) e in
      let stored =
        store_decision_lem s.id r w' (read_stored_decision s.id w) (read-cong s.id w w' same clock)
          (IsOpen-cong s.id w w' same clock h) in
      rw (e, settle) (ap (conclude s x y r) stored)

  settle_err :
      (s : Session) (x y : Choice) (w w' : World b) (o : StoredDecision) (c : Exception)
      → decide s x y w ≡ (err c, w')
      → settle s x y o w ≡ (err c, w')
  unfolding settle
  settle_err s x y w w' o c e = rw (e, settle)

  pub finalize-open :
      (s : Session) (x y : Choice) (w : World b)
      → IsOpen s.id w
      → finalize_decision s x y w ≡ settle s x y (read_stored_decision s.id w) w
  unfolding finalize_decision read_stored_decision parse_stored_decision
  finalize-open s x y w (inl h) = rw (h, finalize_decision)
  finalize-open s x y w (inr (text, d, h)) = rw (h, finalize_decision)

  pub finalize-resolved :
      (s : Session) (x y : Choice) (w : World b) (r : ChoiceResult)
      → read_stored_decision s.id w ≡ resolved r
      → finalize_decision s x y w ≡ (ok r, w)
  unfolding finalize_decision
  finalize-resolved s x y w r h = rw (h, finalize_decision)

  -- What a call that finalizes an open session has done.
  pub finalize_ok :
      (s : Session) (x y : Choice) (w : World b) (p : Result ChoiceResult × World b)
      → IsOpen s.id w
      → decide s x y w ≡ p
      → (r : ChoiceResult) (w' : World b) → finalize_decision s x y w ≡ (ok r, w')
      → (w1 : World b) × (decide s x y w ≡ (ok r, w1))
        × (w' ≡ announce s x y r (write_decision s.id r w1))
  finalize_ok s x y w (ok r1, w1) h d r w' e =
      let f = finalize-open s x y w h ∙ settle_ok s x y w w1 r1 h d in (w1, cc (f, d, e), cc (f, e))
  finalize_ok s x y w (err c, w1) h d r w' e =
      cc (finalize-open s x y w h, settle_err s x y w w1 (read_stored_decision s.id w) c d, e)

  pub finalize-Lasting :
      (s : Session) (x y : Choice) (w w' : World b) (r : ChoiceResult)
      → IsOpen s.id w
      → finalize_decision s x y w ≡ (ok r, w')
      → (w'.now ≡ w.now) × Lasting s.id r w'
  unfolding announce
  finalize-Lasting s x y w w' r h e =
      let (w1, d, same) = finalize_ok s x y w (decide s x y w) h refl r w' e in
      let (_, clock) = decide-pair s x y w w1 (ok r) d in
      rw same (
        clock,
        Lasting-announce s x y r (write_decision s.id r w1)
            (Lasting-write s.id r w1 (decide-IsBare s x y w r (rw d))),
      )

  -- A world in which the decision is as another one left it reads it as it lasts.
  pub read-Lasting :
      (id : ℕ) (r : ChoiceResult) (w' v : World b)
      → Lasting id r w'
      → v.now < w'.now + 7_200_000
      → b.strings.get v.now (decision_of id) v.strings
        ≡ b.strings.get v.now (decision_of id) w'.strings
      → read_stored_decision id v ≡ resolved r
  unfolding read_stored_decision
  read-Lasting id r w' v h soon kept = ap parse_stored_decision kept ∙ h v.now soon

  -- A decision that is taken while none is stored stands for two hours, as long as nothing else
  -- writes it: whoever finalizes the session, with any choices, is given the same decision and
  -- changes nothing.
  pub finalize-finalize :
      (s : Session) (x y x' y' : Choice) (w w' v : World b) (r : ChoiceResult)
      → IsOpen s.id w
      → finalize_decision s x y w ≡ (ok r, w')
      → v.now < w.now + 7_200_000
      → b.strings.get v.now (decision_of s.id) v.strings
        ≡ b.strings.get v.now (decision_of s.id) w'.strings
      → finalize_decision s x' y' v ≡ (ok r, v)
  finalize-finalize s x y x' y' w w' v r h e soon kept =
      let (clock, lasting) = finalize-Lasting s x y w w' r h e in
      finalize-resolved s x' y' v r
        (read-Lasting s.id r w' v lasting (ground (arith, soon, clock)) kept)
