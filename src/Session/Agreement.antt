-- ===== src/Session/Agreement.antt =====
-- Two submitted choices: `submitChoice` of src/session/session.service.ts.
use verity_backend.Prelude.{
  ℕ, ◌+◌, ◌<◌, ◌≡◌, refl, ap, ◌∙◌, inl, inr, true, Option, none, some, arith, ◌==◌,
}
use verity_backend.Exec.{Result, ok, Exec, >>=-eq-ok, gets}
use verity_backend.Services.Redis.{
  Raw, decision_of, choice_deadline, Choice, truthy, plain, to_iso, get-set_nx_ne,
}
use verity_backend.Schema.{Session}
use verity_backend.World.{Servers, World}
use verity_backend.Session.Decision.{
  ChoiceResult, pending, mutual_match, non_mutual, resolved, read_stored_decision,
  parse_stored_decision,
}
use verity_backend.Session.Lifecycle.{ensure_choice_deadline, choice_window_ms, choice_state_ttl_ms}
use verity_backend.Session.Finalize.{enrich_choice_result}
use verity_backend.Session.Choices.{
  evaluate_choices, record_choice, enriched, submit_once, choose, stored_or, is_participant,
  submit_choice,
}
use verity_backend.Session.Once.{IsOpen, Lasting, read-Lasting}
use verity_backend.Session.Ended.{ended_mark, now-ensure_choice_deadline}
use verity_backend.Session.Kept.{now-record_choice, Settled, evaluate-Settled}

abbrev pub IsDecided : ChoiceResult → Type 0
IsDecided (pending _) = ⊥
IsDecided _ = Unit

-- A result with no profile.
abbrev pub bare : ChoiceResult → ChoiceResult
bare (mutual_match m _) = mutual_match m none
bare r = r

parse-IsBare :
    (raw : Option Raw) (r : ChoiceResult) → parse_stored_decision raw ≡ resolved r → bare r ≡ r
unfolding parse_stored_decision
parse-IsBare raw (pending d) h = refl
parse-IsBare raw non_mutual h = refl
parse-IsBare none (mutual_match m reveal) h = cc
parse-IsBare (some raw) (mutual_match m reveal) h = ground arith

module _ {b : Servers} where
  Lasting-bare : (id : ℕ) (w : World b) (r : ChoiceResult) → Lasting id r w → bare r ≡ r
  Lasting-bare id w r h =
      parse-IsBare (b.strings.get w.now (decision_of id) w.strings) r (h w.now (omega arith))

  bare-enrich :
      (r : ChoiceResult) (s : Session) (user : ℕ) (w : World b)
      → bare (enrich_choice_result r s user w) ≡ bare r
  unfolding enrich_choice_result
  bare-enrich (pending t) s user w = refl
  bare-enrich (mutual_match m old) s user w = ground arith
  bare-enrich non_mutual s user w = refl

  IsDecided-enrich :
      (r : ChoiceResult) (s : Session) (user : ℕ) (w : World b)
      → IsDecided (enrich_choice_result r s user w)
      → IsDecided r
  unfolding enrich_choice_result
  IsDecided-enrich (pending t) s user w h = h
  IsDecided-enrich (mutual_match m old) s user w h = tt
  IsDecided-enrich non_mutual s user w h = tt

  enriched_ok :
      (s : Session) (user : ℕ) (m : Exec (World b) ChoiceResult) (w w' : World b) (r : ChoiceResult)
      → enriched s user m w ≡ (ok r, w')
      → (r0 : ChoiceResult) × (m w ≡ (ok r0, w')) × (r ≡ enrich_choice_result r0 s user w')
  enriched_ok s user m w w' r e =
      let (r0, v, first, last) = >>=-eq-ok m (λ x. gets (enrich_choice_result x s user)) w w' r e in
      (r0, cc (first, last), ground (arith, last))

  decision-ensure :
      (id : ℕ) (w : World b)
      → (b.strings.get
            (ensure_choice_deadline id w).1.now
            (decision_of id)
            (ensure_choice_deadline id w).1.strings
          ≡ b.strings.get w.now (decision_of id) w.strings)
  unfolding ensure_choice_deadline
  decision-ensure id w = ground (
    arith,
    get-set_nx_ne b.strings w.now choice_state_ttl_ms w.now (choice_deadline id) (decision_of id)
        (plain (to_iso (w.now + choice_window_ms))) w.strings,
  )

  IsOpen-ensure : (id : ℕ) (w : World b) → IsOpen id w → IsOpen id (ensure_choice_deadline id w).1
  unfolding read_stored_decision
  IsOpen-ensure id w (inl h) = inl (decision-ensure id w ∙ h)
  IsOpen-ensure id w (inr (text, d, h)) =
      inr (text, d, ap parse_stored_decision (decision-ensure id w) ∙ h)

  IsOpen-record :
      (id user : ℕ) (c : Choice) (d : Option ℕ) (w : World b)
      → IsOpen id w
      → IsOpen id (record_choice id user c d w).1
  unfolding record_choice read_stored_decision
  IsOpen-record id user c none w h = h
  IsOpen-record id user c (some d) w h = h

  -- A choice that is answered has been weighed in a world that keeps the session.
  abbrev Weighed : Session → ℕ → World b → World b → ChoiceResult → Type 0
  Weighed s user w w' r =
      (r0 : ChoiceResult) × (w2 : World b) × (r ≡ enrich_choice_result r0 s user w')
      × Settled s w2 w' r0
      × w2.now ≡ w.now

  evaluated :
      (s : Session) (user : ℕ) (d : Option ℕ) (u w w' : World b) (r : ChoiceResult)
      → IsOpen s.id w
      → w.now ≡ u.now
      → enriched s user (evaluate_choices s d) w ≡ (ok r, w')
      → Weighed s user u w' r
  evaluated s user d u w w' r h k e =
      let (r0, first, same) = enriched_ok s user (evaluate_choices s d) w w' r e in
      (r0, w, same, evaluate-Settled s d w w' r0 h first, k)

  submit_once-Weighed :
      (s : Session) (user : ℕ) (c : Choice) (d : Option ℕ) (o : Option Choice) (w w' : World b)
      (r : ChoiceResult)
      → IsOpen s.id w
      → submit_once s user c d o w ≡ (ok r, w')
      → Weighed s user w w' r
  unfolding submit_once
  submit_once-Weighed s user c d (some _) w w' r h e = evaluated s user d w w w' r h refl e
  submit_once-Weighed s user c d none w w' r h e =
      let (_, v, first, rest) =
        >>=-eq-ok (record_choice s.id user c d) (λ _. enriched s user (evaluate_choices s d)) w w' r
          e in
      let same : (record_choice s.id user c d w).1 ≡ v =
        ap (λ (p : Result (Unit {0}) × World b). p.1) first in
      evaluated s user d w v w' r (rw (← same) (IsOpen-record s.id user c d w h))
        (rw (← same) (now-record_choice s.id user c d w)) rest

  choose-Weighed :
      (s : Session) (user : ℕ) (c : Choice) (w w' : World b) (r : ChoiceResult)
      → IsOpen s.id w
      → choose s user c w ≡ (ok r, w')
      → Weighed s user w w' r
  unfolding choose
  choose-Weighed s user c w w' r h e =
      let w1 = (ensure_choice_deadline s.id w).1 in
      let (r0, w2, same, settled, k) =
        submit_once-Weighed s user c (ensure_choice_deadline s.id w).0 _ w1 w' r
          (IsOpen-ensure s.id w h) e in
      (r0, w2, same, settled, k ∙ now-ensure_choice_deadline s.id w)

  -- The world after a decided result.
  abbrev Done : Session → World b → World b → ChoiceResult → Type 0
  Done s w w' r = (w'.now ≡ w.now) × Lasting s.id (bare r) w'

  stored_bare :
      (s : Session) (user : ℕ) (w w2 w' : World b) (r r0 : ChoiceResult)
      → r ≡ enrich_choice_result r0 s user w'
      → (w'.now ≡ w2.now) × Lasting s.id r0 w'
      → w2.now ≡ w.now
      → Done s w w' r
  stored_bare s user w w2 w' r r0 same settled k = (
    settled.0 ∙ k,
    rw (ap bare same ∙ bare-enrich r0 s user w' ∙ Lasting-bare s.id w' r0 settled.1) settled.1,
  )

  Weighed-Done :
      (s : Session) (user : ℕ) (w w2 w' : World b) (r r0 : ChoiceResult)
      → IsDecided r
      → r ≡ enrich_choice_result r0 s user w'
      → Settled s w2 w' r0
      → w2.now ≡ w.now
      → Done s w w' r
  Weighed-Done s user w w2 w' r (pending t) d same settled k =
      absurd (IsDecided-enrich (pending t) s user w' (rw (← same) d))
  Weighed-Done s user w w2 w' r (mutual_match m old) d same settled k =
      stored_bare s user w w2 w' r (mutual_match m old) same settled k
  Weighed-Done s user w w2 w' r non_mutual d same settled k =
      stored_bare s user w w2 w' r non_mutual same settled k

  stored_or-open :
      (s : Session) (user : ℕ) (c : Choice) (w : World b)
      → b.strings.get w.now (decision_of s.id) w.strings ≡ none
      → stored_or (read_stored_decision s.id w) s user c w ≡ choose s user c w
  unfolding read_stored_decision parse_stored_decision
  stored_or-open s user c w h = rw (h, parse_stored_decision)

  submitted :
      (s : Session) (user : ℕ) (c : Choice) (w w' : World b) (r : ChoiceResult)
      → b.sessions.find_first (λ x. x.id == s.id) w.sessions ≡ some s
      → b.strings.get w.now (decision_of s.id) w.strings ≡ none
      → submit_choice s.id user c w ≡ (ok r, w')
      → (truthy (ended_mark s.id w) ≡ true) × (choose s user c w ≡ (ok r, w'))
  unfolding submit_choice
  submitted s user c w w' r found h e = ground (arith, stored_or-open s user c w h)

  submit-decided :
      (s : Session) (user : ℕ) (c : Choice) (w : World b) (r : ChoiceResult)
      → b.sessions.find_first (λ x. x.id == s.id) w.sessions ≡ some s
      → is_participant s user ≡ true
      → truthy (ended_mark s.id w) ≡ true
      → read_stored_decision s.id w ≡ resolved r
      → submit_choice s.id user c w ≡ (ok (enrich_choice_result r s user w), w)
  unfolding submit_choice
  submit-decided s user c w r found part ended h = ground arith

  -- When a user of a session with no decision yet has been told an outcome, then for two hours,
  -- as long as nothing else writes the decision, the users of the session are told the same
  -- outcome whatever they submit, each with the profile of the partner, and nothing is changed,
  -- while the session is there and marked as ended.
  pub partners_agree :
      (s : Session) (user other : ℕ) (x y : Choice) (w w' v : World b) (r : ChoiceResult)
      → b.sessions.find_first (λ x. x.id == s.id) w.sessions ≡ some s
      → b.strings.get w.now (decision_of s.id) w.strings ≡ none
      → IsDecided r
      → submit_choice s.id user x w ≡ (ok r, w')
      → v.now < w.now + 7_200_000
      → b.strings.get v.now (decision_of s.id) v.strings
        ≡ b.strings.get v.now (decision_of s.id) w'.strings
      → b.sessions.find_first (λ x. x.id == s.id) v.sessions ≡ some s
      → truthy (ended_mark s.id v) ≡ true
      → is_participant s other ≡ true
      → submit_choice s.id other y v ≡ (ok (enrich_choice_result (bare r) s other v), v)
  partners_agree s user other x y w w' v r found h d e soon kept there ended part =
      let (_, chosen) = submitted s user x w w' r found h e in
      let (r0, w2, same, settled, k) = choose-Weighed s user x w w' r (inl h) chosen in
      let (clock, lasting) = Weighed-Done s user w w2 w' r r0 d same settled k in
      submit-decided s other y v (bare r) there part ended
        (read-Lasting s.id (bare r) w' v lasting (ground (arith, soon, clock)) kept)
