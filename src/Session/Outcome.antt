-- ===== src/Session/Outcome.antt =====
-- What the outcome of a session says of the choices.
use verity_backend.Prelude.{
  ℕ, ◌≡◌, refl, ◌⊎◌, Bool, true, false, Option, none, some, arith, ◌||◌, ◌&&◌,
}
use verity_backend.Exec.{ok}
use verity_backend.Services.Redis.{Choice, match}
use verity_backend.Schema.{Session}
use verity_backend.World.{Servers, World}
use verity_backend.Session.Decision.{ChoiceResult, pending, mutual_match, non_mutual}
use verity_backend.Session.Finalize.{both_match, decide, finalize_decision}
use verity_backend.Session.Choices.{is_pass, is_match, or_pass, is_over, evaluate_choices, weigh}
use verity_backend.Session.Once.{IsOpen, finalize_ok}

-- What each result says of the two choices at the time of the evaluation.
abbrev pub Explains : Option Choice → Option Choice → Bool → ChoiceResult → Type 0
Explains x y over (mutual_match _ _) = (x ≡ some match) × (y ≡ some match)
Explains x y over non_mutual =
    ((is_pass x || is_pass y) ≡ true) ⊎ ((over ≡ true) × ((is_match x && is_match y) ≡ false))
Explains x y over (pending _) =
    ((is_pass x || is_pass y) ≡ false) × ((is_match x && is_match y) ≡ false) × (over ≡ false)

-- The kind of a decision by the two choices that it is taken on.
abbrev pub DecidedOn : Choice → Choice → ChoiceResult → Type 0
DecidedOn x y (mutual_match _ _) = both_match x y ≡ true
DecidedOn x y non_mutual = both_match x y ≡ false
DecidedOn x y (pending _) = ⊥

module _ {b : Servers} where
  abbrev pub choice_by : Session → ℕ → World b → Option Choice
  choice_by s user w = b.choices.hget w.now s.id user w.choices

  decide-DecidedOn :
      (s : Session) (x y : Choice) (w : World b) (r : ChoiceResult)
      → (decide s x y w).0 ≡ ok r
      → DecidedOn x y r
  unfolding decide
  decide-DecidedOn s x y w (pending d) e = ground arith
  decide-DecidedOn s x y w (mutual_match m reveal) e = ground arith
  decide-DecidedOn s x y w non_mutual e = ground arith

  pub finalize-DecidedOn :
      (s : Session) (x y : Choice) (w w' : World b) (r : ChoiceResult)
      → IsOpen s.id w
      → finalize_decision s x y w ≡ (ok r, w')
      → DecidedOn x y r
  finalize-DecidedOn s x y w w' r h e =
      let (w1, d, _) = finalize_ok s x y w (decide s x y w) h refl r w' e in
      decide-DecidedOn s x y w r (rw d)

  -- The result of a call that finalizes an open session on two choices.
  abbrev Final : Session → World b → World b → ChoiceResult → Choice → Choice → Type 0
  Final s w w' r x y = finalize_decision s x y w ≡ (ok r, w') → DecidedOn x y r

  weigh-Explains :
      (s : Session) (deadline : Option ℕ) (x y : Option Choice) (w w' : World b) (r : ChoiceResult)
      → Final s w w' r (or_pass x) (or_pass y)
      → weigh s deadline x y w ≡ (ok r, w')
      → Explains x y (is_over w.now deadline) r
  unfolding weigh
  weigh-Explains s none x y w w' (pending t) f e = ground arith
  weigh-Explains s (some d) x y w w' (pending t) f e = ground arith
  weigh-Explains s deadline x y w w' (mutual_match m reveal) f e = ground arith
  weigh-Explains s deadline x y w w' non_mutual f e = ground arith

  -- While no decision is stored, a mutual result means that both users chose MATCH, a non-mutual
  -- one that one of them passed or that the time ran out before both matched, and a pending one
  -- that none of this is so.
  pub evaluate-Explains :
      (s : Session) (deadline : Option ℕ) (w w' : World b) (r : ChoiceResult)
      → IsOpen s.id w
      → evaluate_choices s deadline w ≡ (ok r, w')
      → Explains (choice_by s s.user_a w) (choice_by s s.user_b w) (is_over w.now deadline) r
  unfolding evaluate_choices
  evaluate-Explains s deadline w w' r h e =
      weigh-Explains s deadline _ _ w w' r (finalize-DecidedOn s _ _ w w' r h) e
