-- ===== src/Session/Kept.antt =====
-- What of the state a submitted choice touches: lemmas on src/session/session.service.ts.
use verity_backend.Prelude.{ℕ, ◌≡◌, refl, Option, none, some, arith}
use verity_backend.Exec.{ok}
use verity_backend.Services.Redis.{Choice}
use verity_backend.Schema.{Session}
use verity_backend.World.{Servers, World}
use verity_backend.Session.Decision.{ChoiceResult, pending, mutual_match, non_mutual}
use verity_backend.Session.Finalize.{finalize_decision}
use verity_backend.Session.Choices.{or_pass, weigh, evaluate_choices, record_choice}
use verity_backend.Session.Once.{IsOpen, Lasting, finalize-Lasting}
use verity_backend.Session.Outcome.{DecidedOn, finalize-DecidedOn}

module _ {b : Servers} where
  pub now-record_choice :
      (id user : ℕ) (c : Choice) (d : Option ℕ) (w : World b)
      → (record_choice id user c d w).1.now ≡ w.now
  unfolding record_choice
  now-record_choice id user c none w = refl
  now-record_choice id user c (some d) w = refl

  -- A decided result is stored for two hours, and a pending one changes nothing.
  abbrev pub Settled : Session → World b → World b → ChoiceResult → Type 0
  Settled s w w' (pending t) = w' ≡ w
  Settled s w w' r = (w'.now ≡ w.now) × Lasting s.id r w'

  weigh-Settled :
      (s : Session) (deadline : Option ℕ) (x y : Option Choice) (w w' : World b) (r : ChoiceResult)
      → (finalize_decision s (or_pass x) (or_pass y) w ≡ (ok r, w')
          → DecidedOn (or_pass x) (or_pass y) r)
      → (finalize_decision s (or_pass x) (or_pass y) w ≡ (ok r, w')
          → (w'.now ≡ w.now) × Lasting s.id r w')
      → weigh s deadline x y w ≡ (ok r, w')
      → Settled s w w' r
  unfolding weigh
  weigh-Settled s none x y w w' (pending t) f g e = ground arith
  weigh-Settled s (some d) x y w w' (pending t) f g e = ground arith
  weigh-Settled s deadline x y w w' (mutual_match m reveal) f g e = g (ground arith)
  weigh-Settled s deadline x y w w' non_mutual f g e = g (ground arith)

  -- While no decision is stored, an evaluation that leaves the choice pending changes nothing,
  -- and one that decides stores its decision for two hours.
  pub evaluate-Settled :
      (s : Session) (deadline : Option ℕ) (w w' : World b) (r : ChoiceResult)
      → IsOpen s.id w
      → evaluate_choices s deadline w ≡ (ok r, w')
      → Settled s w w' r
  unfolding evaluate_choices
  evaluate-Settled s deadline w w' r h e =
      weigh-Settled s deadline _ _ w w' r (finalize-DecidedOn s _ _ w w' r h)
        (finalize-Lasting s _ _ w w' r h) e
