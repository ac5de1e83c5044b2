-- ===== src/Services/Numbers.antt =====
-- The finite numbers of JavaScript, as an interface: their order, which is total up to the sign
-- of zero, and the numerals of the code among them.
use verity_backend.Prelude.{ℕ, ◌≡◌, Bool, true, false, leb}

pub record Numbers : Type 1 where
  pub Number : Type 0
  -- `a <= b`
  pub le : Number → Number → Bool
  pub literal : ℕ → Number
  pub le_total : (x y : Number) → le x y ≡ false → le y x ≡ true
  pub le_trans : (x y z : Number) → le x y ≡ true → le y z ≡ true → le x z ≡ true
  pub le-literal : (m k : ℕ) → le (literal m) (literal k) ≡ leb m k
