-- ===== src/Prelude/Int.antt =====
-- Integers over the native numbers; `negsuc n` is -(n + 1).
use Prim.Native.Nat.{ℕ, ◌+◌, ◌-◌}
use mathlib.Core.Bool.{Bool, false}
use verity_backend.Prelude.Tests.{leb, ltb, if◌then◌else◌}

pub data ℤ : Type 0 where
  pos negsuc : ℕ → ℤ

-- `a - c`
abbrev pub minus : ℕ → ℕ → ℤ
minus a c = if leb c a then pos (a - c) else negsuc (c - a - 1)

-- `i - c`
abbrev pub less : ℤ → ℕ → ℤ
less (pos a) c = minus a c
less (negsuc a) c = negsuc (a + c)

-- `i > k`
abbrev pub exceeds : ℤ → ℕ → Bool
exceeds (pos a) k = ltb k a
exceeds (negsuc a) k = false

-- `i < -k`
abbrev pub is_under : ℤ → ℕ → Bool
is_under (pos a) k = false
is_under (negsuc a) k = leb k a
