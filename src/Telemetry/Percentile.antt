-- ===== src/Telemetry/Percentile.antt =====
-- `percentile` of src/telemetry/telemetry-metrics.service.ts. A rank is given in per cent: up to
-- 2 ^ 40 values, `Math.ceil(rank * n)` on doubles is the exact quotient rounded up for the ranks
-- 0.5, 0.9 and 0.95.
use verity_backend.Prelude.{
  ℕ, zero, suc, ◌+◌, ◌-◌, ◌*◌, ◌/◌, Option, none, some, List, [], ◌∷◌, leb, length, if◌then◌else◌,
}
use verity_backend.Services.Numbers.{Numbers}

abbrev pub get_elem? {ℓ} : {A : Type ℓ} → List A → ℕ → Option A
get_elem? [] i = none
get_elem? (x ∷ xs) zero = some x
get_elem? (x ∷ xs) (suc i) = get_elem? xs i

-- `Math.ceil(percent / 100 * size)`
abbrev pub ceil_rank : ℕ → ℕ → ℕ
ceil_rank percent size = (percent * size + 99) / 100

abbrev pub min_ℕ : ℕ → ℕ → ℕ
min_ℕ a c = if leb a c then a else c

-- `Math.max(0, …)` is what the subtraction does.
unfoldable pub index_at : ℕ → ℕ → ℕ
index_at percent size = min_ℕ (size - 1) (ceil_rank percent size - 1)

module _ (n : Numbers) where
  abbrev pub insert_number : n.Number → List n.Number → List n.Number
  insert_number x [] = x ∷ []
  insert_number x (y ∷ ys) = if n.le x y then x ∷ y ∷ ys else y ∷ insert_number x ys

  -- `sort((a, b) => a - b)`
  abbrev pub sort : List n.Number → List n.Number
  sort [] = []
  sort (x ∷ xs) = insert_number x (sort xs)

  unfoldable pub percentile : List n.Number → ℕ → Option n.Number
  unfolding index_at
  percentile [] percent = none
  percentile (x ∷ xs) percent =
      let sorted = sort (x ∷ xs) in get_elem? sorted (index_at percent (length sorted))
