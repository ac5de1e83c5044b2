-- ===== src/Telemetry/Rank.antt =====
-- The rank that `percentile` of src/telemetry/telemetry-metrics.service.ts picks.
use verity_backend.Prelude.{
  ℕ, zero, suc, ◌+◌, ◌-◌, ◌*◌, ◌/◌, ◌≤◌, ◌<◌, ◌≡◌, refl, subst, ap, inl, inr, Bool, true, not, some,
  List, [], ◌∷◌, arith, length, All, Bool-cases, if◌then◌else◌,
}
use verity_backend.Services.Numbers.{Numbers}
use verity_backend.Telemetry.Percentile.{
  get_elem?, min_ℕ, index_at, insert_number, sort, percentile,
}

abbrev pub count {ℓ} : {A : Type ℓ} → (A → Bool) → List A → ℕ
count p [] = 0
count p (x ∷ xs) = (if p x then 1 else 0) + count p xs

module _ (n : Numbers) where
  count-insert_number :
      (p : n.Number → Bool) (x : n.Number) (ys : List n.Number)
      → count p (insert_number n x ys) ≡ count p (x ∷ ys)
  count-insert_number p x [] = refl
  count-insert_number p x (y ∷ ys) = ground (arith, count-insert_number p x ys)

  count-sort : (p : n.Number → Bool) (xs : List n.Number) → count p (sort n xs) ≡ count p xs
  count-sort p [] = refl
  count-sort p (x ∷ xs) = omega (arith, count-insert_number p x (sort n xs), count-sort p xs)

  length-insert_number :
      (x : n.Number) (ys : List n.Number) → length (insert_number n x ys) ≡ length ys + 1
  length-insert_number x [] = omega arith
  length-insert_number x (y ∷ ys) = ground (arith, length-insert_number x ys)

  length-sort : (xs : List n.Number) → length (sort n xs) ≡ length xs
  length-sort [] = refl
  length-sort (x ∷ xs) = omega (arith, length-insert_number x (sort n xs), length-sort xs)

  abbrev IsSorted : List n.Number → Type 0
  IsSorted [] = Unit
  IsSorted (x ∷ xs) = All (λ y. n.le x y ≡ true) xs × IsSorted xs

  All-le_trans :
      (x y : n.Number) (zs : List n.Number)
      → n.le x y ≡ true
      → All (λ z. n.le y z ≡ true) zs
      → All (λ z. n.le x z ≡ true) zs
  All-le_trans x y [] h k = tt
  All-le_trans x y (z ∷ zs) h (k, ks) = (n.le_trans x y z h k, All-le_trans x y zs h ks)

  All-insert_number :
      (x y : n.Number) (zs : List n.Number)
      → n.le x y ≡ true
      → All (λ z. n.le x z ≡ true) zs
      → All (λ z. n.le x z ≡ true) (insert_number n y zs)
  All-insert_number x y [] h k = (h, tt)
  All-insert_number x y (z ∷ zs) h (k, ks) = elim (Bool-cases (n.le y z)) [
    | inl e ↦ rw e (h, (k, ks))
    | inr e ↦ rw e (k, All-insert_number x y zs h ks)
  ]

  insert_number-IsSorted :
      (x : n.Number) (ys : List n.Number) → IsSorted ys → IsSorted (insert_number n x ys)
  insert_number-IsSorted x [] s = (tt, tt)
  insert_number-IsSorted x (y ∷ ys) (below, s) = elim (Bool-cases (n.le x y)) [
    | inl e ↦ rw e ((e, All-le_trans x y ys e below), (below, s))
    | inr e ↦
        rw e (All-insert_number y x ys (n.le_total x y e) below, insert_number-IsSorted x ys s)
  ]

  sort-IsSorted : (xs : List n.Number) → IsSorted (sort n xs)
  sort-IsSorted [] = tt
  sort-IsSorted (x ∷ xs) = insert_number-IsSorted x (sort n xs) (sort-IsSorted xs)

  le_refl : (x : n.Number) → n.le x x ≡ true
  le_refl x = elim (Bool-cases (n.le x x)) [ inl e ↦ e | inr e ↦ n.le_total x x e ]

  All-get_elem? :
      (y x : n.Number) (ys : List n.Number) (i : ℕ)
      → All (λ z. n.le y z ≡ true) ys
      → get_elem? ys i ≡ some x
      → n.le y x ≡ true
  All-get_elem? y x [] i h e = cc
  All-get_elem? y x (z ∷ zs) zero (h, hs) e = ground arith
  All-get_elem? y x (z ∷ zs) (suc i) (h, hs) e = All-get_elem? y x zs i hs e

  -- how many values are at most x, and how many are below it
  abbrev pub at_most : n.Number → List n.Number → ℕ
  at_most x = count (λ v. n.le v x)

  abbrev pub below : n.Number → List n.Number → ℕ
  below x = count (λ v. not (n.le x v))

  below-All : (x : n.Number) (ys : List n.Number) → All (λ z. n.le x z ≡ true) ys → below x ys ≡ 0
  below-All x [] h = refl
  below-All x (y ∷ ys) (h, hs) = rw h (omega (arith, below-All x ys hs))

  at_most-get_elem? :
      (x : n.Number) (ys : List n.Number) (i : ℕ)
      → IsSorted ys
      → get_elem? ys i ≡ some x
      → i < at_most x ys
  at_most-get_elem? x [] i s e = cc
  at_most-get_elem? x (y ∷ ys) zero s e = ground (arith, le_refl x)
  at_most-get_elem? x (y ∷ ys) (suc i) (h, s) e =
      rw (All-get_elem? y x ys i h e) (omega (arith, at_most-get_elem? x ys i s e))

  below-get_elem? :
      (x : n.Number) (ys : List n.Number) (i : ℕ)
      → IsSorted ys
      → get_elem? ys i ≡ some x
      → below x ys ≤ i
  below-get_elem? x [] i s e = cc
  below-get_elem? x (y ∷ ys) zero (h, s) e =
      let same : y ≡ x = cc in
      let above : n.le x y ≡ true = subst (λ u. n.le u y ≡ true) same (le_refl y) in
      let rest = below-All x ys (subst (λ u. All (λ z. n.le u z ≡ true) ys) same h) in
      rw above (omega (arith, rest))
  below-get_elem? x (y ∷ ys) (suc i) (h, s) e = ground (arith, below-get_elem? x ys i s e)

  get_elem?-some :
      (ys : List n.Number) (i : ℕ) → i < length ys → (x : n.Number) × (get_elem? ys i ≡ some x)
  get_elem?-some [] i h = absurd (omega arith)
  get_elem?-some (y ∷ ys) zero h = (y, refl)
  get_elem?-some (y ∷ ys) (suc i) h = get_elem?-some ys i (omega arith)

clamped : ℕ → ℕ → ℕ
clamped m size = min_ℕ (size - 1) ((m + 99) / 100 - 1)

clamped_bounds :
    (m size : ℕ)
    → 0 < m
    → m ≤ 100 * size
    → (clamped m size < size) × (m ≤ 100 * (clamped m size + 1)) × (100 * clamped m size < m)
unfolding clamped
clamped_bounds m size pos most = ground arith

index_at_bounds :
    (percent size : ℕ)
    → 0 < percent
    → percent ≤ 100
    → 0 < size
    → (index_at percent size < size)
      × (percent * size ≤ 100 * (index_at percent size + 1))
      × (100 * index_at percent size < percent * size)
unfolding index_at clamped
index_at_bounds percent size pos most some_size =
    let low : 1 * 1 ≤ percent * size = grind arith in
    let high : percent * size ≤ 100 * size = grind arith in
    clamped_bounds (percent * size) size (omega arith) high

module _ (n : Numbers) where
  -- So many in a hundred of the values are at most x, and not so many are below x.
  abbrev pub IsNearestRank : List n.Number → ℕ → n.Number → Type 0
  IsNearestRank values percent x =
      (percent * length values ≤ 100 * at_most n x values)
      × (100 * below n x values < percent * length values)

  -- The percentile of some values exists, and so many in a hundred of the values are at most it,
  -- while not so many are below it.
  pub percentile-IsNearestRank :
      (value : n.Number) (values : List n.Number) (percent : ℕ)
      → 0 < percent
      → percent ≤ 100
      → (x : n.Number) × (percentile n (value ∷ values) percent ≡ some x)
        × IsNearestRank (value ∷ values) percent x
  unfolding percentile
  percentile-IsNearestRank value values percent pos most =
      let all = value ∷ values in
      let size = length-sort n all in
      let (inside, high, low) =
        index_at_bounds percent (length (sort n all)) pos most (omega (arith, size)) in
      let i = index_at percent (length (sort n all)) in
      let (x, found) = get_elem?-some n (sort n all) i inside in
      let some_at = at_most-get_elem? n x (sort n all) i (sort-IsSorted n all) found in
      let some_below = below-get_elem? n x (sort n all) i (sort-IsSorted n all) found in
      let scaled = ap (λ (k : ℕ). percent * k) size in
      (
        x,
        found,
        (
          omega (arith, scaled, high, some_at, count-sort n (λ v. n.le v x) all),
          omega (arith, scaled, low, some_below, count-sort n (λ v. not (n.le x v)) all),
        ),
      )
