-- ===== src/Services/Database.antt =====
-- A table behind src/prisma/prisma.service.ts, as an interface: the calls of the Prisma client
-- that the backend makes, and what they return and leave behind. `rows` is a view of the stored
-- rows in the order in which an unordered query returns them.
use verity_backend.Prelude.{
  ℕ, ◌≡◌, Bool, Option, List, [], ◌∷◌, ◌++◌, map, if◌then◌else◌, filter, find, length, not, ltb,
  All, Bool-cases, inl, inr,
}

-- `orderBy: { …: 'desc' }`; among equals the order of the table.
module _ {Row : Type 0} where
  abbrev pub insert_by : (Row → ℕ) → Row → List Row → List Row
  insert_by f r [] = r ∷ []
  insert_by f r (x ∷ xs) = if ltb (f r) (f x) then x ∷ insert_by f r xs else r ∷ x ∷ xs

  abbrev pub order_by_desc : (Row → ℕ) → List Row → List Row
  order_by_desc f [] = []
  order_by_desc f (x ∷ xs) = insert_by f x (order_by_desc f xs)

module _ {A : Type 0} (P : A → Type 0) where
  All-insert_by : (f : A → ℕ) (x : A) (xs : List A) → P x → All P xs → All P (insert_by f x xs)
  All-insert_by f x [] h k = (h, tt)
  All-insert_by f x (y ∷ ys) h (k, ks) = elim (Bool-cases (ltb (f x) (f y))) [
    | inl e ↦ rw e (k, All-insert_by f x ys h ks)
    | inr e ↦ rw e (h, (k, ks))
  ]

  pub All-order_by_desc : (f : A → ℕ) (xs : List A) → All P xs → All P (order_by_desc f xs)
  All-order_by_desc f [] h = tt
  All-order_by_desc f (x ∷ xs) (h, hs) =
      All-insert_by f x (order_by_desc f xs) h (All-order_by_desc f xs hs)

pub record Table (Row : Type 0) : Type 1 where
  pub State : Type 0
  pub rows : State → List Row
  pub find_many : (Row → Bool) → State → List Row
  pub find_first : (Row → Bool) → State → Option Row
  pub count : (Row → Bool) → State → ℕ
  -- the identifier that the next created row is given
  pub next_id : State → ℕ
  pub create : (ℕ → Row) → State → Row × State
  pub update_many : (Row → Bool) → (Row → Row) → State → ℕ × State
  pub delete_many : (Row → Bool) → State → ℕ × State
  pub find_many_lem : (p : Row → Bool) (s : State) → find_many p s ≡ filter p (rows s)
  pub find_first_lem : (p : Row → Bool) (s : State) → find_first p s ≡ find p (rows s)
  pub count_lem : (p : Row → Bool) (s : State) → count p s ≡ length (filter p (rows s))
  pub create-reply : (mk : ℕ → Row) (s : State) → (create mk s).0 ≡ mk (next_id s)
  pub rows-create :
      (mk : ℕ → Row) (s : State) → rows (create mk s).1 ≡ rows s ++ mk (next_id s) ∷ []
  pub update_many-reply :
      (p : Row → Bool) (f : Row → Row) (s : State)
      → (update_many p f s).0 ≡ length (filter p (rows s))
  pub rows-update_many :
      (p : Row → Bool) (f : Row → Row) (s : State)
      → rows (update_many p f s).1 ≡ map (λ r. if p r then f r else r) (rows s)
  pub delete_many-reply :
      (p : Row → Bool) (s : State) → (delete_many p s).0 ≡ length (filter p (rows s))
  pub rows-delete_many :
      (p : Row → Bool) (s : State) → rows (delete_many p s).1 ≡ filter (λ r. not (p r)) (rows s)
