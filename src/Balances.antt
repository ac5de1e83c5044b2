-- ===== src/Balances.antt =====
-- The token balance of a user: the column `tokenBalance` of prisma/schema.prisma.
use verity_backend.Prelude.{
  ℕ, ◌≡◌, refl, Bool, true, false, Option, some, List, [], ◌∷◌, ◌==◌, if◌then◌else◌, filter, find,
  length,
}
use verity_backend.Schema.{User}
use verity_backend.World.{Servers, World}

abbrev pub is_user : ℕ → User → Bool
is_user user u = u.id == user

-- The row of the user, of whom there is one.
abbrev pub HasBalance : ℕ → ℕ → List User → Type 0
HasBalance user n [] = ⊥
HasBalance user n (u ∷ us) =
    if u.id == user
    then (u.token_balance ≡ n) × (length (filter (is_user user) us) ≡ 0)
    else HasBalance user n us

found_here_or_later :
    (here : Bool) (u : User) (rest : Option User) (n : ℕ) (Here Later : Type 0)
    → (Later → (x : User) × (rest ≡ some x) × (x.token_balance ≡ n))
    → (if here then (u.token_balance ≡ n) × Here else Later)
    → (x : User) × ((if here then some u else rest) ≡ some x) × (x.token_balance ≡ n)
found_here_or_later true u rest n Here Later later (h, _) = (u, refl, h)
found_here_or_later false u rest n Here Later later h = later h

pub find-HasBalance :
    (user n : ℕ) (us : List User)
    → HasBalance user n us
    → (u : User) × (find (is_user user) us ≡ some u) × (u.token_balance ≡ n)
find-HasBalance user n [] h = absurd h
find-HasBalance user n (u ∷ us) h =
    found_here_or_later (u.id == user) u (find (is_user user) us) n _ _ (find-HasBalance user n us)
      h

module _ {b : Servers} where
  -- The user has one row, with `n` tokens.
  abbrev pub Balance : ℕ → ℕ → World b → Type 0
  Balance user n w = HasBalance user n (b.users.rows w.users)
