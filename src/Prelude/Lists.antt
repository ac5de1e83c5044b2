-- ===== src/Prelude/Lists.antt =====
-- Lists measured by native numbers, and filtered by Boolean tests.
use Prim.Native.Nat.{ℕ, zero, suc, ◌+◌}
use mathlib.Core.Path.{◌≡◌, refl}
use mathlib.Core.Logic.{◌⊎◌, inl, inr}
use mathlib.Core.Bool.{Bool, true, false, ◌||◌}
use mathlib.Core.Option.{Option, none, some}
use mathlib.Core.List.{List, [], ◌∷◌, ◌++◌, map}
use native.Mathlib.Omega.{arith}
use verity_backend.Prelude.Tests.{if◌then◌else◌, ◌==◌, is_some, Bool-cases}

module _ {ℓ} {A : Type ℓ} where
  abbrev pub length : List A → ℕ
  length [] = 0
  length (x ∷ xs) = suc (length xs)

  abbrev pub take : ℕ → List A → List A
  take zero xs = []
  take (suc n) [] = []
  take (suc n) (x ∷ xs) = x ∷ take n xs

  abbrev pub drop : ℕ → List A → List A
  drop zero xs = xs
  drop (suc n) [] = []
  drop (suc n) (x ∷ xs) = drop n xs

  -- The library's `filter` and `find?`, over a Boolean test.
  abbrev pub filter : (A → Bool) → List A → List A
  filter p [] = []
  filter p (x ∷ xs) = let rest = filter p xs in if p x then x ∷ rest else rest

  abbrev pub find : (A → Bool) → List A → Option A
  find p [] = none
  find p (x ∷ xs) = if p x then some x else find p xs

  abbrev pub any : (A → Bool) → List A → Bool
  any p [] = false
  any p (x ∷ xs) = p x || any p xs

  abbrev pub All {κ} : (A → Type κ) → List A → Type κ
  All P [] = Unit
  All P (x ∷ xs) = P x × All P xs

  pub length-append : (xs ys : List A) → length (xs ++ ys) ≡ length xs + length ys
  length-append [] ys = omega arith
  length-append (x ∷ xs) ys = omega (arith, length-append xs ys)

  pub is_some-find-append :
      (p : A → Bool) (xs ys : List A)
      → is_some (find p xs) ≡ true
      → is_some (find p (xs ++ ys)) ≡ true
  is_some-find-append p [] ys h = cc
  is_some-find-append p (x ∷ xs) ys h = ground (arith, is_some-find-append p xs ys)

  pub is_some-find-last :
      (p : A → Bool) (xs : List A) (y : A) → p y ≡ true → is_some (find p (xs ++ y ∷ [])) ≡ true
  is_some-find-last p [] y h = ground arith
  is_some-find-last p (x ∷ xs) y h = ground (arith, is_some-find-last p xs y h)

  pub find-append :
      (p : A → Bool) (xs ys : List A) (x : A) → find p xs ≡ some x → find p (xs ++ ys) ≡ some x
  find-append p [] ys x h = cc
  find-append p (y ∷ xs) ys x h = ground (arith, find-append p xs ys x)

  -- What is found meets the test.
  pub find-meets : (p : A → Bool) (xs : List A) (x : A) → find p xs ≡ some x → p x ≡ true
  find-meets p [] x h = cc
  find-meets p (y ∷ ys) x h = ground (arith, find-meets p ys x)

  pub is_some-find-other :
      (p q : A → Bool) (xs : List A) (x : A)
      → find p xs ≡ some x
      → q x ≡ true
      → is_some (find q xs) ≡ true
  is_some-find-other p q [] x h e = cc
  is_some-find-other p q (y ∷ ys) x h e = ground (arith, is_some-find-other p q ys x)

  -- A row that was found is found where it was changed.
  pub find-map-update :
      (p q : A → Bool) (f : A → A) (xs : List A) (m : A)
      → ((x : A) → p (f x) ≡ p x)
      → find p xs ≡ some m
      → q m ≡ true
      → find p (map (λ x. if q x then f x else x) xs) ≡ some (f m)
  find-map-update p q f [] m same h e = cc
  find-map-update p q f (x ∷ xs) m same h e =
      ground (arith, same x, find-map-update p q f xs m same)

  pub length-filter-append :
      (p : A → Bool) (xs ys : List A)
      → length (filter p (xs ++ ys)) ≡ length (filter p xs) + length (filter p ys)
  length-filter-append p [] ys = omega arith
  length-filter-append p (x ∷ xs) ys = ground (arith, length-filter-append p xs ys)

  pub filter-find-none :
      (p : A → Bool) (xs : List A) → is_some (find p xs) ≡ false → length (filter p xs) ≡ 0
  filter-find-none p [] h = refl
  filter-find-none p (x ∷ xs) h = ground (arith, filter-find-none p xs)

module _ {ℓ κ} {A B : Type ℓ} where
  -- What holds of each element that passes a filter holds of all that is left.
  pub All-map-filter :
      (P : B → Type κ) (f : A → B) (p : A → Bool) (xs : List A)
      → ((x : A) → p x ≡ true → P (f x))
      → All P (map f (filter p xs))
  All-map-filter P f p [] h = tt
  All-map-filter P f p (x ∷ xs) h = elim (Bool-cases (p x)) [
    | inl e ↦ rw e (h x e, All-map-filter P f p xs h)
    | inr e ↦ rw e (All-map-filter P f p xs h)
  ]

module _ {A : Type 0} where
  -- An element is among those of a list.
  abbrev pub Has : A → List A → Type 0
  Has x [] = ⊥
  Has x (y ∷ ys) = (y ≡ x) ⊎ Has x ys

  pub Has-left : (x : A) (xs ys : List A) → Has x xs → Has x (xs ++ ys)
  Has-left x [] ys h = absurd h
  Has-left x (y ∷ xs) ys (inl e) = inl e
  Has-left x (y ∷ xs) ys (inr h) = inr (Has-left x xs ys h)

  pub Has-right : (x : A) (xs ys : List A) → Has x ys → Has x (xs ++ ys)
  Has-right x [] ys h = h
  Has-right x (y ∷ xs) ys h = inr (Has-right x xs ys h)

  -- What is left by a filter passes it, and is among what was there.
  pub All-Has-filter :
      (p : A → Bool) (ys xs : List A)
      → ((x : A) → Has x xs → Has x ys)
      → All (λ x. Has x ys × (p x ≡ true)) (filter p xs)
  All-Has-filter p ys [] h = tt
  All-Has-filter p ys (x ∷ xs) h = elim (Bool-cases (p x)) [
    | inl e ↦ rw e ((h x (inl refl), e), All-Has-filter p ys xs (λ z k. h z (inr k)))
    | inr e ↦ rw e (All-Has-filter p ys xs (λ z k. h z (inr k)))
  ]

abbrev pub contains : ℕ → List ℕ → Bool
contains a = any (λ x. x == a)
