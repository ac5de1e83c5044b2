-- ===== src/Chat/Shown.antt =====
-- Who is shown the messages of a match, and which.
use mathlib.Core.List.{reverse_aux, reverse}
use verity_backend.Prelude.{
  ℕ, zero, suc, ◌+◌, ◌≡◌, refl, ap, ◌⊎◌, inl, inr, Bool, true, Option, List, [], ◌∷◌, arith, leb,
  ◌==◌, filter, take, length, All, Bool-cases,
}
use verity_backend.Exec.{Exception, Result, ok, err}
use verity_backend.Services.Database.{order_by_desc, All-order_by_desc}
use verity_backend.Schema.{Match, Message}
use verity_backend.World.{Servers, World}
use verity_backend.Matches.Service.{match_of}
use verity_backend.Chat.{safe_limit, open_match, list_messages}
use verity_backend.Chat.Guards.{Open, Open-open_match}

module _ {A : Type 0} (P : A → Type 0) where
  All-reverse_aux : (xs ys : List A) → All P xs → All P ys → All P (reverse_aux xs ys)
  All-reverse_aux [] ys h k = k
  All-reverse_aux (x ∷ xs) ys (h, hs) k = All-reverse_aux xs (x ∷ ys) hs (h, k)

  All-take : (n : ℕ) (xs : List A) → All P xs → All P (take n xs)
  All-take zero xs h = tt
  All-take (suc n) [] h = tt
  All-take (suc n) (x ∷ xs) (h, hs) = (h, All-take n xs hs)

module _ {A : Type 0} where
  All-filter : (p : A → Bool) (xs : List A) → All (λ x. p x ≡ true) (filter p xs)
  All-filter p [] = tt
  All-filter p (x ∷ xs) = elim (Bool-cases (p x)) [
    | inl e ↦ rw e (e, All-filter p xs)
    | inr e ↦ rw e (All-filter p xs)
  ]

  length-reverse_aux : (xs ys : List A) → length (reverse_aux xs ys) ≡ length xs + length ys
  length-reverse_aux [] ys = omega arith
  length-reverse_aux (x ∷ xs) ys = omega (arith, length-reverse_aux xs (x ∷ ys))

  length-take : (n : ℕ) (xs : List A) → leb (length (take n xs)) n ≡ true
  length-take zero xs = ground arith
  length-take (suc n) [] = ground arith
  length-take (suc n) (x ∷ xs) = ground (arith, length-take n xs)

safe_limit-bound : (limit : Option ℕ) → leb (safe_limit 50 100 limit) 100 ≡ true
unfolding safe_limit
safe_limit-bound limit = ground arith

length-shown :
    (limit : Option ℕ) (xs : List Message)
    → leb (length (reverse (take (safe_limit 50 100 limit) xs))) 100 ≡ true
length-shown limit xs =
    let n = safe_limit 50 100 limit in
    ground (arith, length-reverse_aux (take n xs) [], length-take n xs, safe_limit-bound limit)

Result-cases :
    {A : Type 0} (r : Result A) → ((e : Exception) × (r ≡ err e)) ⊎ ((a : A) × (r ≡ ok a))
Result-cases (err e) = inl (e, refl)
Result-cases (ok a) = inr (a, refl)

-- At most a hundred messages, each of the match.
abbrev pub IsPage : ℕ → List Message → Type 0
IsPage id ms = All (λ (x : Message). x.match_id == id ≡ true) ms × (leb (length ms) 100 ≡ true)

module _ {b : Servers} where
  page_of : ℕ → Option ℕ → World b → List Message
  page_of id limit w = take (safe_limit 50 100 limit) (
      order_by_desc (λ (x : Message). x.created_at)
        (b.messages.find_many (λ x. x.match_id == id) w.messages))

  page_of-IsPage :
      (id : ℕ) (limit : Option ℕ) (w : World b) → IsPage id (reverse (page_of id limit w))
  unfolding page_of
  page_of-IsPage id limit w =
      let is_of = λ (x : Message). x.match_id == id ≡ true in
      let rows = filter (λ (x : Message). x.match_id == id) (b.messages.rows w.messages) in
      let sorted = order_by_desc (λ (x : Message). x.created_at) rows in
      rw b.messages.find_many_lem (
        All-reverse_aux is_of (take (safe_limit 50 100 limit) sorted) []
            (All-take is_of (safe_limit 50 100 limit) sorted (
              All-order_by_desc is_of (λ x. x.created_at) rows
                (All-filter (λ (x : Message). x.match_id == id) (b.messages.rows w.messages))))
            tt,
        length-shown limit sorted,
      )

  -- A user to whom the match is open, and a page of it.
  abbrev pub Shown : ℕ → ℕ → World b → World b → List Message → Type 0
  Shown id user w w' ms =
      ((m : Match) × Open id user w m) × IsPage id ms × (w'.messages ≡ w.messages)

  -- Messages are listed only for a user of the match who has seen the profile of the other,
  -- where no block stands between them; they are messages of that match, a hundred at most, and
  -- none is changed.
  pub list_messages-Shown :
      (id user : ℕ) (limit : Option ℕ) (w w' : World b) (ms : List Message)
      → list_messages id user limit w ≡ (ok ms, w')
      → Shown id user w w' ms
  unfolding list_messages page_of
  list_messages-Shown id user limit w w' ms h =
      elim (Result-cases (open_match user (match_of id w) w)) [
        | inl (e, refused) ↦
            let reply : (list_messages id user limit w).0 ≡ err e =
              rw (refused, list_messages) refl in
            cc (reply, ap (λ r. r.0) h)
        | inr (m, opened) ↦
            let reply : (list_messages id user limit w).0 ≡ ok (reverse (page_of id limit w)) =
              rw (opened, list_messages) refl in
            let kept : (list_messages id user limit w).1.messages ≡ w.messages =
              rw (opened, list_messages) refl in
            let same : reverse (page_of id limit w) ≡ ms = cc (reply, ap (λ r. r.0) h) in
            (
              (m, Open-open_match id user (match_of id w) m w refl opened),
              rw (← same) (page_of-IsPage id limit w),
              cc (kept, ap (λ (r : Result (List Message) × World b). r.1) h),
            )
      ]
