-- ===== src/Queue/Tokens.antt =====
-- The token that `joinQueue` of src/queue/queue.service.ts takes.
use verity_backend.Prelude.{
  ℕ, zero, suc, ◌+◌, ◌-◌, ◌≤◌, ◌≡◌, ◌≢◌, refl, true, false, ◌&&◌, some, List, [], ◌∷◌, map, arith,
  leb, ◌==◌, if◌then◌else◌, filter, length, is_some, ==_refl, Bool-cases, inl, inr,
}
use verity_backend.Exec.{Result, ok, err, insufficient_balance, transaction_failed, ◌>>◌}
use verity_backend.Services.Redis.{key_eq_refl, user_queue, index_of, insert_sorted, without, Entry}
use verity_backend.Schema.{User}
use verity_backend.World.{Servers, World}
use verity_backend.Balances.{is_user, HasBalance, Balance}
use verity_backend.Queue.Entry.{queue_entry_of}
use verity_backend.Queue.Join.{
  spend_token, refund_token, take_token, give_back_token, enqueue, write_entry, report_joined,
  join_new, JoinReply,
}

abbrev spend_row : ℕ → User → User
spend_row user u = if u.id == user && leb 1 u.token_balance then spend_token u else u

abbrev refund_row : ℕ → User → User
refund_row user u = if u.id == user then refund_token u else u

none_else :
    (user : ℕ) (us : List User)
    → length (filter (is_user user) us) ≡ 0
    → length (filter (λ u. u.id == user && leb 1 u.token_balance) us) ≡ 0
none_else user [] h = refl
none_else user (u ∷ us) h = ground (arith, none_else user us)

count_spend :
    (user n : ℕ) (us : List User)
    → HasBalance user n us
    → length (filter (λ u. u.id == user && leb 1 u.token_balance) us) ≡ (if leb 1 n then 1 else 0)
count_spend user n [] h = absurd h
count_spend user n (u ∷ us) h = ground (arith, none_else user us, count_spend user n us)

filter-spend :
    (user : ℕ) (us : List User)
    → length (filter (is_user user) (map (spend_row user) us)) ≡ length (filter (is_user user) us)
filter-spend user [] = refl
filter-spend user (u ∷ us) = ground (arith, filter-spend user us)

filter-refund :
    (user : ℕ) (us : List User)
    → length (filter (is_user user) (map (refund_row user) us)) ≡ length (filter (is_user user) us)
filter-refund user [] = refl
filter-refund user (u ∷ us) = ground (arith, filter-refund user us)

HasBalance-spend :
    (user n : ℕ) (us : List User)
    → HasBalance user n us
    → HasBalance user (n - 1) (map (spend_row user) us)
HasBalance-spend user n [] h = h
HasBalance-spend user n (u ∷ us) h =
    ground (arith, filter-spend user us, HasBalance-spend user n us)

HasBalance-refund :
    (user n : ℕ) (us : List User)
    → HasBalance user n us
    → HasBalance user (n + 1) (map (refund_row user) us)
HasBalance-refund user n [] h = h
HasBalance-refund user n (u ∷ us) h =
    ground (arith, filter-refund user us, HasBalance-refund user n us)

index_of-insert :
    (e : Entry) (es : List Entry) → is_some (index_of e.member (insert_sorted e es)) ≡ true
index_of-insert e [] = ground arith
index_of-insert e (x ∷ es) = ground (arith, index_of-insert e es)

suc_add_one : (n : ℕ) → suc n ≡ n + 1
suc_add_one n = omega arith

suc_sub_one : (n : ℕ) → suc n - 1 ≡ n
suc_sub_one n = omega arith

at_least_one : (n : ℕ) → leb 1 (suc n) ≡ true
at_least_one n = ground arith

module _ {b : Servers} where
  -- The user waits in the queue: a place in the sorted set and an entry that names it.
  abbrev pub Waits : ℕ → ℕ → World b → Type 0
  Waits user key w =
      (queue_entry_of user w ≡ some (record { queue_key = key; joined_at = w.now }))
      × (is_some (b.zsets.zrank key user w.zsets) ≡ true)

  abbrev charged : ℕ → World b → World b
  charged user w = record w {
    users =
        (b.users.update_many (λ u. u.id == user && leb 1 u.token_balance) spend_token w.users).1;
  }

  Balance-charged :
      (user n : ℕ) (w : World b) → Balance user n w → Balance user (n - 1) (charged user w)
  Balance-charged user n w h =
      rw (b.users.rows-update_many (λ u. u.id == user && leb 1 u.token_balance) spend_token w.users)
        (HasBalance-spend user n (b.users.rows w.users) h)

  take_token_lem :
      (user n : ℕ) (w : World b)
      → Balance user n w
      → take_token user w ≡ ((if leb 1 n then ok tt else err insufficient_balance), charged user w)
  unfolding take_token
  take_token_lem user n w h = ground (
    arith,
    b.users.update_many-reply (λ u. u.id == user && leb 1 u.token_balance) spend_token w.users,
    count_spend user n (b.users.rows w.users) h,
  )

  pub Balance-give_back_token :
      (user n : ℕ) (w : World b) → Balance user n w → Balance user (n + 1) (give_back_token user w)
  unfolding give_back_token
  Balance-give_back_token user n w h =
      rw (b.users.rows-update_many (is_user user) refund_token w.users)
        (HasBalance-refund user n (b.users.rows w.users) h)

  Waits-write_entry :
      (user key : ℕ) (w : World b) → key ≢ 0 → Waits user key (write_entry user key w)
  unfolding write_entry queue_entry_of
  Waits-write_entry user key w h = (
    rw (b.strings.get-set, key_eq_refl (user_queue user)) (ground arith),
    rw (b.zsets.zrank_lem, b.zsets.zrange-zadd, ==_refl key)
        (index_of-insert (record { member = user; score = w.now })
          (without user (b.zsets.zrange key w.zsets))),
  )

  -- What a join has done to the user's tokens and place.
  abbrev pub Paid : ℕ → ℕ → ℕ → World b → Result JoinReply × World b → Type 0
  Paid user key n w (ok r, w') = (1 ≤ n) × Balance user (n - 1) w' × Waits user key w'
  Paid user key n w (err e, w') =
      Balance user n w' × (w'.zsets ≡ w.zsets) × (w'.strings ≡ w.strings)

  enqueue-commits :
      (user key : ℕ) (w : World b)
      → b.strings.commits w.strings ≡ true
      → enqueue user key w ≡ (ok tt, write_entry user key w)
  unfolding enqueue
  enqueue-commits user key w h = rw h

  enqueue-fails :
      (user key : ℕ) (w : World b)
      → b.strings.commits w.strings ≡ false
      → enqueue user key w ≡ (err transaction_failed, give_back_token user w)
  unfolding enqueue
  enqueue-fails user key w h = rw h

  rest-Paid :
      (user key n : ℕ) (w v : World b)
      → key ≢ 0
      → v.zsets ≡ w.zsets
      → v.strings ≡ w.strings
      → Balance user n v
      → Paid user key (suc n) w ((enqueue user key >> report_joined user key) v)
  unfolding report_joined write_entry give_back_token queue_entry_of
  rest-Paid user key n w v nonzero z s h = elim (Bool-cases (b.strings.commits v.strings)) [
    | inl e ↦
        rw (enqueue-commits user key v e)
          (omega arith, rw (suc_sub_one n) h, Waits-write_entry user key v nonzero)
    | inr e ↦
        rw (enqueue-fails user key v e)
          (rw (suc_add_one n) (Balance-give_back_token user n v h), z, s)
  ]

  -- A new place in a queue costs one token; where the user has none, or where Redis gives the
  -- transaction up, the balance is as before and the user gets no place.
  pub join_new-Paid :
      (user key n : ℕ) (w : World b)
      → key ≢ 0
      → Balance user n w
      → Paid user key n w (join_new user key w)
  unfolding join_new
  join_new-Paid user key zero w nonzero h =
      rw (take_token_lem user 0 w h) (Balance-charged user 0 w h, refl, refl)
  join_new-Paid user key (suc n) w nonzero h =
      rw (take_token_lem user (suc n) w h, at_least_one n)
        (rest-Paid user key n w (charged user w) nonzero refl refl
          (rw (suc_sub_one n) at (Balance-charged user (suc n) w h)))
