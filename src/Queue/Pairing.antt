-- ===== src/Queue/Pairing.antt =====
-- The pairs that `validatePair` of src/queue/queue.service.ts judges, and `markMatched`.
use verity_backend.Prelude.{
  ℕ, ◌+◌, ◌≡◌, refl, sym, ap, subst, ◌∙◌, inl, inr, Bool, true, false, not, ◌&&◌, none, some, List,
  [], ◌∷◌, arith, ◌==◌, if◌then◌else◌, is_some, take, drop, ==_refl, Bool-cases,
}
use verity_backend.Services.Redis.{plain, user_matched, index_of, insert_sorted, without, Entry}
use verity_backend.World.{Servers, World}
use verity_backend.Queue.Entry.{parse_queue_entry, queue_entry_of}
use verity_backend.Queue.Pairs.{
  QueuePair, in_queue, put_back, pair_of, pop_pair, is_pair_blocked, defer_blocked_pair,
  validate_pair, marked,
}
use verity_backend.Queue.Refund.{in_zset}

kept-filter :
    (m k : ℕ) (es : List Entry)
    → (m == k) ≡ false
    → is_some (index_of m (without k es)) ≡ is_some (index_of m es)
kept-filter m k [] h = refl
kept-filter m k (e ∷ es) h = ground (arith, kept-filter m k es h)

kept-insert :
    (m : ℕ) (e : Entry) (es : List Entry)
    → is_some (index_of m es) ≡ true
    → is_some (index_of m (insert_sorted e es)) ≡ true
kept-insert m e [] h = cc
kept-insert m e (x ∷ es) h = ground (arith, kept-insert m e es)

found-insert :
    (e : Entry) (es : List Entry) → is_some (index_of e.member (insert_sorted e es)) ≡ true
found-insert e [] = ground arith
found-insert e (x ∷ es) = ground (arith, found-insert e es)

-- Adding a member to a sorted set keeps who is there.
kept-zadd :
    (m k score : ℕ) (es : List Entry)
    → is_some (index_of m es) ≡ true
    → is_some (index_of m (insert_sorted (record { member = k; score = score }) (without k es)))
      ≡ true
kept-zadd m k score es h = elim (Bool-cases (m == k)) [
  | inl e ↦
      subst
        (λ x.
          is_some (index_of x (insert_sorted (record { member = k; score = score }) (without k es)))
          ≡ true)
        (ground (arith, e)) (found-insert (record { member = k; score = score }) (without k es))
  | inr e ↦
      kept-insert m (record { member = k; score = score }) (without k es) (kept-filter m k es e ∙ h)
]

module _ {b : Servers} where
  in_zset-put_back :
      (key score user : ℕ) (w : World b) → in_zset key user (put_back key score user w) ≡ true
  in_zset-put_back key score user w =
      rw (b.zsets.zrange-zadd, ==_refl key)
        (found-insert (record { member = user; score = score })
          (without user (b.zsets.zrange key w.zsets)))

  kept-put_back :
      (key score user other : ℕ) (w : World b)
      → in_zset key other w ≡ true
      → in_zset key other (put_back key score user w) ≡ true
  kept-put_back key score user other w h =
      rw (b.zsets.zrange-zadd, ==_refl key)
        (kept-zadd other user score (b.zsets.zrange key w.zsets) h)

  -- Both users of a pair are back.
  abbrev pub Both : ℕ → QueuePair → World b → Type 0
  Both key p w = (in_zset key p.user_a w ≡ true) × (in_zset key p.user_b w ≡ true)

  pub Both-put_back :
      (key s t : ℕ) (p : QueuePair) (w : World b)
      → Both key p (put_back key t p.user_b (put_back key s p.user_a w))
  Both-put_back key s t p w = (
    kept-put_back key t p.user_b p.user_a (put_back key s p.user_a w)
        (in_zset-put_back key s p.user_a w),
    in_zset-put_back key t p.user_b (put_back key s p.user_a w),
  )

  abbrev pub waits_in : ℕ → ℕ → World b → Bool
  waits_in key user w = in_queue key (queue_entry_of user w)

  -- A pair is valid if both users have entries for this queue and no block stands between them.
  abbrev pub is_valid : ℕ → QueuePair → World b → Bool
  is_valid key p w =
      waits_in key p.user_a w
      && waits_in key p.user_b w
      && not (is_pair_blocked p.user_a p.user_b w)

  -- A valid pair goes on, and of another pair each user who still waits is put back.
  abbrev pub Sorted : ℕ → QueuePair → World b → Bool × World b → Type 0
  Sorted key p w (valid, w') =
      (valid ≡ is_valid key p w)
      × (valid ≡ true → w' ≡ w)
      × (valid ≡ false → waits_in key p.user_a w ≡ true → in_zset key p.user_a w' ≡ true)
      × (valid ≡ false → waits_in key p.user_b w ≡ true → in_zset key p.user_b w' ≡ true)

  -- `validate_pair` with the answers to its three questions.
  abbrev verdict : ℕ → QueuePair → World b → Bool → Bool → Bool → Bool × World b
  verdict key p w a c blocked =
      if not a && not c
      then (false, w)
      else if not a
      then (false, put_back key p.score_b p.user_b w)
      else if not c
      then (false, put_back key p.score_a p.user_a w)
      else if blocked
      then (false, defer_blocked_pair key p w)
      else (true, w)

  verdict-Sorted :
      (key : ℕ) (p : QueuePair) (w : World b) (a c blocked : Bool)
      → let (valid, w') = verdict key p w a c blocked in
        (valid ≡ (a && c && not blocked))
        × (valid ≡ true → w' ≡ w)
        × (valid ≡ false → a ≡ true → in_zset key p.user_a w' ≡ true)
        × (valid ≡ false → c ≡ true → in_zset key p.user_b w' ≡ true)
  unfolding defer_blocked_pair
  verdict-Sorted key p w false false blocked = (refl, λ e. refl, λ f e. cc, λ f e. cc)
  verdict-Sorted key p w false true blocked =
      (refl, λ e. cc, λ f e. cc, λ f e. in_zset-put_back key p.score_b p.user_b w)
  verdict-Sorted key p w true false blocked =
      (refl, λ e. cc, λ f e. in_zset-put_back key p.score_a p.user_a w, λ f e. cc)
  verdict-Sorted key p w true true true =
      let (a_back, b_back) = Both-put_back key (w.now + 5000) (w.now + 5000 + 1) p w in
      (refl, λ e. cc, λ f e. a_back, λ f e. b_back)
  verdict-Sorted key p w true true false = (refl, λ e. refl, λ f e. cc, λ f e. cc)

  -- A popped pair goes on exactly if both users have entries for the queue and no block stands
  -- between them; of another pair each user who has an entry is put back.
  pub validate_pair-Sorted :
      (key : ℕ) (p : QueuePair) (w : World b) → Sorted key p w (validate_pair key p w)
  unfolding validate_pair
  validate_pair-Sorted key p w =
      verdict-Sorted key p w (waits_in key p.user_a w) (waits_in key p.user_b w)
        (is_pair_blocked p.user_a p.user_b w)

  -- The members of a sorted set, in order.
  abbrev pub members : ℕ → World b → List Entry
  members key w = b.zsets.zrange key w.zsets

  abbrev after_pop : ℕ → World b → World b
  after_pop key w = record w { zsets = (b.zsets.zpopmin key 2 w.zsets).1 }

  members-after_pop :
      (key q : ℕ) (w : World b)
      → members q (after_pop key w) ≡ (if key == q then drop 2 (members q w) else members q w)
  members-after_pop key q w = b.zsets.zrange-zpopmin key 2 q w.zsets

  pop_pair_lem :
      (key : ℕ) (w : World b)
      → pop_pair key w ≡ pair_of key (take 2 (members key w)) (after_pop key w)
  unfolding pop_pair
  pop_pair_lem key w =
      ap (λ es. pair_of key es (after_pop key w)) (b.zsets.zpopmin-reply key 2 w.zsets)

  members_at :
      (key q : ℕ) (es : List Entry) (w : World b)
      → members key w ≡ es
      → (key == q) ≡ true
      → members q w ≡ es
  members_at key q es w h e = subst (λ k. members k w ≡ es) (ground (arith, e)) h

  nobody_popped :
      (key q : ℕ) (w : World b) → members key w ≡ [] → members q (after_pop key w) ≡ members q w
  nobody_popped key q w h = elim (Bool-cases (key == q)) [
    | inl e ↦ rw (members-after_pop, e, members_at key q [] w h e)
    | inr e ↦ rw (members-after_pop, e)
  ]

  one_popped :
      (key q : ℕ) (e : Entry) (w : World b)
      → members key w ≡ e ∷ []
      → members q (put_back key e.score e.member (after_pop key w)) ≡ members q w
  one_popped key q e w h = elim (Bool-cases (key == q)) [
    | inl same ↦
        rw (b.zsets.zrange-zadd, same, members-after_pop, same, members_at key q (e ∷ []) w h same)
    | inr other ↦ rw (b.zsets.zrange-zadd, other, members-after_pop, other)
  ]

  none-restores :
      (key q : ℕ) (es : List Entry) (w w' : World b)
      → members key w ≡ es
      → pair_of key (take 2 es) (after_pop key w) ≡ (none, w')
      → members q w' ≡ members q w
  unfolding pair_of
  none-restores key q [] w w' h popped =
      subst (λ v. members q v ≡ members q w) (ap (λ r. r.1) popped) (nobody_popped key q w h)
  none-restores key q (e ∷ []) w w' h popped =
      subst (λ v. members q v ≡ members q w) (ap (λ r. r.1) popped) (one_popped key q e w h)
  none-restores key q (e ∷ f ∷ es) w w' h popped = cc (ap (λ r. r.0) popped)

  -- Where no pair is found, every queue is as it was.
  pub pop_pair-none :
      (key : ℕ) (w w' : World b)
      → pop_pair key w ≡ (none, w')
      → (q : ℕ) → members q w' ≡ members q w
  pop_pair-none key w w' h q =
      none-restores key q (members key w) w w' refl (sym (pop_pair_lem key w) ∙ h)

  abbrev pub Marked : ℕ → ℕ → World b → Type 0
  Marked user session w =
      (queue_entry_of user w ≡ none)
      × (b.strings.get w.now (user_matched user) w.strings ≡ some (plain session))

  -- After a match both users carry its mark, and neither has an entry in a queue any more.
  pub marked-Marked :
      (x y session : ℕ) (w : World b)
      → Marked x session (marked x y session w) × Marked y session (marked x y session w)
  unfolding queue_entry_of parse_queue_entry
  marked-Marked x y session w = (
    (
      rw (b.strings.get-set_px, b.strings.get-set_px, b.strings.get-del, b.strings.get-del)
          (ground arith),
      rw (b.strings.get-set_px, b.strings.get-set_px) (ground arith),
    ),
    (
      rw (b.strings.get-set_px, b.strings.get-set_px, b.strings.get-del, b.strings.get-del)
          (ground arith),
      rw (b.strings.get-set_px, b.strings.get-set_px) (ground arith),
    ),
  )
