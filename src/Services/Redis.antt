-- ===== src/Services/Redis.antt =====
-- The Redis server behind src/common/redis.provider.ts, as an interface: the commands that the
-- backend sends, and what the documentation of Redis says of their replies. The key families of
-- the backend hold values of one type each, so each type of value has its own state here.
use verity_backend.Prelude.{
  ℕ, ◌+◌, ◌*◌, ◌/◌, ◌%◌, ◌≤◌, ◌<◌, ◌≡◌, refl, Bool, true, false, ◌&&◌, Option, none, some, List, [],
  ◌∷◌, ltb, ◌==◌, ==_refl, arith, if◌then◌else◌, is_some, length, take, drop, filter, not, contains,
}

-- Identifiers and other texts are only compared, so they are numbered: 0 is the empty text,
-- 2 * t + 1 the ISO form of the time t in milliseconds, and the other even numbers are the other
-- texts.
abbrev pub to_iso : ℕ → ℕ
to_iso t = 2 * t + 1

-- `new Date(text)`, where `none` is an invalid date
abbrev pub parse_iso : ℕ → Option ℕ
parse_iso n = if n % 2 == 1 then some (n / 2) else none

-- A field of a parsed JSON object, `undefined` where it is missing. `infinite` is a number such
-- as 1e999, and `other` a boolean, an array or an object.
pub data Scalar : Type 0 where
  undefined null infinite other : Scalar
  num str : ℕ → Scalar

-- A stored text, by what `JSON.parse` makes of it: the fields that the reader of that key looks
-- at, or a text that is no JSON object.
pub data Raw : Type 0 where
  plain : ℕ → Raw
  -- the decimal text of a number
  decimal : ℕ → Raw
  -- queueKey, joinedAt
  queue_entry : Scalar → Scalar → Raw
  -- sessionId, userAId, userBId, endAt
  session_state : Scalar → Scalar → Scalar → Scalar → Raw
  -- status, outcome, matchId, deadline
  decision : Scalar → Scalar → Scalar → Scalar → Raw

-- `if (raw)`: a key that is missing or holds the empty text is falsy
abbrev pub truthy : Option Raw → Bool
truthy none = false
truthy (some (plain n)) = not (n == 0)
truthy (some _) = true

-- The keys of string values, `queue:user:<id>` and so on.
pub data Key : Type 0 where
  user_queue user_lock user_matched : ℕ → Key
  user_ban ban_cooldown user_reports hive_webhook : ℕ → Key
  session_state_of session_active session_lock session_ended : ℕ → Key
  choice_deadline decision_of : ℕ → Key
  wait_breach alert_cooldown : Key

abbrev pub key_eq : Key → Key → Bool
key_eq (user_queue a) (user_queue b) = a == b
key_eq (user_lock a) (user_lock b) = a == b
key_eq (user_matched a) (user_matched b) = a == b
key_eq (user_ban a) (user_ban b) = a == b
key_eq (ban_cooldown a) (ban_cooldown b) = a == b
key_eq (user_reports a) (user_reports b) = a == b
key_eq (hive_webhook a) (hive_webhook b) = a == b
key_eq (session_state_of a) (session_state_of b) = a == b
key_eq (session_active a) (session_active b) = a == b
key_eq (session_lock a) (session_lock b) = a == b
key_eq (session_ended a) (session_ended b) = a == b
key_eq (choice_deadline a) (choice_deadline b) = a == b
key_eq (decision_of a) (decision_of b) = a == b
key_eq wait_breach wait_breach = true
key_eq alert_cooldown alert_cooldown = true
key_eq _ _ = false

-- String values with expiry. The first number is the time of the command.
pub record Strings : Type 1 where
  pub State : Type 0
  pub get : ℕ → Key → State → Option Raw
  -- SET key value
  pub set : Key → Raw → State → State
  -- SET key value PX ttl
  pub set_px : ℕ → ℕ → Key → Raw → State → State
  -- SET key value PX ttl NX
  pub set_nx : ℕ → ℕ → Key → Raw → State → Bool × State
  pub del : Key → State → State
  -- whether EXEC replies at this state, or the transaction is given up
  pub commits : State → Bool
  pub get-set :
      (n : ℕ) (k j : Key) (v : Raw) (s : State)
      → get n j (set k v s) ≡ (if key_eq k j then some v else get n j s)
  pub get-set_px :
      (now ttl n : ℕ) (k j : Key) (v : Raw) (s : State)
      → get n j (set_px now ttl k v s)
        ≡ (if key_eq k j then (if ltb n (now + ttl) then some v else none) else get n j s)
  pub set_nx_lem :
      (now ttl : ℕ) (k : Key) (v : Raw) (s : State)
      → set_nx now ttl k v s
        ≡ (if is_some (get now k s) then (false, s) else (true, set_px now ttl k v s))
  pub get-del :
      (n : ℕ) (k j : Key) (s : State) → get n j (del k s) ≡ (if key_eq k j then none else get n j s)

pub record Entry : Type 0 where
  pub member : ℕ
  pub score : ℕ

abbrev pub without : ℕ → List Entry → List Entry
without m = filter (λ e. not (e.member == m))

-- The order of a sorted set: by score, and by member among equal scores.
abbrev pub before : Entry → Entry → Bool
before a b = if a.score == b.score then ltb a.member b.member else ltb a.score b.score

abbrev pub insert_sorted : Entry → List Entry → List Entry
insert_sorted e [] = e ∷ []
insert_sorted e (x ∷ xs) = if before e x then e ∷ x ∷ xs else x ∷ insert_sorted e xs

abbrev pub index_of : ℕ → List Entry → Option ℕ
index_of m [] = none
index_of m (e ∷ es) =
    if e.member == m then some 0 else (elim (index_of m es) [ none ↦ none | some i ↦ some (i + 1) ])

-- The sorted sets `queue:zset:<queue key>`, seen through `ZRANGE key 0 -1 WITHSCORES`.
pub record SortedSets : Type 1 where
  pub State : Type 0
  pub zrange : ℕ → State → List Entry
  pub zadd : ℕ → ℕ → ℕ → State → State
  pub zrem : ℕ → ℕ → State → Bool × State
  pub zpopmin : ℕ → ℕ → State → List Entry × State
  pub zcard : ℕ → State → ℕ
  pub zrank : ℕ → ℕ → State → Option ℕ
  pub zrange-zadd :
      (q score m p : ℕ) (s : State)
      → zrange p (zadd q score m s) ≡ (
          if q == p
          then insert_sorted (record { member = m; score = score }) (without m (zrange p s))
          else zrange p s)
  pub zrange-zrem :
      (q m p : ℕ) (s : State)
      → zrange p (zrem q m s).1 ≡ (if q == p then without m (zrange p s) else zrange p s)
  pub zrem-reply : (q m : ℕ) (s : State) → (zrem q m s).0 ≡ is_some (index_of m (zrange q s))
  pub zrange-zpopmin :
      (q n p : ℕ) (s : State)
      → zrange p (zpopmin q n s).1 ≡ (if q == p then drop n (zrange p s) else zrange p s)
  pub zpopmin-reply : (q n : ℕ) (s : State) → (zpopmin q n s).0 ≡ take n (zrange q s)
  pub zcard_lem : (q : ℕ) (s : State) → zcard q s ≡ length (zrange q s)
  pub zrank_lem : (q m : ℕ) (s : State) → zrank q m s ≡ index_of m (zrange q s)

-- The set `queue:keys`.
pub record KeySet : Type 1 where
  pub State : Type 0
  pub smembers : State → List ℕ
  pub sadd : ℕ → State → State
  pub srem : ℕ → State → State
  pub smembers-sadd :
      (m k : ℕ) (s : State)
      → contains k (smembers (sadd m s)) ≡ (if m == k then true else contains k (smembers s))
  pub smembers-srem :
      (m k : ℕ) (s : State)
      → contains k (smembers (srem m s)) ≡ (if m == k then false else contains k (smembers s))

pub data Choice : Type 0 where
  match pass : Choice

-- The hashes `session:choice:<session>`, with a field for each user.
pub record ChoiceHashes : Type 1 where
  pub State : Type 0
  pub hget : ℕ → ℕ → ℕ → State → Option Choice
  pub hset : ℕ → ℕ → ℕ → Choice → State → State
  pub pexpire : ℕ → ℕ → ℕ → State → State
  pub hget-hset :
      (now i f j g : ℕ) (c : Choice) (s : State)
      → hget now j g (hset now i f c s) ≡ (if i == j && f == g then some c else hget now j g s)
  pub hget-pexpire :
      (now ttl i n j g : ℕ) (s : State)
      → now ≤ n
      → hget n j g (pexpire now ttl i s)
        ≡ (if i == j then (if ltb n (now + ttl) then hget n j g s else none) else hget n j g s)

pub key_eq_refl : (k : Key) → key_eq k k ≡ true
key_eq_refl (user_queue a) = ==_refl a
key_eq_refl (user_lock a) = ==_refl a
key_eq_refl (user_matched a) = ==_refl a
key_eq_refl (user_ban a) = ==_refl a
key_eq_refl (ban_cooldown a) = ==_refl a
key_eq_refl (user_reports a) = ==_refl a
key_eq_refl (hive_webhook a) = ==_refl a
key_eq_refl (session_state_of a) = ==_refl a
key_eq_refl (session_active a) = ==_refl a
key_eq_refl (session_lock a) = ==_refl a
key_eq_refl (session_ended a) = ==_refl a
key_eq_refl (choice_deadline a) = ==_refl a
key_eq_refl (decision_of a) = ==_refl a
key_eq_refl wait_breach = refl
key_eq_refl alert_cooldown = refl

module _ (r : Strings) where
  -- What was just written with an expiry is there.
  pub get-set_px_now :
      (now ttl : ℕ) (k : Key) (v : Raw) (s : r.State)
      → 0 < ttl
      → r.get now k (r.set_px now ttl k v s) ≡ some v
  get-set_px_now now ttl k v s h = rw (r.get-set_px, key_eq_refl k) (ground arith)

  -- A first `SET NX` writes, a later one does not.
  pub set_nx_fresh :
      (now ttl : ℕ) (k : Key) (v : Raw) (s : r.State)
      → r.get now k s ≡ none
      → r.set_nx now ttl k v s ≡ (true, r.set_px now ttl k v s)
  set_nx_fresh now ttl k v s h = rw (r.set_nx_lem, h)

  pub set_nx_taken :
      (now ttl : ℕ) (k : Key) (v : Raw) (s : r.State) {old : Raw}
      → r.get now k s ≡ some old
      → r.set_nx now ttl k v s ≡ (false, s)
  set_nx_taken now ttl k v s h = rw (r.set_nx_lem, h)

  -- Commands on one key leave the others.
  pub get-set_nx_ne :
      (now ttl n : ℕ) (k j : Key) (v : Raw) (s : r.State)
      → key_eq k j ≡ false
      → r.get n j (r.set_nx now ttl k v s).1 ≡ r.get n j s
  get-set_nx_ne now ttl n k j v s h =
      rw r.set_nx_lem (ground (arith, r.get-set_px now ttl n k j v s))

  pub get-set_px_ne :
      (now ttl n : ℕ) (k j : Key) (v : Raw) (s : r.State)
      → key_eq k j ≡ false
      → r.get n j (r.set_px now ttl k v s) ≡ r.get n j s
  get-set_px_ne now ttl n k j v s h = rw (r.get-set_px, h)

  pub get-del_ne :
      (n : ℕ) (k j : Key) (s : r.State) → key_eq k j ≡ false → r.get n j (r.del k s) ≡ r.get n j s
  get-del_ne n k j s h = rw (r.get-del, h)
