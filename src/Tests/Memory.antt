-- ===== src/Tests/Memory.antt =====
-- Servers in memory, which meet the interfaces of `Services`.
use verity_backend.Prelude.{
  ℕ, ◌+◌, ◌≡◌, refl, true, false, not, ◌&&◌, Option, none, some, List, [], ◌∷◌, ◌++◌, map, arith,
  ltb, ◌==◌, if◌then◌else◌, is_some, length, take, drop, filter, find, contains,
}
use verity_backend.Services.Redis.{
  Raw, Key, key_eq, Strings, Entry, without, insert_sorted, index_of, SortedSets, KeySet, Choice,
  ChoiceHashes,
}
use verity_backend.Services.Database.{Table}
use verity_backend.World.{Servers, World}

abbrev put_px : ℕ → ℕ → Key → Raw → (ℕ → Key → Option Raw) → ℕ → Key → Option Raw
put_px now ttl k v s n j =
    if key_eq k j then (if ltb n (now + ttl) then some v else none) else s n j

abbrev pub memory_strings : Strings
memory_strings = record {
  State = ℕ → Key → Option Raw;
  get = λ n k s. s n k;
  set = λ k v s n j. if key_eq k j then some v else s n j;
  set_px = put_px;
  set_nx = λ now ttl k v s. if is_some (s now k) then (false, s) else (true, put_px now ttl k v s);
  del = λ k s n j. if key_eq k j then none else s n j;
  commits = λ s. true;
  get-set = λ n k j v s. refl;
  get-set_px = λ now ttl n k j v s. refl;
  set_nx_lem = λ now ttl k v s. refl;
  get-del = λ n k j s. refl;
}

abbrev update : (ℕ → List Entry) → ℕ → List Entry → ℕ → List Entry
update s q es p = if q == p then es else s p

abbrev pub memory_zsets : SortedSets
memory_zsets = record {
  State = ℕ → List Entry;
  zrange = λ q s. s q;
  zadd = λ q score m s p.
      if q == p
      then insert_sorted (record { member = m; score = score }) (without m (s p))
      else s p;
  zrem = λ q m s. (is_some (index_of m (s q)), λ p. if q == p then without m (s p) else s p);
  zpopmin = λ q n s. (take n (s q), λ p. if q == p then drop n (s p) else s p);
  zcard = λ q s. length (s q);
  zrank = λ q m s. index_of m (s q);
  zrange-zadd = λ q score m p s. refl;
  zrange-zrem = λ q m p s. refl;
  zrem-reply = λ q m s. refl;
  zrange-zpopmin = λ q n p s. refl;
  zpopmin-reply = λ q n s. refl;
  zcard_lem = λ q s. refl;
  zrank_lem = λ q m s. refl;
}

pub contains-remove :
    (m k : ℕ) (ks : List ℕ)
    → contains k (filter (λ x. not (x == m)) ks) ≡ (if m == k then false else contains k ks)
contains-remove m k [] = ground arith
contains-remove m k (x ∷ ks) = ground (arith, contains-remove m k ks)

pub contains-add :
    (m k : ℕ) (ks : List ℕ)
    → contains k (m ∷ filter (λ x. not (x == m)) ks) ≡ (if m == k then true else contains k ks)
contains-add m k ks = ground (arith, contains-remove m k ks)

abbrev pub memory_key_set : KeySet
memory_key_set = record {
  State = List ℕ;
  smembers = λ s. s;
  sadd = λ m s. m ∷ filter (λ x. not (x == m)) s;
  srem = λ m s. filter (λ x. not (x == m)) s;
  smembers-sadd = contains-add;
  smembers-srem = contains-remove;
}

abbrev pub memory_choices : ChoiceHashes
memory_choices = record {
  State = ℕ → ℕ → ℕ → Option Choice;
  hget = λ n i f s. s n i f;
  hset = λ now i f c s n j g. if i == j && f == g then some c else s n j g;
  pexpire = λ now ttl i s n j g.
      if i == j then (if ltb n (now + ttl) then s n j g else none) else s n j g;
  hget-hset = λ now i f j g c s. refl;
  hget-pexpire = λ now ttl i n j g s h. refl;
}

abbrev pub memory_table : (Row : Type 0) → Table Row
memory_table Row = record {
  State = List Row × ℕ;
  rows = λ s. s.0;
  find_many = λ p s. filter p s.0;
  find_first = λ p s. find p s.0;
  count = λ p s. length (filter p s.0);
  next_id = λ s. s.1;
  create = λ mk s. (mk s.1, (s.0 ++ mk s.1 ∷ [], s.1 + 2));
  update_many = λ p f s. (length (filter p s.0), (map (λ r. if p r then f r else r) s.0, s.1));
  delete_many = λ p s. (length (filter p s.0), (filter (λ r. not (p r)) s.0, s.1));
  find_many_lem = λ p s. refl;
  find_first_lem = λ p s. refl;
  count_lem = λ p s. refl;
  create-reply = λ mk s. refl;
  rows-create = λ mk s. refl;
  update_many-reply = λ p f s. refl;
  rows-update_many = λ p f s. refl;
  delete_many-reply = λ p s. refl;
  rows-delete_many = λ p s. refl;
}

abbrev pub memory : Servers
memory = record {
  strings = memory_strings;
  zsets = memory_zsets;
  queue_keys = memory_key_set;
  choices = memory_choices;
  users = memory_table _;
  sessions = memory_table _;
  matches = memory_table _;
  blocks = memory_table _;
  messages = memory_table _;
  transactions = memory_table _;
  refresh_tokens = memory_table _;
  events = memory_table _;
  reports = memory_table _;
  appeals = memory_table _;
  push_tokens = memory_table _;
}

-- Nothing stored yet, at the given time; the first row of each table is given the identifier 2.
abbrev pub empty_world : ℕ → World memory
empty_world now = record {
  now = now;
  server_ready = true;
  agora = record { app_id = 2; app_certificate = 2; ttl = none };
  strings = λ n k. none;
  zsets = λ q. [];
  queue_keys = [];
  choices = λ n i f. none;
  users = ([], 2);
  sessions = ([], 2);
  matches = ([], 2);
  blocks = ([], 2);
  messages = ([], 2);
  transactions = ([], 2);
  refresh_tokens = ([], 2);
  events = ([], 2);
  reports = ([], 2);
  appeals = ([], 2);
  push_tokens = ([], 2);
  timers = [];
  choice_timers = [];
  outbox = [];
}
