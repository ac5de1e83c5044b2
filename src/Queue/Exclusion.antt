-- ===== src/Queue/Exclusion.antt =====
-- The locks of src/queue/queue.service.ts: lemmas on `lockUsers`.
use verity_backend.Prelude.{
  ℕ, ◌≡◌, ◌≢◌, refl, sym, ap, subst, ◌∙◌, ◌⊎◌, inl, inr, true, false, Option, none, some, List, [],
  ◌∷◌, arith, if◌then◌else◌, ==_refl, Bool-cases, Option-cases,
}
use verity_backend.Services.Redis.{
  Raw, Key, plain, user_lock, key_eq, get-set_px_now, set_nx_fresh, set_nx_taken, get-set_px_ne,
}
use verity_backend.World.{Servers, World}
use verity_backend.Queue.Lock.{
  lock_ttl_ms, acquire_lock, release_lock, release_user_locks, lock_users,
}

lock_key : (user : ℕ) (k : Key) → key_eq (user_lock user) k ≡ true → user_lock user ≡ k
lock_key user (user_lock a) h = ap user_lock (ground (arith, h))
lock_key user _ h = cc h

module _ {b : Servers} where
  -- What is stored under a key now.
  abbrev pub stored : Key → World b → Option Raw
  stored k w = b.strings.get w.now k w.strings

  abbrev pub locked : ℕ → ℕ → World b → World b
  locked user value w = record w {
    strings = b.strings.set_px w.now lock_ttl_ms (user_lock user) (plain value) w.strings;
  }

  pub acquire_fresh :
      (user value : ℕ) (w : World b)
      → stored (user_lock user) w ≡ none
      → acquire_lock user value w ≡ (true, locked user value w)
  unfolding acquire_lock
  acquire_fresh user value w h =
      rw (set_nx_fresh b.strings w.now lock_ttl_ms (user_lock user) (plain value) w.strings h)

  pub acquire_taken :
      (user value : ℕ) (w : World b) {old : Raw}
      → stored (user_lock user) w ≡ some old
      → acquire_lock user value w ≡ (false, w)
  unfolding acquire_lock
  acquire_taken user value w h =
      rw (set_nx_taken b.strings w.now lock_ttl_ms (user_lock user) (plain value) w.strings h)

  pub stored-locked :
      (user value : ℕ) (w : World b)
      → stored (user_lock user) (locked user value w) ≡ some (plain value)
  stored-locked user value w =
      get-set_px_now b.strings w.now lock_ttl_ms (user_lock user) (plain value) w.strings
        (omega arith)

  acquired-stored :
      (user value : ℕ) (w w' : World b)
      → acquire_lock user value w ≡ (true, w')
      → stored (user_lock user) w' ≡ some (plain value)
  acquired-stored user value w w' h = elim (Option-cases (stored (user_lock user) w)) [
    | inl e ↦
        subst (λ v. stored (user_lock user) v ≡ some (plain value))
          (ap (λ r. r.1) (sym (acquire_fresh user value w e) ∙ h)) (stored-locked user value w)
    | inr (old, e) ↦ cc (ap (λ r. r.0) (sym (acquire_taken user value w e) ∙ h))
  ]

  other_value :
      (user value other : ℕ) (w : World b)
      → value ≢ other
      → stored (user_lock user) w ≡ some (plain value)
      → release_lock user other w ≡ w
  unfolding release_lock
  other_value user value other w ne h = rw h (ground (arith, ne))

  -- While the lock of a user is held no one else gets it, and a release with another value
  -- leaves it.
  pub acquire_lock-excludes :
      (user value other : ℕ) (w w' : World b)
      → acquire_lock user value w ≡ (true, w')
      → value ≢ other
      → (acquire_lock user other w' ≡ (false, w')) × (release_lock user other w' ≡ w')
  acquire_lock-excludes user value other w w' h ne =
      let held = acquired-stored user value w w' h in
      (acquire_taken user other w' held, other_value user value other w' ne held)

  release_own :
      (user value : ℕ) (w : World b)
      → release_lock user value (locked user value w)
        ≡ record w { strings = b.strings.del (user_lock user) (locked user value w).strings }
  unfolding release_lock
  release_own user value w = rw (stored-locked user value w, ==_refl value)

  -- Taking a lock and giving it back leaves nothing.
  released-stored :
      (user value : ℕ) (k : Key) (w : World b)
      → stored (user_lock user) w ≡ none
      → stored k (release_lock user value (locked user value w)) ≡ stored k w
  released-stored user value k w h =
      rw (release_own user value w, b.strings.get-del)
        (elim (Bool-cases (key_eq (user_lock user) k)) [
          | inl e ↦ rw e (sym h ∙ ap (λ x. stored x w) (lock_key user k e))
          | inr e ↦ rw (
            e,
            get-set_px_ne b.strings w.now lock_ttl_ms w.now (user_lock user) k (plain value)
                w.strings e,
          )
        ])

  two_locks :
      (x y u v : ℕ) (w : World b)
      → stored (user_lock x) w ≡ none
      → lock_users [] ((x, u) ∷ (y, v) ∷ []) w ≡ (
          let (acquired, w') = acquire_lock y v (locked x u w) in
          if acquired then (some ((x, u) ∷ (y, v) ∷ []), w') else (none, release_lock x u w'))
  unfolding lock_users release_user_locks
  two_locks x y u v w h = rw (acquire_fresh x u w h)

  no_first_lock :
      (x y u v : ℕ) (w : World b) {old : Raw}
      → stored (user_lock x) w ≡ some old
      → lock_users [] ((x, u) ∷ (y, v) ∷ []) w ≡ (none, w)
  unfolding lock_users release_user_locks
  no_first_lock x y u v w h = rw (acquire_taken x u w h)

  abbrev pub AllOrNone : ℕ → ℕ → ℕ → ℕ → World b → Option (List (ℕ × ℕ)) × World b → Type 0
  AllOrNone x y u v w (locks, w') =
      ((locks ≡ some ((x, u) ∷ (y, v) ∷ []))
        × (stored (user_lock x) w' ≡ some (plain u))
        × (stored (user_lock y) w' ≡ some (plain v)))
      ⊎ ((locks ≡ none) × ((k : Key) → stored k w' ≡ stored k w))

  -- The locks of two different users are taken both, or Redis holds what it held before.
  pub lock_users-AllOrNone :
      (x y u v : ℕ) (w : World b)
      → x ≢ y
      → AllOrNone x y u v w (lock_users [] ((x, u) ∷ (y, v) ∷ []) w)
  lock_users-AllOrNone x y u v w ne = elim (Option-cases (stored (user_lock x) w)) [
    | inr (old, e) ↦ rw (no_first_lock x y u v w e) (inr (refl, λ k. refl))
    | inl e ↦ elim (Option-cases (stored (user_lock y) (locked x u w))) [
      | inr (old, f) ↦
          rw (two_locks x y u v w e, acquire_taken y v (locked x u w) f)
            (inr (refl, λ k. released-stored x u k w e))
      | inl f ↦
          rw (two_locks x y u v w e, acquire_fresh y v (locked x u w) f)
            (inl (
              refl,
              get-set_px_ne b.strings w.now lock_ttl_ms w.now (user_lock y) (user_lock x) (plain v)
                    (locked x u w).strings (ground (arith, ne))
                  ∙ stored-locked x u w,
              stored-locked y v (locked x u w),
            ))
    ]
  ]
