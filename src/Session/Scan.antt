-- ===== src/Session/Scan.antt =====
-- `scanKeys` of src/session/session.service.ts: the keys that a restart looks at. The replies of
-- Redis and the time that has passed are arguments, by the round of the loop.
use verity_backend.Prelude.{
  ℕ, zero, suc, ◌+◌, ◌≤◌, ◌<◌, ◌≡◌, refl, sym, subst, Bool, true, false, ◌||◌, Option, none, some,
  List, [], ◌∷◌, ◌++◌, length, contains, leb, ◌==◌, if◌then◌else◌, arith, Bool-cases, inl, inr,
  length-append,
}

abbrev pub recovery_max_keys : ℕ
recovery_max_keys = 10_000

abbrev pub recovery_max_duration_ms : ℕ
recovery_max_duration_ms = 5_000

-- A reply: the next cursor, and keys by their numbers.
pub record Page : Type 0 where
  pub next : ℕ
  pub keys : List ℕ

pub record ScanResult : Type 0 where
  pub keys : List ℕ
  pub scanned : ℕ
  pub truncated : Bool

-- `keys.add(key)`
abbrev pub add_key : ℕ → List ℕ → List ℕ
add_key key keys = if contains key keys then keys else keys ++ key ∷ []

-- the keys of a page, up to the most that are kept, and whether some were left out
unfoldable pub add_page : ℕ → List ℕ → List ℕ → List ℕ × Bool
add_page most [] keys = (keys, false)
add_page most (key ∷ page) keys =
    let rest = add_page most page (add_key key keys) in
    if leb most (length keys) then (keys, true) else rest

module _ (scan : ℕ → ℕ → Page) (elapsed : ℕ → ℕ) where
  -- The loop from a round and a cursor on; `none` where the fuel does not last.
  unfoldable pub scan_from : ℕ → ℕ → ℕ → List ℕ → ℕ → Option ScanResult
  unfolding add_page
  scan_from zero round cursor keys scanned = none
  scan_from (suc fuel) round cursor keys scanned =
      let page = scan round cursor in
      let (found, full) = add_page recovery_max_keys page.keys keys in
      let count = scanned + length page.keys in
      let rest = scan_from fuel (suc round) page.next found count in
      if full || leb recovery_max_duration_ms (elapsed round)
      then some (record { keys = found; scanned = count; truncated = true })
      else if page.next == 0
      then some (record { keys = found; scanned = count; truncated = false })
      else rest

  unfoldable pub scan_keys : ℕ → Option ScanResult
  unfolding scan_from
  scan_keys fuel = scan_from fuel 0 0 [] 0

add_key-lt : (key most : ℕ) (keys : List ℕ) → length keys < most → length (add_key key keys) ≤ most
add_key-lt key most keys h = elim (Bool-cases (contains key keys)) [
  | inl e ↦ rw e (omega (arith, h))
  | inr e ↦ rw e (omega (arith, length-append keys (key ∷ []), h))
]

add_page-le :
    (most : ℕ) (page keys : List ℕ) → length keys ≤ most → length (add_page most page keys).0 ≤ most
unfolding add_page
add_page-le most [] keys h = h
add_page-le most (key ∷ page) keys h = elim (Bool-cases (leb most (length keys))) [
  | inl e ↦ rw e h
  | inr e ↦
      rw e (add_page-le most page (add_key key keys) (add_key-lt key most keys (ground (arith, e))))
]

no_fuel : (late round : ℕ) → round ≤ late → late < round + 0 → ⊥
no_fuel late round h k = omega arith

-- The loop ends with so many keys at most.
abbrev pub Ends : Option ScanResult → Type 0
Ends none = ⊥
Ends (some r) = length r.keys ≤ recovery_max_keys

Ends-if :
    (t : Bool) (a c : Option ScanResult)
    → (t ≡ true → Ends a)
    → (t ≡ false → Ends c)
    → Ends (if t then a else c)
Ends-if true a c h k = h refl
Ends-if false a c h k = k refl

module _ (scan : ℕ → ℕ → Page) (elapsed : ℕ → ℕ) where
  before_late :
      (round late : ℕ)
      → round ≤ late
      → recovery_max_duration_ms ≤ elapsed late
      → leb recovery_max_duration_ms (elapsed round) ≡ false
      → suc round ≤ late
  before_late round late begun slow early = elim (Bool-cases (round == late)) [
    | inl e ↦
        let same : round ≡ late = ground (arith, e) in
        let slow' : recovery_max_duration_ms ≤ elapsed round =
          subst (λ k. recovery_max_duration_ms ≤ elapsed k) (sym same) slow in
        ground (arith, slow', early)
    | inr e ↦ ground (arith, e, begun)
  ]

  -- From a round before the time is over, with fuel until then, the loop ends.
  scan_from-Ends :
      (late fuel round cursor : ℕ) (keys : List ℕ) (scanned : ℕ)
      → recovery_max_duration_ms ≤ elapsed late
      → round ≤ late
      → late < round + fuel
      → length keys ≤ recovery_max_keys
      → Ends (scan_from scan elapsed fuel round cursor keys scanned)
  unfolding scan_from
  scan_from-Ends late zero round cursor keys scanned slow begun enough few =
      absurd (no_fuel late round begun enough)
  scan_from-Ends late (suc fuel) round cursor keys scanned slow begun enough few =
      let page = scan round cursor in
      let kept = add_page-le recovery_max_keys page.keys keys few in
      Ends-if
        ((add_page recovery_max_keys page.keys keys).1
          || leb recovery_max_duration_ms (elapsed round))
        _ _ (λ t. kept)
        λ f.
          Ends-if (page.next == 0) _ _ (λ t. kept)
            λ g.
              scan_from-Ends late fuel (suc round) page.next
                (add_page recovery_max_keys page.keys keys).0 (scanned + length page.keys) slow
                (before_late round late begun slow (ground (arith, f))) (omega (arith, enough)) kept

  -- Whatever Redis replies: where five seconds have passed at some round of the scan, as many
  -- rounds and one are enough for it to end, and then it has ten thousand keys at most.
  pub scan_keys-Ends :
      (late fuel : ℕ)
      → recovery_max_duration_ms ≤ elapsed late
      → late < fuel
      → Ends (scan_keys scan elapsed fuel)
  unfolding scan_keys
  scan_keys-Ends late fuel slow enough =
      scan_from-Ends late fuel 0 0 [] 0 slow (omega arith) (omega (arith, enough)) (omega arith)
