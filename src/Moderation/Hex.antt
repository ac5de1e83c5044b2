-- ===== src/Moderation/Hex.antt =====
-- Hexadecimal digits, as `verifyWebhookSignature` of src/moderation/moderation.service.ts reads and
-- writes them.
use verity_backend.Prelude.{
  ℕ, ◌+◌, ◌-◌, ◌*◌, ◌/◌, ◌%◌, ◌<◌, ◌≡◌, refl, ap, ◌∙◌, true, List, [], ◌∷◌, map, length, All, arith,
}
use verity_backend.Matches.Reveal.{lower}
use verity_backend.Moderation.Signature.{is_hex, all_are, hex_digit, to_hex, hex_value, from_hex}

hex_value-lt : (c : ℕ) → is_hex c ≡ true → hex_value c < 16
hex_value-lt c h = ground arith

hex_digit-hex_value : (c : ℕ) → is_hex c ≡ true → hex_digit (hex_value c) ≡ lower c
unfolding lower
hex_digit-hex_value c h = ground arith

hex_value-hex_digit : (n : ℕ) → n < 16 → hex_value (hex_digit n) ≡ n
hex_value-hex_digit n h = ground arith

is_hex-lower : (c : ℕ) → is_hex (lower c) ≡ is_hex c
unfolding lower
is_hex-lower c = ground arith

is_hex-hex_digit : (n : ℕ) → n < 16 → is_hex (hex_digit n) ≡ true
is_hex-hex_digit n h = ground arith

pub from_hex-to_hex : (xs : List ℕ) → All (λ x. x < 256) xs → from_hex (to_hex xs) ≡ xs
unfolding from_hex to_hex
from_hex-to_hex [] h = refl
from_hex-to_hex (x ∷ xs) (small, rest) =
    let high = hex_value-hex_digit (x / 16) (omega arith) in
    let low = hex_value-hex_digit (x % 16) (omega arith) in
    let same : hex_value (hex_digit (x / 16)) * 16 + hex_value (hex_digit (x % 16)) ≡ x =
      rw (high, low) (omega arith) in
    λ i. same i ∷ from_hex-to_hex xs rest i

pub all_are-to_hex : (xs : List ℕ) → All (λ x. x < 256) xs → all_are is_hex (to_hex xs) ≡ true
unfolding all_are to_hex
all_are-to_hex [] h = refl
all_are-to_hex (x ∷ xs) (small, rest) =
    rw (is_hex-hex_digit (x / 16) (omega arith), is_hex-hex_digit (x % 16) (omega arith))
      (all_are-to_hex xs rest)

pub length-to_hex : (xs : List ℕ) → length (to_hex xs) ≡ 2 * length xs
unfolding to_hex
length-to_hex [] = refl
length-to_hex (x ∷ xs) = omega (arith, length-to_hex xs)

hex_value-lower : (c : ℕ) → is_hex c ≡ true → hex_value (lower c) ≡ hex_value c
unfolding lower
hex_value-lower c h = ground arith

pub from_hex-lower :
    (cs : List ℕ) → all_are is_hex cs ≡ true → from_hex (map lower cs) ≡ from_hex cs
unfolding from_hex all_are
from_hex-lower [] h = refl
from_hex-lower (c ∷ []) h = refl
from_hex-lower (c ∷ d ∷ cs) h =
    let same_c : hex_value (lower c) ≡ hex_value c = hex_value-lower c (ground arith) in
    let same_d : hex_value (lower d) ≡ hex_value d = hex_value-lower d (ground arith) in
    let rest : all_are is_hex cs ≡ true = ground arith in
    λ i. (same_c i * 16 + same_d i) ∷ from_hex-lower cs rest i

one_not_even : (n : ℕ) → 1 ≡ 2 * n → ⊥
one_not_even n h = omega arith

pub to_hex-from_hex :
    (cs : List ℕ) (n : ℕ)
    → length cs ≡ 2 * n
    → all_are is_hex cs ≡ true
    → to_hex (from_hex cs) ≡ map lower cs
unfolding from_hex to_hex all_are
to_hex-from_hex [] n even h = refl
to_hex-from_hex (c ∷ []) n even h = absurd (one_not_even n even)
to_hex-from_hex (c ∷ d ∷ cs) n even h =
    let hex_c : is_hex c ≡ true = ground arith in
    let hex_d : is_hex d ≡ true = ground arith in
    let rest : all_are is_hex cs ≡ true = ground arith in
    let high : (hex_value c * 16 + hex_value d) / 16 ≡ hex_value c =
      omega (arith, hex_value-lt d hex_d) in
    let low : (hex_value c * 16 + hex_value d) % 16 ≡ hex_value d =
      omega (arith, hex_value-lt d hex_d) in
    let first = ap hex_digit high ∙ hex_digit-hex_value c hex_c in
    let second = ap hex_digit low ∙ hex_digit-hex_value d hex_d in
    λ i. first i ∷ second i ∷ to_hex-from_hex cs (n - 1) (omega arith) rest i

pub all_are-lower : (cs : List ℕ) → all_are is_hex (map lower cs) ≡ all_are is_hex cs
unfolding all_are
all_are-lower [] = refl
all_are-lower (c ∷ cs) = rw (is_hex-lower c, all_are-lower cs) refl

pub length-lower : (cs : List ℕ) → length (map lower cs) ≡ length cs
length-lower [] = refl
length-lower (c ∷ cs) = omega (arith, length-lower cs)
