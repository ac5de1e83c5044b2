-- ===== src/Auth/Age.antt =====
-- The age of a user: `calculateAge` in src/auth/auth.service.ts, which `signupAnonymous` and
-- `updateCurrentUser` call. A date is its UTC year, month and day.
use verity_backend.Prelude.{
  ℕ, ◌+◌, ◌≡◌, Bool, true, false, ◌&&◌, ◌||◌, ap, ◌∙◌, arith, ltb, leb, ◌==◌, if◌then◌else◌,
}
use verity_backend.Schema.{Date}
use verity_backend.Prelude.Int.{ℤ, pos, negsuc, minus}

-- `n -= 1`
abbrev pub decrement : ℤ → ℤ
decrement (pos n) = minus n 1
decrement (negsuc n) = negsuc (n + 1)

-- `n < k`
abbrev pub is_below : ℤ → ℕ → Bool
is_below (pos n) k = ltb n k
is_below (negsuc n) k = true

abbrev is_zero : ℤ → Bool
is_zero (pos n) = n == 0
is_zero (negsuc n) = false

-- Whether the day `x` of the month `a` is before the day `y` of the month `c`.
abbrev is_earlier : ℕ → ℕ → ℕ → ℕ → Bool
is_earlier a c x y =
    let month_diff = minus a c in is_below month_diff 0 || (is_zero month_diff && ltb x y)

unfoldable pub calculate_age : Date → Date → ℤ
calculate_age birth now =
    let age = minus now.year birth.year in
    if is_earlier now.month birth.month now.day birth.day then decrement age else age

-- The order of dates.
abbrev pub is_before : Date → Date → Bool
is_before a c =
    ltb a.year c.year
    || (a.year == c.year && (ltb a.month c.month || (a.month == c.month && ltb a.day c.day)))

-- The birthday at which a user turns `n`.
abbrev pub birthday : ℕ → Date → Date
birthday n birth = record birth { year = birth.year + n }

is_below-minus : (a c k : ℕ) → is_below (minus a c) k ≡ ltb a (c + k)
is_below-minus a c k = ground arith

is_below-decrement : (a c k : ℕ) → is_below (decrement (minus a c)) k ≡ leb a (c + k)
is_below-decrement a c k = ground arith

is_zero-minus : (a c : ℕ) → is_zero (minus a c) ≡ (a == c)
is_zero-minus a c = ground arith

is_below-age :
    (t : Bool) (a c k : ℕ)
    → is_below (if t then decrement (minus a c) else minus a c) k
      ≡ (ltb a (c + k) || (a == c + k && t))
is_below-age true a c k = is_below-decrement a c k ∙ ground arith
is_below-age false a c k = is_below-minus a c k ∙ ground arith

is_earlier_lem : (a c x y : ℕ) → is_earlier a c x y ≡ (ltb a c || (a == c && ltb x y))
is_earlier_lem a c x y = ground arith

-- The age that is calculated is below n exactly if the date is before the birthday at which the
-- user turns n.
pub is_below-calculate_age :
    (n : ℕ) (birth now : Date)
    → is_below (calculate_age birth now) n ≡ is_before now (birthday n birth)
unfolding calculate_age
is_below-calculate_age n birth now =
    is_below-age (is_earlier now.month birth.month now.day birth.day) now.year birth.year n
    ∙ ap (λ t. ltb now.year (birth.year + n) || (now.year == birth.year + n && t))
        (is_earlier_lem now.month birth.month now.day birth.day)
