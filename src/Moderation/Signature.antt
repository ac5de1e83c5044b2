-- ===== src/Moderation/Signature.antt =====
-- `verifyWebhookSignature` of src/moderation/moderation.service.ts. A text is the list of its code
-- points, and the HMAC-SHA-256 of the bytes of a request is an argument.
use verity_backend.Prelude.{
  ℕ, ◌+◌, ◌-◌, ◌*◌, ◌/◌, ◌%◌, Bool, true, not, ◌&&◌, ◌||◌, Option, none, some, List, [], ◌∷◌,
  length, leb, ltb, ◌==◌, codes, same_text, if◌then◌else◌,
}
use verity_backend.Exec.{
  Result, ok, err, missing_secret, missing_signature, missing_timestamp, invalid_timestamp,
  stale_timestamp, invalid_signature,
}
use verity_backend.Payments.Webhook.{is_digit}
use verity_backend.Queue.City.{non_empty}

-- [0-9a-fA-F]
abbrev pub is_hex : ℕ → Bool
is_hex c = is_digit c || (leb b'a' c && leb c b'f') || (leb b'A' c && leb c b'F')

unfoldable pub all_are : (ℕ → Bool) → List ℕ → Bool
all_are p [] = true
all_are p (c ∷ cs) = p c && all_are p cs

-- /^\d{10,16}$/
unfoldable pub is_timestamp : List ℕ → Bool
unfolding all_are
is_timestamp cs = all_are is_digit cs && leb 10 (length cs) && leb (length cs) 16

-- /^[0-9a-fA-F]{64}$/
unfoldable pub is_signature : List ℕ → Bool
unfolding all_are
is_signature cs = all_are is_hex cs && length cs == 64

unfoldable pub to_number : ℕ → List ℕ → ℕ
to_number n [] = n
to_number n (c ∷ cs) = to_number (n * 10 + (c - b'0')) cs

-- A time in seconds or in milliseconds. From 2 ^ 53 on, `Number` would round it; such a time is
-- stale in any case.
unfoldable pub sent_at : List ℕ → ℕ
unfolding to_number
sent_at cs = let ts = to_number 0 cs in if ltb ts 1_000_000_000_000 then ts * 1000 else ts

abbrev pub max_drift : ℕ
max_drift = 300_000

abbrev pub is_stale : ℕ → ℕ → Bool
is_stale now ts = let drift = if ltb now ts then ts - now else now - ts in ltb max_drift drift

abbrev pub after_prefix : List ℕ → List ℕ → Option (List ℕ)
after_prefix [] cs = some cs
after_prefix (p ∷ ps) [] = none
after_prefix (p ∷ ps) (c ∷ cs) = if c == p then after_prefix ps cs else none

abbrev pub rest_or : List ℕ → Option (List ℕ) → List ℕ
rest_or cs none = cs
rest_or cs (some rest) = rest

unfoldable pub raw_signature : List ℕ → List ℕ
raw_signature cs = rest_or cs (after_prefix (codes "sha256=") cs)

-- `digest('hex')`
abbrev pub hex_digit : ℕ → ℕ
hex_digit n = if ltb n 10 then b'0' + n else n - 10 + b'a'

unfoldable pub to_hex : List ℕ → List ℕ
to_hex [] = []
to_hex (x ∷ xs) = hex_digit (x / 16) ∷ hex_digit (x % 16) ∷ to_hex xs

-- `Buffer.from(text, 'hex')`, for a text of hexadecimal digits
abbrev pub hex_value : ℕ → ℕ
hex_value c = if is_digit c then c - b'0' else if leb b'a' c then c - b'a' + 10 else c - b'A' + 10

unfoldable pub from_hex : List ℕ → List ℕ
from_hex [] = []
from_hex (c ∷ []) = []
from_hex (c ∷ d ∷ cs) = (hex_value c * 16 + hex_value d) ∷ from_hex cs

-- The HMAC of some bytes, by its key.
abbrev pub Hmac : Type 0
Hmac = List ℕ → List ℕ → List ℕ

-- `same_text` is the comparison of both buffers, their lengths included.
unfoldable pub check_signature : Hmac → List ℕ → List ℕ → List ℕ → Result (Unit {0})
unfolding is_signature to_hex from_hex
check_signature hmac secret body raw =
    if not (is_signature raw)
    then err invalid_signature
    else if same_text (from_hex raw) (from_hex (to_hex (hmac secret body)))
    then ok tt
    else err invalid_signature

unfoldable pub check_given : Hmac → List ℕ → List ℕ → List ℕ → List ℕ → ℕ → Result (Unit {0})
unfolding is_timestamp sent_at raw_signature check_signature
check_given hmac secret body signature timestamp now =
    if not (is_timestamp timestamp)
    then err invalid_timestamp
    else if is_stale now (sent_at timestamp)
    then err stale_timestamp
    else check_signature hmac secret body (raw_signature signature)

unfoldable pub check_filled :
    Hmac → Option (List ℕ) → List ℕ → Option (List ℕ) → Option (List ℕ) → ℕ → Result (Unit {0})
unfolding check_given
check_filled hmac none body signature timestamp now = err missing_secret
check_filled hmac (some s) body none timestamp now = err missing_signature
check_filled hmac (some s) body (some g) none now = err missing_timestamp
check_filled hmac (some s) body (some g) (some t) now = check_given hmac s body g t now

abbrev pub filled : Option (List ℕ) → Option (List ℕ)
filled none = none
filled (some cs) = non_empty cs

-- By the secret HIVE_WEBHOOK_SECRET, the bytes, both headers and the time.
unfoldable pub verify_webhook_signature :
    Hmac → Option (List ℕ) → List ℕ → Option (List ℕ) → Option (List ℕ) → ℕ → Result (Unit {0})
unfolding check_filled
verify_webhook_signature hmac secret body signature timestamp now =
    check_filled hmac (filled secret) body (filled signature) (filled timestamp) now
