-- ===== src/Moderation/Signed.antt =====
-- The deliveries that `verifyWebhookSignature` of src/moderation/moderation.service.ts judges.
use verity_backend.Prelude.{
  ℕ, ◌+◌, ◌≤◌, ◌<◌, ◌≡◌, ◌≢◌, ◌↔◌, refl, ap, sym, ◌∙◌, Bool, true, false, not, some, List, [], ◌∷◌,
  map, length, All, same_text, same_text_refl, same_text→≡, if◌then◌else◌, arith, Bool-cases, inl,
  inr,
}
use verity_backend.Exec.{Result, ok, err, invalid_signature, invalid_timestamp, stale_timestamp}
use verity_backend.Matches.Reveal.{lower}
use verity_backend.Moderation.Signature.{
  is_hex, all_are, is_timestamp, is_signature, sent_at, raw_signature, to_hex, from_hex, is_stale,
  Hmac, check_signature, check_given, check_filled, verify_webhook_signature,
}
use verity_backend.Moderation.Hex.{
  from_hex-to_hex, to_hex-from_hex, from_hex-lower, all_are-lower, all_are-to_hex, length-to_hex,
  length-lower,
}

-- Bytes, as many as an HMAC-SHA-256 has.
abbrev pub IsDigest : List ℕ → Type 0
IsDigest bytes = (length bytes ≡ 32) × All (λ x. x < 256) bytes

-- The signature is the digest of the body in hexadecimal digits, in any case of letters and
-- possibly behind a prefix.
abbrev pub IsSignedWith : List ℕ → List ℕ → Type 0
IsSignedWith digest signature = map lower (raw_signature signature) ≡ to_hex digest

is_signature-signed :
    (digest raw : List ℕ)
    → IsDigest digest
    → map lower raw ≡ to_hex digest
    → is_signature raw ≡ true
unfolding is_signature
is_signature-signed digest raw (size, bytes) e =
    let hex : all_are is_hex raw ≡ true =
      sym (all_are-lower raw) ∙ ap (all_are is_hex) e ∙ all_are-to_hex digest bytes in
    let long : length raw ≡ 64 =
      omega (arith, length-lower raw, ap length e, length-to_hex digest) in
    rw (hex, long) refl

same_bytes :
    (digest raw : List ℕ)
    → IsDigest digest
    → is_signature raw ≡ true
    → (same_text (from_hex raw) (from_hex (to_hex digest)) ≡ true) ↔ (map lower raw ≡ to_hex digest)
unfolding is_signature
same_bytes digest raw (size, bytes) h =
    let hex : all_are is_hex raw ≡ true = ground arith in
    let long : length raw ≡ 64 = ground arith in
    let back = from_hex-to_hex digest bytes in
    let there = to_hex-from_hex raw 32 long hex in
    (
      λ same. sym there ∙ ap to_hex (same_text→≡ _ _ same ∙ back),
      λ e.
          let from : from_hex raw ≡ digest = sym (from_hex-lower raw hex) ∙ ap from_hex e ∙ back in
          rw (from, back) (same_text_refl digest),
    )

passes :
    (t u : Bool)
    → t ≡ true
    → ◌≡◌ {A = Result (Unit {0})}
        (if not t then err invalid_signature else if u then ok tt else err invalid_signature)
        (ok tt)
    → u ≡ true
passes t u h e = ground arith

stops :
    (t u : Bool)
    → t ≡ false
    → ◌≡◌ {A = Result (Unit {0})}
        (if not t then err invalid_signature else if u then ok tt else err invalid_signature)
        (ok tt)
    → ⊥
stops t u h e = ground arith

true_not_false : (b : Bool) → b ≡ false → b ≡ true → ⊥
true_not_false b f t = cc

check_signature-ok :
    (hmac : Hmac) (secret body raw : List ℕ)
    → IsDigest (hmac secret body)
    → (check_signature hmac secret body raw ≡ ok tt) ↔ (map lower raw ≡ to_hex (hmac secret body))
unfolding check_signature
check_signature-ok hmac secret body raw digest = elim (Bool-cases (is_signature raw)) [
  | inl h ↦
      let (there, back) = same_bytes (hmac secret body) raw digest h in
      (λ e. there (passes (is_signature raw) _ h e), λ e. rw (h, back e) refl)
  | inr h ↦ (
    λ e. absurd (stops (is_signature raw) _ h e),
    λ e. absurd (true_not_false _ h (is_signature-signed (hmac secret body) raw digest e)),
  )
]

-- What the guards of a delivery ask for.
abbrev pub IsTimely : List ℕ → ℕ → Type 0
IsTimely timestamp now =
    (is_timestamp timestamp ≡ true)
    × (sent_at timestamp ≤ now + 300_000)
    × (now ≤ sent_at timestamp + 300_000)

abbrev given : Bool → ℕ → ℕ → Result (Unit {0}) → Result (Unit {0})
given a ts now r =
    if not a then err invalid_timestamp else if is_stale now ts then err stale_timestamp else r

-- The guards before the signature, in the shape of the code.
module _ (a : Bool) (ts now : ℕ) (r : Result (Unit {0})) where
  given_ok :
      given a ts now r ≡ ok tt
      → ((a ≡ true) × (ts ≤ now + 300_000) × (now ≤ ts + 300_000)) × (r ≡ ok tt)
  given_ok h = ((ground arith, ground arith, ground arith), ground arith)

  given_back :
      (a ≡ true) × (ts ≤ now + 300_000) × (now ≤ ts + 300_000)
      → r ≡ ok tt
      → given a ts now r ≡ ok tt
  given_back (h, low, high) e = ground arith

not_signed : (digest : List ℕ) → IsDigest digest → IsSignedWith digest [] → ⊥
unfolding raw_signature
not_signed digest (size, bytes) signed = omega (arith, ap length signed, length-to_hex digest)

no_timestamp : is_timestamp [] ≡ true → ⊥
unfolding is_timestamp all_are
no_timestamp h = cc

check_given-ok :
    (hmac : Hmac) (secret body signature timestamp : List ℕ) (now : ℕ)
    → IsDigest (hmac secret body)
    → (check_given hmac secret body signature timestamp now ≡ ok tt)
      ↔ (IsTimely timestamp now × IsSignedWith (hmac secret body) signature)
unfolding check_given
check_given-ok hmac secret body signature timestamp now digest =
    let (there, back) = check_signature-ok hmac secret body (raw_signature signature) digest in
    (
      λ h.
          let (timely, checked) =
            given_ok (is_timestamp timestamp) (sent_at timestamp) now
              (check_signature hmac secret body (raw_signature signature)) h in
          (timely, there checked),
      λ (timely, signed).
          given_back (is_timestamp timestamp) (sent_at timestamp) now
            (check_signature hmac secret body (raw_signature signature)) timely (back signed),
    )

-- Where the HMAC gives 32 bytes, a delivery passes exactly if the secret is not empty, the
-- timestamp has ten to sixteen digits and is at most five minutes from now, and the signature is
-- the HMAC of the body.
pub verify_webhook_signature-ok :
    (hmac : Hmac) (secret body signature timestamp : List ℕ) (now : ℕ)
    → IsDigest (hmac secret body)
    → (verify_webhook_signature hmac (some secret) body (some signature) (some timestamp) now
        ≡ ok tt)
      ↔ ((secret ≢ []) × IsTimely timestamp now × IsSignedWith (hmac secret body) signature)
unfolding verify_webhook_signature check_filled
verify_webhook_signature-ok hmac [] body signature timestamp now digest =
    (λ h. cc, λ (given, timely, signed). absurd (given refl))
verify_webhook_signature-ok hmac (c ∷ cs) body [] timestamp now digest =
    (λ h. cc, λ (given, timely, signed). absurd (not_signed (hmac (c ∷ cs) body) digest signed))
verify_webhook_signature-ok hmac (c ∷ cs) body (g ∷ gs) [] now digest =
    (λ h. cc, λ (given, (digits, low, high), signed). absurd (no_timestamp digits))
verify_webhook_signature-ok hmac (c ∷ cs) body (g ∷ gs) (t ∷ ts) now digest =
    let (there, back) = check_given-ok hmac (c ∷ cs) body (g ∷ gs) (t ∷ ts) now digest in
    (
      λ h. let (timely, signed) = there h in (λ e. cc, timely, signed),
      λ (given, timely, signed). back (timely, signed),
    )
