-- ===== src/Tests/VideoTests.antt =====
-- Examples of the tokens of a session.
use verity_backend.Prelude.{ℕ, zero, suc, refl, [], ◌∷◌, List, codes, arith}
use verity_backend.Video.Bytes.{utf8}
use verity_backend.Video.Token.{
  Crypto, Issuer, rtc_access_token, rtm_access_token, build_channel_name, hash_to_uid,
}
use verity_backend.Video.Readback.{IsReadable, IsIssuable, session_tokens-IsReadable}

abbrev pub zeros : ℕ → List ℕ
zeros zero = []
zeros (suc n) = 0 ∷ zeros n

abbrev fixed_crypto : Crypto
fixed_crypto = record {
  hmac = λ key bytes. zeros 32;
  sha256_head = λ bytes. 5;
  base64 = λ bytes. bytes;
  to_string = λ n. codes "5";
}

abbrev issuer : Issuer
issuer = record {
  app_id = codes "app";
  certificate = codes "key";
  now_ms = 1700000000000;
  expire_ts = 1700000060;
  ttl_seconds = 60;
}

issuer-IsIssuable : IsIssuable issuer 7
unfolding utf8
issuer-IsIssuable = record {
  app_id = omega arith;
  issue_ts = omega arith;
  expire_ts = omega arith;
  ttl_seconds = omega arith;
  salt_fits = omega arith;
}

session_tokens-IsReadable_example :
    IsReadable fixed_crypto issuer.certificate 32 (
      rtc_access_token fixed_crypto issuer 7
        (build_channel_name (codes "s1"))
        (hash_to_uid fixed_crypto (codes "u1")))
    × IsReadable fixed_crypto issuer.certificate 32 (rtm_access_token issuer 7 (codes "u1"))
unfolding utf8
session_tokens-IsReadable_example =
    session_tokens-IsReadable fixed_crypto issuer 7 7 (codes "s1") (codes "u1") (λ key bytes. refl)
      issuer-IsIssuable issuer-IsIssuable (omega arith) (omega arith) (omega arith)
