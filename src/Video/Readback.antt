-- ===== src/Video/Readback.antt =====
-- The tokens of a session, as the reader of `Video.Reader` reads them.
use mathlib.Core.List.{append-nil, append_assoc}
use verity_backend.Prelude.{
  ℕ, ◌/◌, ◌<◌, ◌≡◌, refl, sym, subst, ap, ◌∙◌, none, some, List, [], ◌∷◌, arith, lt→ltb, length,
}
use verity_backend.Video.Bytes.{Put, ◌⊕◌, put_uint16, put_uint32, put_bytes, utf8, put_string}
use verity_backend.Video.Token.{
  ServiceKind, service_rtc, service_rtm, service_type, pack_data, pack_privileges, pack, pack_all,
  AccessToken, head_of, services_of, signing, content, content_with, Crypto, Issuer,
  rtc_access_token, rtm_access_token, build_channel_name, hash_to_uid,
}
use verity_backend.Video.Reader.{
  Reads, ReadsPut, ReadsPut-⊕, ReadsPut-done, read_string, read_uint16, read_uint32, read_bytes,
  read_services, read_token, put_uint16-ReadsPut, put_uint32-ReadsPut, put_bytes-ReadsPut,
  put_string-ReadsPut, pack_all-ReadsPut, services_in_utf8, in_utf8,
}

⊕_assoc : (p q r : Put) → (p ⊕ q) ⊕ r ≡ p ⊕ (q ⊕ r)
⊕_assoc none q r = refl
⊕_assoc (some b) none r = refl
⊕_assoc (some b) (some c) none = refl
⊕_assoc (some b) (some c) (some d) = ap some (append_assoc b c d)

abbrev flat_content : List ℕ → AccessToken → Put
unfolding services_of
flat_content signature t =
    put_string t.app_id
    ⊕ (put_uint32 t.issue_ts
        ⊕ (put_uint32 t.expire ⊕ (put_uint32 t.salt ⊕ (put_bytes signature ⊕ services_of t))))

content_with-flat :
    (signature : List ℕ) (t : AccessToken) → content_with signature t ≡ flat_content signature t
unfolding head_of services_of
content_with-flat signature t =
    let a = put_string t.app_id in
    let i = put_uint32 t.issue_ts in
    let e = put_uint32 t.expire in
    let s = put_uint32 t.salt in
    let rest = put_bytes signature ⊕ services_of t in
    ⊕_assoc a (i ⊕ (e ⊕ s)) rest
    ∙ ap (λ (p : Put). a ⊕ p) (⊕_assoc i (e ⊕ s) rest ∙ ap (λ (p : Put). i ⊕ p) (⊕_assoc e s rest))

read_token-flat :
    (signature : List ℕ) (t : AccessToken)
    → ReadsPut (read_token (length signature)) (flat_content signature t) (in_utf8 t, signature)
unfolding read_token services_of
read_token-flat signature t =
    let a : AccessToken × List ℕ = (in_utf8 t, signature) in
    ReadsPut-⊕ read_string _ (put_string t.app_id) _ (utf8 t.app_id) a
      (put_string-ReadsPut t.app_id)
      (ReadsPut-⊕ read_uint32 _ (put_uint32 t.issue_ts) _ t.issue_ts a
        (put_uint32-ReadsPut t.issue_ts)
        (ReadsPut-⊕ read_uint32 _ (put_uint32 t.expire) _ t.expire a (put_uint32-ReadsPut t.expire)
          (ReadsPut-⊕ read_uint32 _ (put_uint32 t.salt) _ t.salt a (put_uint32-ReadsPut t.salt) (
            ReadsPut-⊕ (read_bytes (length signature)) _ (put_bytes signature) _ signature a
              (put_bytes-ReadsPut signature)
              (ReadsPut-⊕ read_uint16 _ (put_uint16 (length t.services)) (pack_all t.services)
                (length t.services) a (put_uint16-ReadsPut (length t.services))
                (ReadsPut-done (read_services (length t.services)) (pack_all t.services)
                  (services_in_utf8 t.services)
                  (λ ss. (record (in_utf8 t) { services = ss }, signature))
                  (pack_all-ReadsPut t.services)))))))

-- Bytes that can be put.
abbrev pub IsPut : Put → Type 0
IsPut none = ⊥
IsPut (some bytes) = Unit

IsPut-⊕ : (p q : Put) → IsPut p → IsPut q → IsPut (p ⊕ q)
IsPut-⊕ none q h k = h
IsPut-⊕ (some b) none h k = k
IsPut-⊕ (some b) (some c) h k = tt

IsPut-cases : (p : Put) → IsPut p → (bytes : List ℕ) × (p ≡ some bytes)
IsPut-cases none h = absurd h
IsPut-cases (some bytes) h = (bytes, refl)

put_uint16-IsPut : (v : ℕ) → v < 65536 → IsPut (put_uint16 v)
unfolding put_uint16
put_uint16-IsPut v h = rw (lt→ltb v 65536 h) tt

put_uint32-IsPut : (v : ℕ) → v < 4294967296 → IsPut (put_uint32 v)
unfolding put_uint32
put_uint32-IsPut v h = rw (lt→ltb v 4294967296 h) tt

put_string-IsPut : (value : List ℕ) → length (utf8 value) < 65536 → IsPut (put_string value)
unfolding put_string put_bytes
put_string-IsPut value h =
    IsPut-⊕ (put_uint16 (length (utf8 value))) (some (utf8 value))
      (put_uint16-IsPut (length (utf8 value)) h) tt

-- A token whose parts fit into their places.
pub record Fits (t : AccessToken) : Type 0 where
  pub app_id : length (utf8 t.app_id) < 65536
  pub issue_ts : t.issue_ts < 4294967296
  pub expire : t.expire < 4294967296
  pub salt : t.salt < 4294967296
  pub services : IsPut (services_of t)

head_of-IsPut : (t : AccessToken) → Fits t → IsPut (head_of t)
unfolding head_of
head_of-IsPut t f = IsPut-⊕ (put_string t.app_id) _ (put_string-IsPut t.app_id f.app_id) (
    IsPut-⊕ (put_uint32 t.issue_ts) _ (put_uint32-IsPut t.issue_ts f.issue_ts) (
      IsPut-⊕ (put_uint32 t.expire) (put_uint32 t.salt) (put_uint32-IsPut t.expire f.expire)
        (put_uint32-IsPut t.salt f.salt)))

signing-IsPut : (t : AccessToken) → Fits t → IsPut (signing t)
unfolding signing
signing-IsPut t f = IsPut-⊕ (head_of t) (services_of t) (head_of-IsPut t f) f.services

content_with-IsPut :
    (signature : List ℕ) (t : AccessToken) → Fits t → IsPut (content_with signature t)
unfolding put_bytes
content_with-IsPut signature t f =
    IsPut-⊕ (head_of t) _ (head_of-IsPut t f)
      (IsPut-⊕ (some signature) (services_of t) tt f.services)

-- What a token says: its parts, and the signature of the bytes that were to be signed.
abbrev pub IsReadable : Crypto → List ℕ → ℕ → AccessToken → Type 0
IsReadable c certificate size t =
    (bytes : List ℕ) × (to_sign : List ℕ) × (content c certificate t ≡ some bytes)
    × (signing t ≡ some to_sign)
    × (read_token size bytes ≡ some ((in_utf8 t, c.hmac certificate to_sign), []))

read_of :
    (size : ℕ) (signature bytes : List ℕ) (t : AccessToken)
    → length signature ≡ size
    → content_with signature t ≡ some bytes
    → read_token size bytes ≡ some ((in_utf8 t, signature), [])
read_of size signature bytes t same put =
    let flat : flat_content signature t ≡ some bytes = sym (content_with-flat signature t) ∙ put in
    let reads : Reads (read_token (length signature)) bytes (in_utf8 t, signature) =
      subst (λ p. ReadsPut (read_token (length signature)) p (in_utf8 t, signature)) flat
        (read_token-flat signature t) in
    rw (← same, ← append-nil bytes) (reads [])

content-IsReadable :
    (c : Crypto) (certificate : List ℕ) (size : ℕ) (t : AccessToken)
    → ((key bytes : List ℕ) → length (c.hmac key bytes) ≡ size)
    → Fits t
    → IsReadable c certificate size t
unfolding content
content-IsReadable c certificate size t digest f =
    let (to_sign, signed) = IsPut-cases (signing t) (signing-IsPut t f) in
    let signature = c.hmac certificate to_sign in
    let (bytes, put) = IsPut-cases (content_with signature t) (content_with-IsPut signature t f) in
    (
      bytes,
      to_sign,
      (rw signed put),
      signed,
      read_of size signature bytes t (digest certificate to_sign) put,
    )

-- The values of a session's tokens fit: times before the year 2106, and short texts.
pub record IsIssuable (i : Issuer) (salt : ℕ) : Type 0 where
  pub app_id : length (utf8 i.app_id) < 65536
  pub issue_ts : i.now_ms / 1000 < 4294967296
  pub expire_ts : i.expire_ts < 4294967296
  pub ttl_seconds : i.ttl_seconds < 4294967296
  pub salt_fits : salt < 4294967296

service_type-lt : (k : ServiceKind) → service_type k < 65536
service_type-lt (service_rtc channel uid) = omega arith
service_type-lt (service_rtm user) = omega arith

one_service-IsPut :
    (k : ServiceKind) (expire : ℕ)
    → IsPut (pack_data k)
    → expire < 4294967296
    → IsPut (put_uint16 1 ⊕ pack_all (record { kind = k; privileges = (1, expire) ∷ [] } ∷ []))
unfolding pack_all pack pack_privileges
one_service-IsPut k expire h e =
    let one = put_uint16-IsPut 1 (omega arith) in
    let privileges =
      IsPut-⊕ (put_uint16 1) (put_uint32 expire ⊕ some []) one
        (IsPut-⊕ (put_uint32 expire) (some []) (put_uint32-IsPut expire e) tt) in
    let packed =
      IsPut-⊕ (put_uint16 (service_type k))
        (pack_data k ⊕ (put_uint16 1 ⊕ (put_uint16 1 ⊕ (put_uint32 expire ⊕ some []))))
        (put_uint16-IsPut (service_type k) (service_type-lt k))
        (IsPut-⊕ (pack_data k) (put_uint16 1 ⊕ (put_uint16 1 ⊕ (put_uint32 expire ⊕ some []))) h
          (IsPut-⊕ (put_uint16 1) (put_uint16 1 ⊕ (put_uint32 expire ⊕ some [])) one privileges)) in
    IsPut-⊕ (put_uint16 1) _ one (IsPut-⊕ _ (some []) packed tt)

-- The RTC and RTM tokens of a user can be built where all values fit, and a reader gets the
-- application, the times, the channel or the user and the privilege back from them, beside the
-- signature of these bytes.
pub session_tokens-IsReadable :
    (c : Crypto) (i : Issuer) (salt salt' : ℕ) (session user : List ℕ)
    → ((key bytes : List ℕ) → length (c.hmac key bytes) ≡ 32)
    → IsIssuable i salt
    → IsIssuable i salt'
    → length (utf8 (build_channel_name session)) < 65536
    → length (utf8 user) < 65536
    → length (utf8 (c.to_string (hash_to_uid c user))) < 65536
    → IsReadable c i.certificate 32
        (rtc_access_token c i salt (build_channel_name session) (hash_to_uid c user))
      × IsReadable c i.certificate 32 (rtm_access_token i salt' user)
unfolding services_of rtc_access_token rtm_access_token pack_data
session_tokens-IsReadable c i salt salt' session user digest issuable issuable' short_channel
      short_user short_uid =
    let channel = build_channel_name session in
    let uid = c.to_string (hash_to_uid c user) in
    (
      content-IsReadable c i.certificate 32 (rtc_access_token c i salt channel (hash_to_uid c user))
          digest
          (record {
            app_id = issuable.app_id;
            issue_ts = issuable.issue_ts;
            expire = issuable.ttl_seconds;
            salt = issuable.salt_fits;
            services =
                one_service-IsPut (service_rtc channel uid) i.expire_ts
                  (IsPut-⊕ (put_string channel) (put_string uid)
                    (put_string-IsPut channel short_channel) (put_string-IsPut uid short_uid))
                  issuable.expire_ts;
          }),
      content-IsReadable c i.certificate 32 (rtm_access_token i salt' user) digest (record {
        app_id = issuable'.app_id;
        issue_ts = issuable'.issue_ts;
        expire = issuable'.ttl_seconds;
        salt = issuable'.salt_fits;
        services =
            one_service-IsPut (service_rtm user) i.expire_ts (put_string-IsPut user short_user)
              issuable'.expire_ts;
      }),
    )
