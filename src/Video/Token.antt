-- ===== src/Video/Token.antt =====
-- The Agora tokens of src/video/video.service.ts: `AccessToken2`, its services, and the tokens of
-- a session. The HMAC, SHA-256, base64 and the salt are given.
use verity_backend.Prelude.{
  ℕ, ◌/◌, Option, none, some, List, [], ◌∷◌, ◌++◌, length, ◌==◌, codes, if◌then◌else◌,
}
use verity_backend.Video.Bytes.{Put, ◌⊕◌, put_uint16, put_uint32, put_bytes, put_string}

-- HMAC-SHA-256 by key and data, the first four bytes of a SHA-256 as a number, base64, and the
-- decimal text of a number.
pub record Crypto : Type 0 where
  pub hmac : List ℕ → List ℕ → List ℕ
  pub sha256_head : List ℕ → ℕ
  pub base64 : List ℕ → List ℕ
  pub to_string : ℕ → List ℕ

-- The privileges of a service with their expiry; a later one for the same privilege replaces it.
abbrev pub Privileges : Type 0
Privileges = List (ℕ × ℕ)

abbrev pub set_privilege : ℕ → ℕ → Privileges → Privileges
set_privilege privilege expire [] = (privilege, expire) ∷ []
set_privilege privilege expire ((p, e) ∷ ps) =
    if p == privilege then (p, expire) ∷ ps else (p, e) ∷ set_privilege privilege expire ps

-- `ServiceRtc`, with its channel and the text of its user number, and `ServiceRtm`, with its user.
pub data ServiceKind : Type 0 where
  service_rtc : List ℕ → List ℕ → ServiceKind
  service_rtm : List ℕ → ServiceKind

pub record Service : Type 0 where
  pub kind : ServiceKind
  pub privileges : Privileges

unfoldable pub add_privilege : ℕ → ℕ → Service → Service
add_privilege privilege expire s = record s {
  privileges = set_privilege privilege expire s.privileges;
}

abbrev pub rtc_type : ℕ
rtc_type = 1

abbrev pub rtm_type : ℕ
rtm_type = 2

abbrev pub join_channel : ℕ
join_channel = 1

abbrev pub login : ℕ
login = 1

abbrev pub service_type : ServiceKind → ℕ
service_type (service_rtc channel uid) = rtc_type
service_type (service_rtm user) = rtm_type

unfoldable pub pack_data : ServiceKind → Put
unfolding put_string
pack_data (service_rtc channel uid) = put_string channel ⊕ put_string uid
pack_data (service_rtm user) = put_string user

unfoldable pub pack_privileges : Privileges → Put
unfolding put_uint16 put_uint32
pack_privileges [] = some []
pack_privileges ((privilege, expire) ∷ ps) =
    put_uint16 privilege ⊕ (put_uint32 expire ⊕ pack_privileges ps)

-- `Service.pack`
unfoldable pub pack : Service → Put
unfolding pack_data pack_privileges put_uint16
pack s =
    put_uint16 (service_type s.kind)
    ⊕ (pack_data s.kind ⊕ (put_uint16 (length s.privileges) ⊕ pack_privileges s.privileges))

unfoldable pub pack_all : List Service → Put
unfolding pack
pack_all [] = some []
pack_all (s ∷ ss) = pack s ⊕ pack_all ss

-- `AccessToken2`, without its certificate
pub record AccessToken : Type 0 where
  pub app_id : List ℕ
  pub issue_ts : ℕ
  pub expire : ℕ
  pub salt : ℕ
  pub services : List Service

-- `services.set(type, service)`
abbrev pub set_service : Service → List Service → List Service
set_service s [] = s ∷ []
set_service s (x ∷ xs) =
    if service_type x.kind == service_type s.kind then s ∷ xs else x ∷ set_service s xs

unfoldable pub add_service : Service → AccessToken → AccessToken
add_service s t = record t { services = set_service s t.services }

unfoldable pub head_of : AccessToken → Put
unfolding put_string put_uint32
head_of t =
    put_string t.app_id ⊕ (put_uint32 t.issue_ts ⊕ (put_uint32 t.expire ⊕ put_uint32 t.salt))

unfoldable pub services_of : AccessToken → Put
unfolding put_uint16 pack_all
services_of t = put_uint16 (length t.services) ⊕ pack_all t.services

-- what is signed
unfoldable pub signing : AccessToken → Put
unfolding head_of services_of
signing t = head_of t ⊕ services_of t

abbrev pub content_with : List ℕ → AccessToken → Put
content_with signature t = head_of t ⊕ (put_bytes signature ⊕ services_of t)

abbrev pub signed_content : Crypto → List ℕ → Put → AccessToken → Put
signed_content c certificate none t = none
signed_content c certificate (some to_sign) t = content_with (c.hmac certificate to_sign) t

unfoldable pub content : Crypto → List ℕ → AccessToken → Put
unfolding signing head_of services_of put_bytes
content c certificate t = signed_content c certificate (signing t) t

abbrev pub in_base64 : Crypto → Put → Option (List ℕ)
in_base64 c none = none
in_base64 c (some bytes) = some (codes "007" ++ c.base64 bytes)

unfoldable pub build : Crypto → List ℕ → AccessToken → Option (List ℕ)
unfolding content
build c certificate t = in_base64 c (content c certificate t)

abbrev pub new_access_token : List ℕ → ℕ → ℕ → ℕ → AccessToken
new_access_token app_id now_ms expire salt = record {
  app_id = app_id;
  issue_ts = now_ms / 1000;
  expire = expire;
  salt = salt;
  services = [];
}

-- The environment and the clock that a token is made with.
pub record Issuer : Type 0 where
  pub app_id : List ℕ
  pub certificate : List ℕ
  pub now_ms : ℕ
  pub expire_ts : ℕ
  pub ttl_seconds : ℕ

unfoldable pub rtc_access_token : Crypto → Issuer → ℕ → List ℕ → ℕ → AccessToken
unfolding add_privilege add_service
rtc_access_token c i salt channel uid =
    let service : Service = record {
      kind = service_rtc channel (c.to_string uid);
      privileges = [];
    } in
    add_service (add_privilege join_channel i.expire_ts service)
      (new_access_token i.app_id i.now_ms i.ttl_seconds salt)

unfoldable pub build_rtc_token : Crypto → Issuer → ℕ → List ℕ → ℕ → Option (List ℕ)
unfolding rtc_access_token build
build_rtc_token c i salt channel uid = build c i.certificate (rtc_access_token c i salt channel uid)

unfoldable pub rtm_access_token : Issuer → ℕ → List ℕ → AccessToken
unfolding add_privilege add_service
rtm_access_token i salt user =
    add_service
      (add_privilege login i.expire_ts (record { kind = service_rtm user; privileges = [] }))
      (new_access_token i.app_id i.now_ms i.ttl_seconds salt)

unfoldable pub build_rtm_token : Crypto → Issuer → ℕ → List ℕ → Option (List ℕ)
unfolding rtm_access_token build
build_rtm_token c i salt user = build c i.certificate (rtm_access_token i salt user)

unfoldable pub hash_to_uid : Crypto → List ℕ → ℕ
hash_to_uid c user = let uid = c.sha256_head user in if uid == 0 then 1 else uid

abbrev pub build_channel_name : List ℕ → List ℕ
build_channel_name session = codes "session_" ++ session

-- What one user is given for a session.
pub record UserTokens : Type 0 where
  pub user : List ℕ
  pub rtc_token : List ℕ
  pub rtm_token : List ℕ
  pub rtc_uid : ℕ

abbrev pub with_tokens : List ℕ → ℕ → Option (List ℕ) → Option (List ℕ) → Option UserTokens
with_tokens user uid none rtm = none
with_tokens user uid (some rtc) none = none
with_tokens user uid (some rtc) (some rtm) =
    some (record { user = user; rtc_token = rtc; rtm_token = rtm; rtc_uid = uid })

-- The tokens of one user, with the salts of both.
unfoldable pub user_tokens : Crypto → Issuer → List ℕ → ℕ → ℕ → List ℕ → Option UserTokens
unfolding hash_to_uid build_rtc_token build_rtm_token
user_tokens c i session salt salt' user =
    let uid = hash_to_uid c user in
    with_tokens user uid (build_rtc_token c i salt (build_channel_name session) uid)
      (build_rtm_token c i salt' user)

abbrev pub and_then_tokens : Option UserTokens → Option (List UserTokens) → Option (List UserTokens)
and_then_tokens none rest = none
and_then_tokens (some t) none = none
and_then_tokens (some t) (some ts) = some (t ∷ ts)

-- `byUser`, for users with the salts of their tokens
unfoldable pub tokens_by_user :
    Crypto → Issuer → List ℕ → List (List ℕ × ℕ × ℕ) → Option (List UserTokens)
unfolding user_tokens
tokens_by_user c i session [] = some []
tokens_by_user c i session ((user, salt, salt') ∷ users) =
    and_then_tokens (user_tokens c i session salt salt' user) (tokens_by_user c i session users)
