-- ===== src/Video/Reader.antt =====
-- A reader of the tokens that src/video/video.service.ts packs.
use mathlib.Core.List.{append_assoc}
use verity_backend.Prelude.{
  ℕ, zero, suc, ◌+◌, ◌*◌, ◌≡◌, refl, ap, inl, inr, Option, none, some, List, [], ◌∷◌, ◌++◌, arith,
  length, ltb, ◌==◌, Bool-cases, if◌then◌else◌,
}
use verity_backend.Video.Bytes.{Put, ◌⊕◌, put_uint16, put_uint32, put_bytes, utf8, put_string}
use verity_backend.Video.Token.{
  Privileges, ServiceKind, service_rtc, service_rtm, Service, service_type, rtc_type, pack_data,
  pack_privileges, pack, pack_all, AccessToken,
}

-- A reader of bytes: what it reads, and the bytes that are left.
abbrev pub Reader : Type 0 → Type 0
Reader A = List ℕ → Option (A × List ℕ)

abbrev pub run : {A B : Type 0} → Option (A × List ℕ) → (A → Reader B) → Option (B × List ℕ)
run none f = none
run (some (a, rest)) f = f a rest

infixl 10 ◌>>=◌
abbrev pub ◌>>=◌ : {A B : Type 0} → Reader A → (A → Reader B) → Reader B
◌>>=◌ m f bytes = run (m bytes) f

abbrev pub done : {A : Type 0} → A → Reader A
done a bytes = some (a, bytes)

pub read_uint16 : Reader ℕ
read_uint16 (a ∷ c ∷ rest) = some (a + 256 * c, rest)
read_uint16 _ = none

pub read_uint32 : Reader ℕ
read_uint32 (a ∷ c ∷ d ∷ e ∷ rest) = some (a + 256 * c + 65536 * d + 16777216 * e, rest)
read_uint32 _ = none

abbrev with_first : ℕ → Option (List ℕ × List ℕ) → Option (List ℕ × List ℕ)
with_first b none = none
with_first b (some (bs, rest)) = some (b ∷ bs, rest)

pub read_bytes : ℕ → Reader (List ℕ)
read_bytes zero rest = some ([], rest)
read_bytes (suc k) [] = none
read_bytes (suc k) (b ∷ bs) = with_first b (read_bytes k bs)

-- The reader gets the value from the bytes, whatever follows them.
abbrev pub Reads : {A : Type 0} → Reader A → List ℕ → A → Type 0
Reads m bytes a = (rest : List ℕ) → m (bytes ++ rest) ≡ some (a, rest)

-- The same for bytes that are put, where putting them does not throw.
abbrev pub ReadsPut : {A : Type 0} → Reader A → Put → A → Type 0
ReadsPut m none a = Unit
ReadsPut m (some bytes) a = Reads m bytes a

pub ReadsPut-⊕ :
    {A B : Type 0} (m : Reader A) (f : A → Reader B) (p q : Put) (a : A) (x : B)
    → ReadsPut m p a
    → ReadsPut (f a) q x
    → ReadsPut (m >>= f) (p ⊕ q) x
ReadsPut-⊕ m f none q a x h k = tt
ReadsPut-⊕ m f (some b) none a x h k = tt
ReadsPut-⊕ m f (some b) (some c) a x h k =
    λ rest. rw (append_assoc b c rest, h (c ++ rest)) (k rest)

pub put_uint16-ReadsPut : (v : ℕ) → ReadsPut read_uint16 (put_uint16 v) v
unfolding put_uint16 read_uint16
put_uint16-ReadsPut v = elim (Bool-cases (ltb v 65536)) [
  | inl e ↦ rw e (λ rest. ap (λ (k : ℕ). some (k, rest)) (omega arith))
  | inr e ↦ rw e tt
]

pub put_uint32-ReadsPut : (v : ℕ) → ReadsPut read_uint32 (put_uint32 v) v
unfolding put_uint32 read_uint32
put_uint32-ReadsPut v = elim (Bool-cases (ltb v 4294967296)) [
  | inl e ↦ rw e (λ rest. ap (λ (k : ℕ). some (k, rest)) (omega arith))
  | inr e ↦ rw e tt
]

read_bytes-Reads : (bs : List ℕ) → Reads (read_bytes (length bs)) bs bs
unfolding read_bytes
read_bytes-Reads [] rest = refl
read_bytes-Reads (b ∷ bs) rest = rw (read_bytes-Reads bs rest)

-- the text of a `putString`, as its UTF-8 bytes
pub read_string : Reader (List ℕ)
unfolding read_uint16 read_bytes
read_string = read_uint16 >>= read_bytes

pub put_bytes-ReadsPut : (bs : List ℕ) → ReadsPut (read_bytes (length bs)) (put_bytes bs) bs
unfolding put_bytes
put_bytes-ReadsPut bs = read_bytes-Reads bs

pub put_string-ReadsPut : (value : List ℕ) → ReadsPut read_string (put_string value) (utf8 value)
unfolding read_string put_string
put_string-ReadsPut value =
    ReadsPut-⊕ read_uint16 read_bytes (put_uint16 (length (utf8 value))) (put_bytes (utf8 value))
      (length (utf8 value)) (utf8 value) (put_uint16-ReadsPut (length (utf8 value)))
      (put_bytes-ReadsPut (utf8 value))

read_privileges : ℕ → Reader Privileges
unfolding read_uint16 read_uint32
read_privileges zero = done []
read_privileges (suc k) =
    read_uint16 >>= λ p. read_uint32 >>= λ e. read_privileges k >>= λ ps. done ((p, e) ∷ ps)

read_data : ℕ → Reader ServiceKind
unfolding read_string
read_data type =
    if type == rtc_type
    then (read_string >>= λ channel. read_string >>= λ uid. done (service_rtc channel uid))
    else (read_string >>= λ user. done (service_rtm user))

read_service : Reader Service
unfolding read_uint16 read_data read_privileges
read_service = read_uint16 >>= λ type. read_data type >>= λ kind. read_uint16 >>= λ count.
    read_privileges count >>= λ ps. done (record { kind = kind; privileges = ps })

abbrev pub kind_in_utf8 : ServiceKind → ServiceKind
kind_in_utf8 (service_rtc channel uid) = service_rtc (utf8 channel) (utf8 uid)
kind_in_utf8 (service_rtm user) = service_rtm (utf8 user)

abbrev pub service_in_utf8 : Service → Service
service_in_utf8 s = record s { kind = kind_in_utf8 s.kind }

-- The last reader of a chain, whose value is computed.
pub ReadsPut-done :
    {A B : Type 0} (m : Reader A) (p : Put) (a : A) (f : A → B)
    → ReadsPut m p a
    → ReadsPut (m >>= λ x. done (f x)) p (f a)
ReadsPut-done m none a f h = tt
ReadsPut-done m (some b) a f h = λ rest. rw (h rest)

pack_privileges-ReadsPut :
    (ps : Privileges) → ReadsPut (read_privileges (length ps)) (pack_privileges ps) ps
unfolding read_privileges pack_privileges
pack_privileges-ReadsPut [] = λ rest. refl
pack_privileges-ReadsPut ((p, e) ∷ ps) =
    ReadsPut-⊕ read_uint16 _ (put_uint16 p) (put_uint32 e ⊕ pack_privileges ps) p ((p, e) ∷ ps)
      (put_uint16-ReadsPut p)
      (ReadsPut-⊕ read_uint32 _ (put_uint32 e) (pack_privileges ps) e ((p, e) ∷ ps)
        (put_uint32-ReadsPut e)
        (ReadsPut-done (read_privileges (length ps)) (pack_privileges ps) ps (λ qs. (p, e) ∷ qs)
          (pack_privileges-ReadsPut ps)))

pack_data-ReadsPut :
    (k : ServiceKind) → ReadsPut (read_data (service_type k)) (pack_data k) (kind_in_utf8 k)
unfolding read_data pack_data
pack_data-ReadsPut (service_rtc channel uid) =
    ReadsPut-⊕ read_string _ (put_string channel) (put_string uid) (utf8 channel)
      (service_rtc (utf8 channel) (utf8 uid)) (put_string-ReadsPut channel)
      (ReadsPut-done read_string (put_string uid) (utf8 uid) (service_rtc (utf8 channel))
        (put_string-ReadsPut uid))
pack_data-ReadsPut (service_rtm user) =
    ReadsPut-done read_string (put_string user) (utf8 user) service_rtm (put_string-ReadsPut user)

pack-ReadsPut : (s : Service) → ReadsPut read_service (pack s) (service_in_utf8 s)
unfolding read_service pack
pack-ReadsPut s =
    ReadsPut-⊕ read_uint16 _ (put_uint16 (service_type s.kind)) _ (service_type s.kind)
      (service_in_utf8 s) (put_uint16-ReadsPut (service_type s.kind))
      (ReadsPut-⊕ (read_data (service_type s.kind)) _ (pack_data s.kind) _ (kind_in_utf8 s.kind)
        (service_in_utf8 s) (pack_data-ReadsPut s.kind)
        (ReadsPut-⊕ read_uint16 _ (put_uint16 (length s.privileges)) (pack_privileges s.privileges)
          (length s.privileges) (service_in_utf8 s) (put_uint16-ReadsPut (length s.privileges))
          (ReadsPut-done (read_privileges (length s.privileges)) (pack_privileges s.privileges)
            s.privileges (λ ps. record { kind = kind_in_utf8 s.kind; privileges = ps })
            (pack_privileges-ReadsPut s.privileges))))

pub read_services : ℕ → Reader (List Service)
unfolding read_service
read_services zero = done []
read_services (suc k) = read_service >>= λ s. read_services k >>= λ ss. done (s ∷ ss)

abbrev pub services_in_utf8 : List Service → List Service
services_in_utf8 [] = []
services_in_utf8 (s ∷ ss) = service_in_utf8 s ∷ services_in_utf8 ss

pub pack_all-ReadsPut :
    (ss : List Service) → ReadsPut (read_services (length ss)) (pack_all ss) (services_in_utf8 ss)
unfolding read_services pack_all
pack_all-ReadsPut [] = λ rest. refl
pack_all-ReadsPut (s ∷ ss) =
    ReadsPut-⊕ read_service _ (pack s) (pack_all ss) (service_in_utf8 s) (services_in_utf8 (s ∷ ss))
      (pack-ReadsPut s)
      (ReadsPut-done (read_services (length ss)) (pack_all ss) (services_in_utf8 ss)
        (λ xs. service_in_utf8 s ∷ xs) (pack_all-ReadsPut ss))

-- The token with its texts in UTF-8, and its signature of so many bytes.
unfoldable pub read_token : ℕ → Reader (AccessToken × List ℕ)
unfolding read_string read_uint32 read_bytes read_uint16 read_services
read_token size = read_string >>= λ app_id. read_uint32 >>= λ issue_ts. read_uint32 >>= λ expire.
    read_uint32 >>= λ salt. read_bytes size >>= λ signature. read_uint16 >>= λ count.
    read_services count >>= λ services. done (
      (
        record {
          app_id = app_id;
          issue_ts = issue_ts;
          expire = expire;
          salt = salt;
          services = services;
        },
        signature,
      ))

abbrev pub in_utf8 : AccessToken → AccessToken
in_utf8 t = record t { app_id = utf8 t.app_id; services = services_in_utf8 t.services }
