-- ===== src/Video/Bytes.antt =====
-- `ByteBuf` of src/video/video.service.ts: a buffer as the list of its bytes. A number that does
-- not fit makes Node throw, which is `none`.
use verity_backend.Prelude.{
  ℕ, ◌+◌, ◌/◌, ◌%◌, Bool, ◌&&◌, Option, none, some, List, [], ◌∷◌, ◌++◌, length, leb, ltb,
  if◌then◌else◌,
}

-- The bytes that are put, unless putting them throws.
abbrev pub Put : Type 0
Put = Option (List ℕ)

-- one after the other
infixr 65 ◌⊕◌
abbrev pub ◌⊕◌ : Put → Put → Put
none ⊕ q = none
some b ⊕ none = none
some b ⊕ some c = some (b ++ c)

unfoldable pub put_uint16 : ℕ → Put
put_uint16 value = if ltb value 65536 then some (value % 256 ∷ value / 256 ∷ []) else none

unfoldable pub put_uint32 : ℕ → Put
put_uint32 value =
    if ltb value 4294967296
    then some (value % 256 ∷ value / 256 % 256 ∷ value / 65536 % 256 ∷ value / 16777216 ∷ [])
    else none

unfoldable pub put_bytes : List ℕ → Put
put_bytes value = some value

-- `Buffer.from(text)`: UTF-8, where a lone surrogate becomes U+FFFD.
abbrev pub is_surrogate : ℕ → Bool
is_surrogate c = leb 55296 c && leb c 57343

abbrev pub utf8_char : ℕ → List ℕ
utf8_char c =
    if ltb c 128
    then c ∷ []
    else if ltb c 2048
    then (192 + c / 64) ∷ (128 + c % 64) ∷ []
    else if is_surrogate c
    then 239 ∷ 191 ∷ 189 ∷ []
    else if ltb c 65536
    then (224 + c / 4096) ∷ (128 + c / 64 % 64) ∷ (128 + c % 64) ∷ []
    else (240 + c / 262144) ∷ (128 + c / 4096 % 64) ∷ (128 + c / 64 % 64) ∷ (128 + c % 64) ∷ []

unfoldable pub utf8 : List ℕ → List ℕ
utf8 [] = []
utf8 (c ∷ cs) = utf8_char c ++ utf8 cs

unfoldable pub put_string : List ℕ → Put
unfolding put_uint16 utf8 put_bytes
put_string value = put_uint16 (length (utf8 value)) ⊕ put_bytes (utf8 value)
