-- ===== src/Matches/Reveal.antt =====
-- src/matches/reveal.types.ts: the profile that a partner sees.
use verity_backend.Prelude.{
  ℕ, ◌+◌, Bool, ◌&&◌, ◌||◌, Option, none, some, List, [], ◌∷◌, ◌==◌, leb, if◌then◌else◌, is_some,
  codes, trim,
}
use verity_backend.Schema.{User, Photo, photo_text, no_text, Photos, photo_list, no_list}
use verity_backend.Schema.{PartnerReveal}

unfoldable pub lower : ℕ → ℕ
lower c = if leb b'A' c && leb c b'Z' then c + 32 else c

-- What follows the prefix, in any case of letters.
unfoldable pub strip_prefix : List ℕ → List ℕ → Option (List ℕ)
strip_prefix [] cs = some cs
strip_prefix (p ∷ ps) [] = none
strip_prefix (p ∷ ps) (c ∷ cs) =
    let rest = strip_prefix ps cs in if lower c == p then rest else none

-- /^https?:\/\//i
unfoldable pub is_url : List ℕ → Bool
unfolding strip_prefix lower
is_url cs =
    is_some (strip_prefix (codes "http://") cs) || is_some (strip_prefix (codes "https://") cs)

unfoldable pub first_url : List Photo → Option (List ℕ)
first_url [] = none
first_url (no_text ∷ rest) = first_url rest
first_url (photo_text cs ∷ rest) = if is_url (trim cs) then some (trim cs) else first_url rest

unfoldable pub resolve_primary_photo_url : Photos → Option (List ℕ)
unfolding first_url
resolve_primary_photo_url no_list = none
resolve_primary_photo_url (photo_list entries) = first_url entries

unfoldable pub build_partner_reveal : User → PartnerReveal
build_partner_reveal u = record {
  id = u.id;
  display_name = u.display_name;
  primary_photo = resolve_primary_photo_url u.photos;
  age = u.age;
  bio = u.bio;
}
