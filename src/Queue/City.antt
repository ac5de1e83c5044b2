-- ===== src/Queue/City.antt =====
-- The city of a queue: `resolveQueueCity` and `normalizeQueueCity` of src/queue/queue.service.ts.
use mathlib.Core.List.{reverse}
use verity_backend.Prelude.{
  ℕ, Bool, true, false, ◌&&◌, ◌||◌, Option, none, some, List, [], ◌∷◌, leb, ◌==◌, if◌then◌else◌,
  codes, trim, same_text,
}
use verity_backend.Exec.{Result, ok, err, invalid_city, city_required}
use verity_backend.Matches.Reveal.{lower}

-- A value of a request body: a text, or `undefined`, or anything else.
pub data Input : Type 0 where
  absent other_value : Input
  given : List ℕ → Input

-- [a-z0-9]
unfoldable pub is_alnum : ℕ → Bool
is_alnum c = (leb b'a' c && leb c b'z') || (leb b'0' c && leb c b'9')

-- `toLowerCase`, for the letters whose lower case holds one of a to z: those of ASCII, the Kelvin
-- sign and the dotted capital I. All other characters end up in a run that becomes a dash.
unfoldable pub to_lower_case : List ℕ → List ℕ
unfolding lower
to_lower_case [] = []
to_lower_case (c ∷ cs) =
    let rest = to_lower_case cs in
    if c == 8490 then b'k' ∷ rest else if c == 304 then b'i' ∷ 775 ∷ rest else lower c ∷ rest

-- `replace(/[^a-z0-9]+/g, '-')`; the flag says that a run of other characters has begun.
unfoldable pub collapse : Bool → List ℕ → List ℕ
unfolding is_alnum
collapse in_run [] = []
collapse in_run (c ∷ cs) =
    let word = c ∷ collapse false cs in
    let gap = collapse true cs in if is_alnum c then word else if in_run then gap else b'-' ∷ gap

unfoldable pub drop_dashes : List ℕ → List ℕ
drop_dashes [] = []
drop_dashes (c ∷ cs) = if c == b'-' then drop_dashes cs else c ∷ cs

-- `replace(/^-+|-+$/g, '')`
unfoldable pub strip_dashes : List ℕ → List ℕ
unfolding drop_dashes
strip_dashes cs = reverse (drop_dashes (reverse (drop_dashes cs)))

abbrev pub non_empty : List ℕ → Option (List ℕ)
non_empty [] = none
non_empty (c ∷ cs) = some (c ∷ cs)

unfoldable pub normalize_queue_city : Input → Option (List ℕ)
unfolding collapse strip_dashes to_lower_case
normalize_queue_city (given cs) =
    non_empty (strip_dashes (collapse false (to_lower_case (trim cs))))
normalize_queue_city _ = none

abbrev pub default_queue_city : List ℕ
default_queue_city = codes "canberra"

abbrev pub region_city : Option (List ℕ) → List ℕ
region_city none = default_queue_city
region_city (some region) = if same_text region (codes "au") then default_queue_city else region

abbrev pub city_or_error : Option (List ℕ) → Result (List ℕ)
city_or_error none = err invalid_city
city_or_error (some city) = ok city

-- the city, or else the region that older clients send
unfoldable pub resolve_queue_city : Input → Input → Result (List ℕ)
unfolding normalize_queue_city
resolve_queue_city absent region = ok (region_city (normalize_queue_city region))
resolve_queue_city city region = city_or_error (normalize_queue_city city)

abbrev pub key_or_error : (List ℕ → ℕ) → Option (List ℕ) → Result ℕ
key_or_error key_of none = err city_required
key_or_error key_of (some city) = ok (key_of city)

-- `buildQueueKey`: `key_of` puts the hash of the preferences behind a city.
unfoldable pub build_queue_key : (List ℕ → ℕ) → List ℕ → Result ℕ
build_queue_key key_of city = key_or_error key_of (normalize_queue_city (given city))
