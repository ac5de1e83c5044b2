-- ===== src/Tests/Worlds.antt =====
-- The users, the session and the match of the examples.
use verity_backend.Prelude.{ℕ, none, [], ◌∷◌}
use verity_backend.Schema.{User, user_role, no_list, Session, Match}
use verity_backend.World.{World}
use verity_backend.Tests.Memory.{memory, empty_world}

abbrev pub user_with : ℕ → ℕ → User
user_with id tokens = record {
  id = id;
  role = user_role;
  token_balance = tokens;
  display_name = none;
  bio = none;
  age = none;
  photos = no_list;
  gender = none;
  interests = [];
  date_of_birth = none;
  age_verified_at = none;
  consents = none;
  privacy_notice_version = none;
  tos_version = none;
  phone = none;
  email = none;
}

-- Two users, of whom the first has one token and the second three.
abbrev pub funded : World memory
funded = record (empty_world 1000) { users = (user_with 2 1 ∷ user_with 4 3 ∷ [], 6) }

-- Their session and their match.
abbrev pub date : Session
date = record { id = 6; created_at = 1000; user_a = 2; user_b = 4; queue_key = 8 }

abbrev pub pair_match : Match
pair_match = record {
  id = 10;
  created_at = 1000;
  user_a = 2;
  user_b = 4;
  ack_a = none;
  ack_b = none;
}

abbrev pub dating : World memory
dating = record funded { sessions = (date ∷ [], 8) }

abbrev pub matched_world : World memory
matched_world = record dating { matches = (pair_match ∷ [], 12) }
