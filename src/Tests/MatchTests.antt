-- ===== src/Tests/MatchTests.antt =====
-- Examples of the matches and the chat.
use verity_backend.Prelude.{◌≢◌, ◌≡◌, refl, true, none, some, [], ◌∷◌, All, codes, trim}
use verity_backend.Exec.{ok}
use verity_backend.Schema.{Match, Message}
use verity_backend.World.{World}
use verity_backend.Matches.Reveal.{build_partner_reveal, resolve_primary_photo_url}
use verity_backend.Matches.Service.{
  RevealPayload, list_matches, get_reveal, reveal_match, reveal_side, reveal_as,
  resolve_participant_side, acknowledge_side, acknowledge_as, acknowledge_match, acknowledge_reveal,
}
use verity_backend.Matches.Listed.{IsProper, list_matches-IsProper}
use verity_backend.Queue.Pairs.{is_pair_blocked}
use verity_backend.Chat.{
  check_match, open_match, list_messages, safe_limit, post_message, post_if_open, send_content,
  send_message,
}
use verity_backend.Chat.Accepts.{Heard, send_message-Open}
use verity_backend.Chat.Shown.{Shown, list_messages-Shown}
use verity_backend.Chat.Guards.{Open, Accepted, send_message-Accepted}
use verity_backend.Tests.Memory.{memory}
use verity_backend.Tests.Worlds.{matched_world, pair_match}

list_matches-IsProper_example : All (IsProper 2 (pair_match ∷ []) []) (list_matches 2 matched_world)
list_matches-IsProper_example = list_matches-IsProper 2 matched_world

abbrev shown : RevealPayload
shown = record {
  match_id = 10;
  partner_reveal = record {
    id = 4;
    display_name = none;
    primary_photo = none;
    age = none;
    bio = none;
  };
  reveal_acknowledged = true;
  reveal_acknowledged_at = some 1000;
}

-- The first user has seen the profile of the second.
abbrev revealed : World memory
revealed = (acknowledge_reveal 10 2 matched_world).1

acknowledges : acknowledge_reveal 10 2 matched_world ≡ (ok shown, revealed)
unfolding acknowledge_reveal acknowledge_match acknowledge_as acknowledge_side get_reveal
    reveal_match reveal_side reveal_as resolve_participant_side build_partner_reveal
    resolve_primary_photo_url
acknowledges = refl

abbrev hello : Message
hello = record { id = 2; created_at = 1000; match_id = 10; sender = 2; text = codes "hi" }

abbrev told : World memory
told = (send_message 10 2 (codes " hi ") revealed).1

sends : send_message 10 2 (codes " hi ") revealed ≡ (ok hello, told)
unfolding send_message send_content post_if_open post_message open_match check_match is_pair_blocked
    acknowledge_reveal acknowledge_match acknowledge_as acknowledge_side resolve_participant_side
sends = refl

send_message-Accepted_example : Accepted 10 2 (trim (codes " hi ")) revealed hello told
send_message-Accepted_example = send_message-Accepted 10 2 (codes " hi ") revealed told hello sends

some_text : trim (codes " hi ") ≢ []
some_text = λ e. cc e

-- The match as the first user has left it.
abbrev seen_match : Match
seen_match = record pair_match { ack_a = some 1000 }

may_write : Open 10 2 revealed seen_match
unfolding acknowledge_reveal acknowledge_match acknowledge_as acknowledge_side
    resolve_participant_side is_pair_blocked
may_write = (refl, refl, refl, refl)

send_message-Open_example :
    Heard 10 2 (codes "hi") seen_match revealed (send_message 10 2 (codes " hi ") revealed)
send_message-Open_example =
    send_message-Open 10 2 (codes " hi ") seen_match revealed some_text may_write

abbrev listed : World memory
listed = (list_messages 10 2 none told).1

lists : list_messages 10 2 none told ≡ (ok (hello ∷ []), listed)
unfolding list_messages safe_limit send_message send_content post_if_open post_message open_match
    check_match is_pair_blocked acknowledge_reveal acknowledge_match acknowledge_as acknowledge_side
    resolve_participant_side
lists = refl

list_messages-Shown_example : Shown 10 2 told listed (hello ∷ [])
list_messages-Shown_example = list_messages-Shown 10 2 none told listed (hello ∷ []) lists
