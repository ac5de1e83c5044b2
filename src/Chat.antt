-- ===== src/Chat.antt =====
-- src/chat/chat.service.ts: the messages of a match.
use mathlib.Core.List.{reverse}
use verity_backend.Prelude.{
  ℕ, ◌+◌, ◌-◌, Bool, true, false, not, ◌&&◌, ◌||◌, Option, none, some, List, [], ◌∷◌, ◌++◌, map,
  ◌==◌, ltb, if◌then◌else◌, filter, find, take, is_some, get_or_else, codes, trim, length,
}
use verity_backend.Exec.{
  Result, ok, err, Exec, match_not_found, not_match_participant, text_required,
  conversation_unavailable, reveal_ack_required,
}
use verity_backend.Services.Database.{order_by_desc}
use verity_backend.Schema.{
  User, Match, Message, Event, Output, track, emit, notify, message_new, Push, chat_message_new,
  chat_reveal_required,
}
use verity_backend.World.{Servers, World, send}
use verity_backend.Session.Lifecycle.{round_seconds}
use verity_backend.Queue.Pairs.{is_pair_blocked}
use verity_backend.Matches.Service.{is_user_in, match_of, partner_row}
pub mod Guards
pub mod Accepts
pub mod Shown

-- The limit of a list, 50 where none is given; a number below 1 counts as 1.
unfoldable pub safe_limit : ℕ → ℕ → Option ℕ → ℕ
safe_limit default most limit =
    let n = get_or_else limit default in
    let m = if ltb most n then most else n in if ltb m 1 then 1 else m

abbrev pub ack_of : Match → ℕ → Option ℕ
ack_of m user = if m.user_a == user then m.ack_a else m.ack_b

abbrev pub recipient_of : Match → ℕ → ℕ
recipient_of m user = if m.user_a == user then m.user_b else m.user_a

unfoldable pub time_from_mutual_match_sec : ℕ → ℕ → ℕ
time_from_mutual_match_sec now created_at = round_seconds (now - created_at)

abbrev pub emit_if : Option ℕ → ℕ → Message → List Output
emit_if none user m = []
emit_if (some _) user m = emit user (message_new m.id m.match_id m.sender m.text m.created_at) ∷ []

-- `sender?.displayName?.trim() || 'Someone'`
abbrev pub name_or_someone : List ℕ → List ℕ
name_or_someone [] = codes "Someone"
name_or_someone (c ∷ cs) = c ∷ cs

abbrev pub sender_name : Option User → List ℕ
sender_name none = codes "Someone"
sender_name (some u) = name_or_someone (trim (get_or_else u.display_name []))

unfoldable pub push_for : Match → Message → Option User → Push
push_for m message sender =
    if is_some (ack_of m (recipient_of m message.sender))
    then chat_message_new message.match_id message.id message.sender (sender_name sender)
    else chat_reveal_required message.match_id message.id message.sender

-- The events of a message, of which there were `count` before.
abbrev pub message_events : Match → Message → ℕ → ℕ → List Output
message_events m message count now =
    track message.sender (
      if count == 0
      then Event.first_message_sent message.match_id message.id
      else Event.message_sent message.match_id message.id)
    ∷ track message.sender (
        Event.match_message_sent message.match_id message.id (count == 0)
          (time_from_mutual_match_sec now m.created_at))
    ∷ []

abbrev pub push_and_events : Match → Message → ℕ → Option User → ℕ → List Output
push_and_events m message count sender now =
    notify (recipient_of m message.sender ∷ []) (push_for m message sender)
    ∷ message_events m message count now

abbrev pub message_outputs : Match → Message → ℕ → Option User → ℕ → List Output
message_outputs m message count sender now =
    emit_if m.ack_a m.user_a message
    ++ (emit_if m.ack_b m.user_b message ++ push_and_events m message count sender now)

module _ {b : Servers} where
  -- `getMatchForUser`, `assertNotBlocked` and `assertRevealAcknowledged`, which both handlers call.
  unfoldable pub check_match : ℕ → Match → World b → Result Match
  check_match user m w =
      if not (is_user_in user m)
      then err not_match_participant
      else if is_pair_blocked m.user_a m.user_b w
      then err conversation_unavailable
      else if is_some (ack_of m user)
      then ok m
      else err reveal_ack_required

  unfoldable pub open_match : ℕ → Option Match → World b → Result Match
  unfolding check_match
  open_match user none w = err match_not_found
  open_match user (some m) w = check_match user m w

  unfoldable pub list_messages : ℕ → ℕ → Option ℕ → Exec (World b) (List Message)
  unfolding safe_limit
  list_messages id user limit w = elim (open_match user (match_of id w) w) [
    | err e ↦ (err e, w)
    | ok m ↦
        let messages = take (safe_limit 50 100 limit) (
          order_by_desc (λ x. x.created_at)
            (b.messages.find_many (λ x. x.match_id == id) w.messages)) in
        (
          ok (reverse messages),
          send
              (track user (
                  Event.match_chat_opened id (length messages)
                    (time_from_mutual_match_sec w.now m.created_at))
                ∷ [])
              w,
        )
  ]

  abbrev pub new_message : ℕ → ℕ → List ℕ → World b → ℕ → Message
  new_message id user content w message_id = record {
    id = message_id;
    created_at = w.now;
    match_id = id;
    sender = user;
    text = content;
  }

  unfoldable pub post_message : ℕ → ℕ → List ℕ → Match → Exec (World b) Message
  post_message id user content m w =
      let count = b.messages.count (λ x. x.match_id == id) w.messages in
      let (message, messages) = b.messages.create (new_message id user content w) w.messages in
      (
        ok message,
        send (message_outputs m message count (partner_row user w) w.now)
            (record w { messages = messages }),
      )

  unfoldable pub post_if_open : ℕ → ℕ → List ℕ → Result Match → Exec (World b) Message
  post_if_open id user content (err e) w = (err e, w)
  post_if_open id user content (ok m) w = post_message id user content m w

  unfoldable pub send_content : ℕ → ℕ → List ℕ → Exec (World b) Message
  unfolding post_if_open
  send_content id user [] w = (err text_required, w)
  send_content id user (c ∷ cs) w =
      post_if_open id user (c ∷ cs) (open_match user (match_of id w) w) w

  unfoldable pub send_message : ℕ → ℕ → List ℕ → Exec (World b) Message
  unfolding send_content
  send_message id user text w = send_content id user (trim text) w
