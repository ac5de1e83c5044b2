-- ===== src/Chat/Accepts.antt =====
-- `sendMessage` of src/chat/chat.service.ts, for the users of an open match.
use verity_backend.Prelude.{
  ℕ, ◌≡◌, ◌≢◌, refl, sym, ap, subst, ◌∙◌, ◌⊎◌, inl, inr, true, Option, none, some, List, [], ◌∷◌,
  ◌++◌, ◌==◌, is_some, trim, arith, Bool-cases, Has, Has-left, Has-right,
}
use verity_backend.Exec.{Result, ok}
use verity_backend.Schema.{User, Match, Message, Push, Output, emit, notify, message_new}
use verity_backend.World.{Servers, World}
use verity_backend.Matches.Service.{is_user_in, match_of, partner_row}
use verity_backend.Chat.{
  ack_of, recipient_of, emit_if, push_for, push_and_events, message_outputs, check_match,
  open_match, new_message, post_message, post_if_open, send_content, send_message,
}
use verity_backend.Chat.Guards.{Open, Sent, post-Sent}

-- What the sockets of a user are sent of a message.
abbrev pub shown_message : ℕ → Message → Output
shown_message user m = emit user (message_new m.id m.match_id m.sender m.text m.created_at)

emitted :
    (ack : Option ℕ) (user to : ℕ) (message : Message)
    → is_some ack ≡ true
    → (to == user) ≡ true
    → Has (shown_message user message) (emit_if ack to message)
emitted none user to message h e = cc
emitted (some t) user to message h e =
    let same : to ≡ user = ground (arith, e) in inl (ap (λ u. shown_message u message) same)

sender_acked :
    (m : Match) (user : ℕ)
    → is_user_in user m ≡ true
    → is_some (ack_of m user) ≡ true
    → (((m.user_a == user) ≡ true) × (is_some m.ack_a ≡ true))
      ⊎ (((m.user_b == user) ≡ true) × (is_some m.ack_b ≡ true))
sender_acked m user is_in acked = elim (Bool-cases (m.user_a == user)) [
  | inl e ↦ inl (e, ground (arith, e, acked))
  | inr e ↦ inr (ground (arith, e, is_in), ground (arith, e, acked))
]

shown-sender :
    (m : Match) (user : ℕ) (message : Message) (count : ℕ) (sender : Option User) (now : ℕ)
    → is_user_in user m ≡ true
    → is_some (ack_of m user) ≡ true
    → Has (shown_message user message) (message_outputs m message count sender now)
shown-sender m user message count sender now is_in acked =
    let others = push_and_events m message count sender now in
    elim (sender_acked m user is_in acked) [
      | inl (e, h) ↦
          Has-left _ (emit_if m.ack_a m.user_a message) (emit_if m.ack_b m.user_b message ++ others)
            (emitted m.ack_a user m.user_a message h e)
      | inr (e, h) ↦
          Has-right _ (emit_if m.ack_a m.user_a message)
            (emit_if m.ack_b m.user_b message ++ others)
            (Has-left _ (emit_if m.ack_b m.user_b message) others
              (emitted m.ack_b user m.user_b message h e))
    ]

notified :
    (m : Match) (message : Message) (count : ℕ) (sender : Option User) (now : ℕ)
    → Has
        (notify (recipient_of m message.sender ∷ []) (push_for m message sender))
        (message_outputs m message count sender now)
notified m message count sender now =
    let others = push_and_events m message count sender now in
    Has-right _ (emit_if m.ack_a m.user_a message) (emit_if m.ack_b m.user_b message ++ others)
      (Has-right _ (emit_if m.ack_b m.user_b message) others (inl refl))

module _ {b : Servers} where
  checked : (id user : ℕ) (m : Match) (w : World b) → Open id user w m → check_match user m w ≡ ok m
  unfolding check_match
  checked id user m w (found, is_in, free, acked) = rw (is_in, free, acked)

  opened :
      (id user : ℕ) (m : Match) (w : World b)
      → Open id user w m
      → open_match user (match_of id w) w ≡ ok m
  unfolding open_match
  opened id user m w h = ap (λ o. open_match user o w) h.0 ∙ checked id user m w h

  -- The sockets of the sender are sent the message, and the other user is notified.
  abbrev pub Delivered : ℕ → Match → Message → World b → Type 0
  Delivered user m message w =
      Has (shown_message user message) w.outbox
      × ((push : Push) × Has (notify (recipient_of m user ∷ []) push) w.outbox)

  -- The reply to a message, and what is stored and sent.
  abbrev pub Heard : ℕ → ℕ → List ℕ → Match → World b → Result Message × World b → Type 0
  Heard id user content m w (reply, w') =
      (message : Message) × (reply ≡ ok message)
      × Sent id user content m w message w'
      × Delivered user m message w'

  delivered :
      (id user : ℕ) (content : List ℕ) (m : Match) (w : World b) (message : Message)
      → Open id user w m
      → (post_message id user content m w).0 ≡ ok message
      → message.sender ≡ user
      → Delivered user m message (post_message id user content m w).1
  unfolding post_message
  delivered id user content m w message (found, is_in, free, acked) reply own =
      let made = (b.messages.create (new_message id user content w) w.messages).0 in
      let count = b.messages.count (λ x. x.match_id == id) w.messages in
      let sender = partner_row user w in
      let same : made ≡ message = cc reply in
      (
        Has-right _ w.outbox _ (
            subst (λ x. Has (shown_message user message) (message_outputs m x count sender w.now))
              (sym same) (shown-sender m user message count sender w.now is_in acked)),
        (
          push_for m message sender,
          Has-right _ w.outbox _ (
              subst
                (λ x.
                  Has (notify (recipient_of m user ∷ []) (push_for m message sender))
                    (message_outputs m x count sender w.now))
                (sym same)
                (subst
                  (λ u.
                    Has (notify (recipient_of m u ∷ []) (push_for m message sender))
                      (message_outputs m message count sender w.now))
                  own (notified m message count sender w.now))),
        ),
      )

  post-Heard :
      (id user : ℕ) (content : List ℕ) (m : Match) (w : World b)
      → Open id user w m
      → Heard id user content m w (post_message id user content m w)
  post-Heard id user content m w h =
      let (message, reply, sent) = post-Sent id user content m w in
      (
        message,
        reply,
        sent,
        delivered id user content m w message h reply (ap (λ x. x.sender) sent.0),
      )

  content-Heard :
      (id user : ℕ) (content : List ℕ) (m : Match) (w : World b)
      → content ≢ []
      → Open id user w m
      → Heard id user content m w (send_content id user content w)
  unfolding send_content post_if_open
  content-Heard id user [] m w some_text h = absurd (some_text refl)
  content-Heard id user (c ∷ cs) m w some_text h =
      subst (λ r. Heard id user (c ∷ cs) m w (post_if_open id user (c ∷ cs) r w))
        (sym (opened id user m w h)) (post-Heard id user (c ∷ cs) m w h)

  -- A text that is not blank is accepted from a user of the match who has seen the profile of
  -- the other, where no block stands between them: it is stored once, with the user and the
  -- trimmed text, the sockets of the user are sent it, and the other user is notified.
  pub send_message-Open :
      (id user : ℕ) (text : List ℕ) (m : Match) (w : World b)
      → trim text ≢ []
      → Open id user w m
      → Heard id user (trim text) m w (send_message id user text w)
  unfolding send_message
  send_message-Open id user text m w some_text h = content-Heard id user (trim text) m w some_text h
