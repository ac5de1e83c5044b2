-- ===== src/Chat/Guards.antt =====
-- Who may write and read the messages of a match, and whom a message reaches.
use verity_backend.Prelude.{
  ℕ, ◌≡◌, ◌≢◌, refl, sym, ap, subst, ◌∙◌, inl, inr, Bool, true, false, not, ◌&&◌, ◌||◌, Option,
  none, some, List, [], ◌∷◌, ◌++◌, arith, ◌==◌, if◌then◌else◌, is_some, trim, All, Bool-cases,
}
use verity_backend.Exec.{
  Result, ok, err, not_match_participant, conversation_unavailable, reveal_ack_required,
}
use verity_backend.Schema.{
  User, Match, Message, Output, emit, notify, message_new, chat_message_new,
}
use verity_backend.World.{Servers, World}
use verity_backend.Queue.Pairs.{is_pair_blocked}
use verity_backend.Matches.Service.{is_user_in, match_of, partner_row}
use verity_backend.Chat.{
  ack_of, recipient_of, emit_if, push_for, push_and_events, message_outputs, check_match,
  open_match, new_message, post_message, post_if_open, send_content, send_message,
}

-- A user of the match who has seen the profile of the other.
abbrev pub has_revealed : Match → ℕ → Bool
has_revealed m user = (m.user_a == user && is_some m.ack_a) || (m.user_b == user && is_some m.ack_b)

-- The text of a message goes out only to such a user, by socket and by push.
abbrev pub Allowed : Match → Output → Type 0
Allowed m (emit user (message_new _ _ _ _ _)) = has_revealed m user ≡ true
Allowed m (notify users (chat_message_new _ _ _ _)) = All (λ user. has_revealed m user ≡ true) users
Allowed m _ = Unit

All-append :
    (m : Match) (xs ys : List Output)
    → All (Allowed m) xs
    → All (Allowed m) ys
    → All (Allowed m) (xs ++ ys)
All-append m [] ys h k = k
All-append m (x ∷ xs) ys (h, hs) k = (h, All-append m xs ys hs k)

emit-Allowed :
    (m : Match) (ack : Option ℕ) (user : ℕ) (message : Message)
    → (is_some ack ≡ true → has_revealed m user ≡ true)
    → All (Allowed m) (emit_if ack user message)
emit-Allowed m none user message h = tt
emit-Allowed m (some _) user message h = (h refl, tt)

recipient-revealed :
    (m : Match) (user : ℕ)
    → is_some (ack_of m (recipient_of m user)) ≡ true
    → has_revealed m (recipient_of m user) ≡ true
recipient-revealed m user h = ground arith

push-Allowed :
    (m : Match) (message : Message) (sender : Option User)
    → Allowed m (notify (recipient_of m message.sender ∷ []) (push_for m message sender))
unfolding push_for
push-Allowed m message sender =
    elim (Bool-cases (is_some (ack_of m (recipient_of m message.sender)))) [
      | inl h ↦ rw h (recipient-revealed m message.sender h, tt)
      | inr h ↦ rw h tt
    ]

outputs-Allowed :
    (m : Match) (message : Message) (count : ℕ) (sender : Option User) (now : ℕ)
    → All (Allowed m) (message_outputs m message count sender now)
outputs-Allowed m message count sender now =
    All-append m (emit_if m.ack_a m.user_a message)
      (emit_if m.ack_b m.user_b message ++ push_and_events m message count sender now)
      (emit-Allowed m m.ack_a m.user_a message (λ h. ground (arith, h)))
      (All-append m (emit_if m.ack_b m.user_b message) (push_and_events m message count sender now)
        (emit-Allowed m m.ack_b m.user_b message (λ h. ground (arith, h)))
        (push-Allowed m message sender, (tt, (tt, tt))))

guards-passed :
    (is_in blocked acked : Bool) (m m' : Match)
    → (if not is_in
        then err not_match_participant
        else if blocked
        then err conversation_unavailable
        else if acked
        then ok m
        else err reveal_ack_required)
      ≡ ok m'
    → (m ≡ m') × (is_in ≡ true) × (blocked ≡ false) × (acked ≡ true)
guards-passed false blocked acked m m' h = cc
guards-passed true true acked m m' h = cc
guards-passed true false false m m' h = cc
guards-passed true false true m m' h = (cc, refl, refl, refl)

module _ {b : Servers} where
  -- The match lets the user read and write.
  abbrev pub Open : ℕ → ℕ → World b → Match → Type 0
  Open id user w m =
      (match_of id w ≡ some m)
      × (is_user_in user m ≡ true)
      × (is_pair_blocked m.user_a m.user_b w ≡ false)
      × (is_some (ack_of m user) ≡ true)

  check-ok :
      (user : ℕ) (m m' : Match) (w : World b)
      → check_match user m w ≡ ok m'
      → (m ≡ m')
        × (is_user_in user m ≡ true)
        × (is_pair_blocked m.user_a m.user_b w ≡ false)
        × (is_some (ack_of m user) ≡ true)
  unfolding check_match
  check-ok user m m' w h =
      guards-passed (is_user_in user m) (is_pair_blocked m.user_a m.user_b w)
        (is_some (ack_of m user)) m m' h

  pub Open-open_match :
      (id user : ℕ) (o : Option Match) (m : Match) (w : World b)
      → match_of id w ≡ o
      → open_match user o w ≡ ok m
      → Open id user w m
  unfolding open_match
  Open-open_match id user none m w e h = cc
  Open-open_match id user (some m') m w e h =
      let (same, is_in, free, acked) = check-ok user m' m w h in
      subst (Open id user w) same (e, is_in, free, acked)

  -- What a message does: it is stored once, and its text goes out only to users who have seen
  -- the profile of the other.
  abbrev pub Sent : ℕ → ℕ → List ℕ → Match → World b → Message → World b → Type 0
  Sent id user content m w message w' =
      (message ≡ new_message id user content w (b.messages.next_id w.messages))
      × (b.messages.rows w'.messages ≡ b.messages.rows w.messages ++ message ∷ [])
      × ((out : List Output) × (w'.outbox ≡ w.outbox ++ out) × All (Allowed m) out)

  pub post-Sent :
      (id user : ℕ) (content : List ℕ) (m : Match) (w : World b)
      → (message : Message) × ((post_message id user content m w).0 ≡ ok message)
        × Sent id user content m w message (post_message id user content m w).1
  unfolding post_message
  post-Sent id user content m w =
      let created = b.messages.create-reply (new_message id user content w) w.messages in
      (
        (b.messages.create (new_message id user content w) w.messages).0,
        refl,
        (
          created,
          (b.messages.rows-create (new_message id user content w) w.messages
              ∙ ap (λ x. b.messages.rows w.messages ++ x ∷ []) (sym created)),
          (_, refl, outputs-Allowed m _ _ (partner_row user w) w.now),
        ),
      )

  -- Where a message is accepted, its text without the white space around it is not empty, the user
  -- is in the match and has seen the profile of the other, and no block stands between them.
  abbrev pub Accepted : ℕ → ℕ → List ℕ → World b → Message → World b → Type 0
  Accepted id user content w message w' =
      (content ≢ []) × ((m : Match) × Open id user w m × Sent id user content m w message w')

  post-Accepted :
      (id user : ℕ) (content : List ℕ) (r : Result Match) (w w' : World b) (message : Message)
      → open_match user (match_of id w) w ≡ r
      → post_if_open id user content r w ≡ (ok message, w')
      → (m : Match) × Open id user w m × Sent id user content m w message w'
  unfolding post_if_open
  post-Accepted id user content (err e) w w' message opened h = cc (ap (λ r. r.0) h)
  post-Accepted id user content (ok m) w w' message opened h =
      let (made, reply, sent) = post-Sent id user content m w in
      let same : made ≡ message = cc (reply, ap (λ r. r.0) h) in
      (
        m,
        Open-open_match id user (match_of id w) m w refl opened,
        subst (λ x. Sent id user content m w x w') same
            (subst (λ v. Sent id user content m w made v) (ap (λ r. r.1) h) sent),
      )

  content-Accepted :
      (id user : ℕ) (content : List ℕ) (w w' : World b) (message : Message)
      → send_content id user content w ≡ (ok message, w')
      → Accepted id user content w message w'
  unfolding send_content
  content-Accepted id user [] w w' message h = cc (ap (λ r. r.0) h)
  content-Accepted id user (c ∷ cs) w w' message h = (
    λ e. cc e,
    post-Accepted id user (c ∷ cs) (open_match user (match_of id w) w) w w' message refl h,
  )

  -- A message is accepted only from a user of the match who has seen the profile of the other,
  -- where no block stands between them and the text is not blank; it is stored once, and its
  -- text goes out only to users who have seen the profile of the other.
  pub send_message-Accepted :
      (id user : ℕ) (text : List ℕ) (w w' : World b) (message : Message)
      → send_message id user text w ≡ (ok message, w')
      → Accepted id user (trim text) w message w'
  unfolding send_message
  send_message-Accepted id user text w w' message h =
      content-Accepted id user (trim text) w w' message h
