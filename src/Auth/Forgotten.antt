-- ===== src/Auth/Forgotten.antt =====
-- The rows and keys after `deleteAccount` of src/auth/auth.service.ts.
use verity_backend.Prelude.{
  ℕ, ◌≡◌, refl, Bool, not, ◌||◌, some, List, [], ◌∷◌, map, filter, any, ◌==◌, if◌then◌else◌, arith,
}
use verity_backend.Exec.{ok}
use verity_backend.Schema.{User, Match, Message, Report, Appeal}
use verity_backend.World.{Servers, World}
use verity_backend.Auth.Refresh.{user_of}
use verity_backend.Auth.Deletion.{
  is_in_session, is_in_match, is_in_report, is_in_block, is_about, without_report, delete_account,
}

filter-filter :
    (p q : Message → Bool) (ms : List Message)
    → filter (λ m. not (q m)) (filter (λ m. not (p m)) ms) ≡ filter (λ m. not (p m || q m)) ms
filter-filter p q [] = refl
filter-filter p q (m ∷ ms) = ground (arith, filter-filter p q ms)

-- A message that goes: the user wrote it, or it stands in a match of the user.
abbrev pub is_lost : ℕ → List Match → Message → Bool
is_lost user matches m = m.sender == user || any (λ x. x.id == m.match_id) matches

-- An appeal as it stays, without a report that is gone.
abbrev pub detached : List Report → Appeal → Appeal
detached gone a = if is_about gone a.report then without_report a else a

module _ {b : Servers} where
  -- Each of these tables has lost the rows of the user, and those only; the messages of the
  -- partners in matches with the user are lost too. Redis and the timers are as before.
  pub record IsForgotten (user : ℕ) (w w' : World b) : Type 0 where
    pub users : b.users.rows w'.users ≡ filter (λ u. not (u.id == user)) (b.users.rows w.users)
    pub refresh_tokens :
        b.refresh_tokens.rows w'.refresh_tokens
        ≡ filter (λ r. not (r.user == user)) (b.refresh_tokens.rows w.refresh_tokens)
    pub push_tokens :
        b.push_tokens.rows w'.push_tokens
        ≡ filter (λ t. not (t.user == user)) (b.push_tokens.rows w.push_tokens)
    pub transactions :
        b.transactions.rows w'.transactions
        ≡ filter (λ t. not (t.user == user)) (b.transactions.rows w.transactions)
    pub events :
        b.events.rows w'.events ≡ filter (λ e. not (e.user == user)) (b.events.rows w.events)
    pub reports :
        b.reports.rows w'.reports
        ≡ filter (λ r. not (is_in_report user r)) (b.reports.rows w.reports)
    pub appeals :
        b.appeals.rows w'.appeals
        ≡ filter
            (λ a. not (a.user == user))
            (map
              (detached (filter (is_in_report user) (b.reports.rows w.reports)))
              (b.appeals.rows w.appeals))
    pub messages :
        b.messages.rows w'.messages
        ≡ filter
            (λ m. not (is_lost user (filter (is_in_match user) (b.matches.rows w.matches)) m))
            (b.messages.rows w.messages)
    pub sessions :
        b.sessions.rows w'.sessions
        ≡ filter (λ s. not (is_in_session user s)) (b.sessions.rows w.sessions)
    pub matches :
        b.matches.rows w'.matches
        ≡ filter (λ m. not (is_in_match user m)) (b.matches.rows w.matches)
    pub blocks :
        b.blocks.rows w'.blocks ≡ filter (λ k. not (is_in_block user k)) (b.blocks.rows w.blocks)
    pub queues : w'.zsets ≡ w.zsets
    pub queue_keys : w'.queue_keys ≡ w.queue_keys
    pub choices : w'.choices ≡ w.choices
    pub strings : w'.strings ≡ w.strings
    pub timers : (w'.timers ≡ w.timers) × (w'.choice_timers ≡ w.choice_timers)

  -- The account of a user who is known can be deleted, and then the tables of users, refresh
  -- tokens, push tokens, transactions, moderation events, reports, appeals, messages, sessions,
  -- matches and blocks have lost the rows of the user and those only, with the messages of the
  -- matches of the user, and appeals of others lose a report that is gone; Redis and the timers
  -- are as before.
  pub delete_account-IsForgotten :
      (user : ℕ) (u : User) (w : World b)
      → user_of user w ≡ some u
      → ((delete_account user w).0 ≡ ok tt) × IsForgotten user w (delete_account user w).1
  unfolding delete_account
  delete_account-IsForgotten user u w found = rw found (
    refl,
    record {
      users = b.users.rows-delete_many _ w.users;
      refresh_tokens = b.refresh_tokens.rows-delete_many _ w.refresh_tokens;
      push_tokens = b.push_tokens.rows-delete_many _ w.push_tokens;
      transactions = b.transactions.rows-delete_many _ w.transactions;
      events = b.events.rows-delete_many _ w.events;
      reports = b.reports.rows-delete_many _ w.reports;
      appeals =
          rw (b.appeals.rows-delete_many, b.appeals.rows-update_many, b.reports.find_many_lem) refl;
      messages =
          rw (b.messages.rows-delete_many, b.messages.rows-delete_many, b.matches.find_many_lem)
            (filter-filter (λ m. m.sender == user) _ (b.messages.rows w.messages));
      sessions = b.sessions.rows-delete_many _ w.sessions;
      matches = b.matches.rows-delete_many _ w.matches;
      blocks = b.blocks.rows-delete_many _ w.blocks;
      queues = refl;
      queue_keys = refl;
      choices = refl;
      strings = refl;
      timers = (refl, refl);
    },
  )
