-- ===== src/Auth/Deletion.antt =====
-- `exportUserData` and `deleteAccount` of src/auth/auth.service.ts. A deletion takes with it the
-- rows that prisma/schema.prisma names with `onDelete`. The table of analytics events, which has no
-- such relation, keeps its rows: it is not a part of the World but of Analytics.Store.
use verity_backend.Prelude.{
  ℕ, Bool, false, ◌||◌, Option, none, some, List, any, ◌==◌, is_some, if◌then◌else◌,
}
use verity_backend.Exec.{ok, err, Exec, no_such_row, user_not_found}
use verity_backend.Schema.{
  User, Session, Match, Block, Message, TokenTransaction, Report, Appeal, PushToken,
}
use verity_backend.World.{Servers, World}
use verity_backend.Auth.Refresh.{user_of}

-- What `exportUserData` gives out.
pub record UserData : Type 0 where
  pub user : User
  pub matches : List Match
  pub sessions : List Session
  pub messages : List Message
  pub token_transactions : List TokenTransaction
  pub reports_made : List Report
  pub reports_received : List Report
  pub push_tokens : List PushToken

abbrev pub is_in_session : ℕ → Session → Bool
is_in_session user s = s.user_a == user || s.user_b == user

abbrev pub is_in_match : ℕ → Match → Bool
is_in_match user m = m.user_a == user || m.user_b == user

abbrev pub is_in_report : ℕ → Report → Bool
is_in_report user r = r.reporter == user || r.reported == user

abbrev pub is_in_block : ℕ → Block → Bool
is_in_block user k = k.blocker == user || k.blocked == user

abbrev pub is_about : List Report → Option ℕ → Bool
is_about reports none = false
is_about reports (some id) = any (λ r. r.id == id) reports

abbrev pub without_report : Appeal → Appeal
without_report a = record a { report = none }

module _ {b : Servers} where
  abbrev pub user_data : ℕ → Option User → Exec (World b) UserData
  user_data user none w = (err user_not_found, w)
  user_data user (some u) w = (
    ok (record {
      user = u;
      matches = b.matches.find_many (is_in_match user) w.matches;
      sessions = b.sessions.find_many (is_in_session user) w.sessions;
      messages = b.messages.find_many (λ m. m.sender == user) w.messages;
      token_transactions = b.transactions.find_many (λ t. t.user == user) w.transactions;
      reports_made = b.reports.find_many (λ r. r.reporter == user) w.reports;
      reports_received = b.reports.find_many (λ r. r.reported == user) w.reports;
      push_tokens = b.push_tokens.find_many (λ t. t.user == user) w.push_tokens;
    }),
    w,
  )

  unfoldable pub export_user_data : ℕ → Exec (World b) UserData
  export_user_data user w = user_data user (user_of user w) w

  abbrev pub delete_refresh_tokens : ℕ → World b → World b
  delete_refresh_tokens user w = record w {
    refresh_tokens = (b.refresh_tokens.delete_many (λ r. r.user == user) w.refresh_tokens).1;
  }

  abbrev pub delete_push_tokens : ℕ → World b → World b
  delete_push_tokens user w = record w {
    push_tokens = (b.push_tokens.delete_many (λ t. t.user == user) w.push_tokens).1;
  }

  abbrev pub delete_transactions : ℕ → World b → World b
  delete_transactions user w = record w {
    transactions = (b.transactions.delete_many (λ t. t.user == user) w.transactions).1;
  }

  abbrev pub delete_moderation_events : ℕ → World b → World b
  delete_moderation_events user w = record w {
    events = (b.events.delete_many (λ e. e.user == user) w.events).1;
  }

  -- appeals against the reports stay, without them
  abbrev pub delete_reports : ℕ → World b → World b
  delete_reports user w =
      let gone = b.reports.find_many (is_in_report user) w.reports in
      record w {
        reports = (b.reports.delete_many (is_in_report user) w.reports).1;
        appeals = (b.appeals.update_many (λ a. is_about gone a.report) without_report w.appeals).1;
      }

  abbrev pub delete_messages : ℕ → World b → World b
  delete_messages user w = record w {
    messages = (b.messages.delete_many (λ m. m.sender == user) w.messages).1;
  }

  abbrev pub delete_sessions : ℕ → World b → World b
  delete_sessions user w = record w {
    sessions = (b.sessions.delete_many (is_in_session user) w.sessions).1;
  }

  -- with their messages
  abbrev pub delete_matches : ℕ → World b → World b
  delete_matches user w =
      let gone = b.matches.find_many (is_in_match user) w.matches in
      record w {
        matches = (b.matches.delete_many (is_in_match user) w.matches).1;
        messages = (b.messages.delete_many (λ m. any (λ x. x.id == m.match_id) gone) w.messages).1;
      }

  -- with the blocks and the appeals of the user; the other rows are gone by then
  abbrev pub delete_user : ℕ → World b → World b
  delete_user user w = record w {
    users = (b.users.delete_many (λ u. u.id == user) w.users).1;
    blocks = (b.blocks.delete_many (is_in_block user) w.blocks).1;
    appeals = (b.appeals.delete_many (λ a. a.user == user) w.appeals).1;
  }

  abbrev pub delete_rows : ℕ → World b → World b
  delete_rows user w = delete_user user (
      delete_matches user (
        delete_sessions user (
          delete_messages user (
            delete_reports user (
              delete_moderation_events user (
                delete_transactions user
                  (delete_push_tokens user (delete_refresh_tokens user w))))))))

  -- without the user the transaction is rolled back
  unfoldable pub delete_account : ℕ → Exec (World b) (Unit {0})
  delete_account user w =
      if is_some (user_of user w) then (ok tt, delete_rows user w) else (err no_such_row, w)
