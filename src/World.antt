-- ===== src/World.antt =====
-- The state that the handlers share: the servers' states, the clock, the timers of the process
-- and what has been sent out. A handler reads the clock once.
use verity_backend.Prelude.{ℕ, Bool, ◌==◌, Option, List, ◌++◌, filter, find, not}
use verity_backend.Services.Redis.{Strings, SortedSets, KeySet, ChoiceHashes}
use verity_backend.Services.Database.{Table}
use verity_backend.Schema.{
  User, Session, Match, Block, Message, TokenTransaction, RefreshToken, ModerationEvent, Report,
  Appeal, PushToken, AgoraConfig, Output,
}

pub record Servers : Type 1 where
  pub strings : Strings
  pub zsets : SortedSets
  pub queue_keys : KeySet
  pub choices : ChoiceHashes
  pub users : Table User
  pub sessions : Table Session
  pub matches : Table Match
  pub blocks : Table Block
  pub messages : Table Message
  pub transactions : Table TokenTransaction
  pub refresh_tokens : Table RefreshToken
  pub events : Table ModerationEvent
  pub reports : Table Report
  pub appeals : Table Appeal
  pub push_tokens : Table PushToken

-- A timer of the session service: the session, its users and the time at which it fires.
pub record Timer : Type 0 where
  pub session : ℕ
  pub user_a : ℕ
  pub user_b : ℕ
  pub at : ℕ

pub record World (b : Servers) : Type 0 where
  pub now : ℕ
  -- whether the socket server is up
  pub server_ready : Bool
  pub agora : AgoraConfig
  pub strings : b.strings.State
  pub zsets : b.zsets.State
  pub queue_keys : b.queue_keys.State
  pub choices : b.choices.State
  pub users : b.users.State
  pub sessions : b.sessions.State
  pub matches : b.matches.State
  pub blocks : b.blocks.State
  pub messages : b.messages.State
  pub transactions : b.transactions.State
  pub refresh_tokens : b.refresh_tokens.State
  pub events : b.events.State
  pub reports : b.reports.State
  pub appeals : b.appeals.State
  pub push_tokens : b.push_tokens.State
  pub timers : List Timer
  pub choice_timers : List Timer
  pub outbox : List Output

abbrev pub send : {b : Servers} → List Output → World b → World b
send out w = record w { outbox = w.outbox ++ out }

-- `timers.get(id)`, and `clearTimeout` with `timers.delete(id)`
abbrev pub timer_of : ℕ → List Timer → Option Timer
timer_of id = find (λ t. t.session == id)

abbrev pub clear_timer : ℕ → List Timer → List Timer
clear_timer id = filter (λ t. not (t.session == id))
