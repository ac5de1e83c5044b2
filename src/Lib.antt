-- ===== src/Lib.antt =====
-- The Verity backend matches users who wait in the queue of a city, puts each pair into a short
-- video session, lets both choose, and opens a chat for those who chose each other.
--
-- The parts, and how they meet:
--   A user joins a queue for a token (Queue). The worker pops pairs, checks them for blocks
--   (Moderation), locks both users, creates a session (Session) and marks both as matched. The
--   session service starts the session, ends it by a timer or by moderation, opens a window for
--   the choices and takes a decision once. A mutual decision makes a match (Matches), in which the
--   users see each other's profiles and write (Chat). Tokens are bought through Stripe (Payments).
--
-- Files:
--   Prelude          shared names, tests, lists and texts, with the lemmas on them
--   Exec             handlers that read and write the state and may throw
--   Services         Redis, the tables of the database, and the numbers of JavaScript, as
--                    interfaces with laws
--   Schema           the rows of prisma/schema.prisma, and what is sent out
--   World            the state that all handlers share; sections take the servers as a parameter
--   Balances         the token balance of a user
--   Environment      how environment variables are read
--   Video            src/video/video.service.ts: whether tokens can be built, Bytes (ByteBuf),
--                    Token (AccessToken2), and Reader, which reads such bytes, with the proof Readback
--   Config           Secrets (src/common/security-config.ts), Roles (src/auth/roles.guard.ts) and
--                    Flags (src/flags/flags.service.ts)
--   Session          src/session/session.service.ts: Decision (parseStoredDecision), Lifecycle
--                    (handleSessionCreated, endSession, the timers), Finalize (finalizeDecision),
--                    Choices (submitChoice, evaluateChoices), Scan (scanKeys),
--                    Recovery (onModuleInit, onModuleDestroy), and the
--                    proofs Once, Ended, Outcome, Kept and Agreement
--   Queue            src/queue/queue.service.ts: City (resolveQueueCity, buildQueueKey), Entry,
--                    Lock, Join (joinQueue), Leave (leaveQueue), Pairs (popPair, validatePair,
--                    markMatched), with Worker for src/queue/matching.worker.ts, and the proofs
--                    Tokens, Refund, Visit, Exclusion, Pairing, Untouched and
--                    Rounds
--   Matches          src/matches: Reveal and Service, and the proofs Listed and Acknowledge
--   Chat             src/chat/chat.service.ts, and the proofs Guards, Accepts and Shown
--   Payments         src/payments/payments.service.ts: Checkout and Webhook, and the proofs Credit,
--                    Once and Ledger
--   Moderation       src/moderation/moderation.service.ts: Blocks, Violations, Reports, Appeals
--                    and Signature (verifyWebhookSignature), and the proofs Bans, Blocked, Appealed,
--                    Limits, Hex, Signed and Replay
--   Notifications    src/notifications/notifications.service.ts, and the proof Owner
--   Auth             src/auth/auth.service.ts: Refresh (refreshSession, issueTokens, logoutAll),
--                    Age (calculateAge), Verification (verifyPhone, verifyEmail), Account
--                    (signupAnonymous, updateCurrentUser), Deletion (deleteAccount,
--                    exportUserData), and the proofs Rotation, Reuse, Confirmed and Forgotten
--   Monitoring       src/monitoring/monitoring.controller.ts, and the proof Accepted
--   Mobile           verity-mobile/src/hooks: Decision (useDecision) and Waiting (useQueue), as steps
--                    on a state, and the proofs OneChoice and Consistent
--   Analytics        src/analytics/analytics.service.ts: Values, Rows, Store, Counters, Fields and
--                    Ingest (trackClientEvent, trackServerEvent), and the proofs Clean, Checked,
--                    Sound and Repeated
--   Telemetry        src/telemetry: Percentile, Metrics, Gates, Snapshot and Tick of
--                    telemetry-metrics.service.ts, Alerts of telemetry-alerts.service.ts, and the
--                    proofs Rank, Tallied, Sustained and Views
--   Tests            servers in memory, which meet all laws, and the theorems at concrete inputs
--
-- Conventions: a handler is a function from a World to a result and a World, named after its
-- method. Identifiers and texts that are only compared are numbers (0 is the empty text, 2 t + 1
-- the ISO form of the time t); other texts are lists of code points. Each handler reads the clock
-- once, and runs without another handler in between. Events, socket messages and push
-- notifications are appended to the outbox. UUIDs, hashes, HMACs, the calls of Stripe and
-- of the provider of verification codes are arguments, and so are JWTs, which are verified at a
-- time since they expire. That a server fails is modelled for the worker only: each of its rounds is
-- given whether the database fails to create the session and Redis to mark the users.
-- The foreign keys of the database are taken to hold. The worker's ten rounds for each queue are
-- the length of the list of rounds that it is given. The scan for keys has fuel: as many rounds as
-- start within five seconds, and one.
--
-- Numbers that a client sends are finite JavaScript numbers, an interface with an order; counts and
-- times are natural numbers, and the ratios that are compared hold for counts below 2 ^ 40. The
-- reading of a date is a parameter, and the lines written to the console are left out, but for
-- what Monitoring logs.
-- The analytics events are kept apart from the World, in Analytics.Store; the deletion of an account
-- does not touch them.
--
-- Not modelled: how the recovery of a restart gets the sessions from the keys; the attributes of
-- cookies; the lists for administrators; other controllers and the gateways, which
-- are input and output; the other hooks of the mobile app, its screens, and the web app.
pub mod Prelude
pub mod Exec
pub mod Services
pub mod Schema
pub mod World
pub mod Balances
pub mod Matches
pub mod Video
pub mod Session
pub mod Tests
pub mod Queue
pub mod Payments
pub mod Chat
pub mod Moderation
pub mod Notifications
pub mod Environment
pub mod Config
pub mod Monitoring
pub mod Mobile
pub mod Analytics
pub mod Telemetry
pub mod Auth
