-- ===== src/Lib.antt =====
-- The verification library of the gateway platform: the account pool of the gateway, and the
-- metering and billing of the control plane. Paths are those of the repository.
--
-- The parts and how they interact. A request asks the account chooser (internal/gateway/chooser.go)
-- for a lease; the snapshots that control publishes fill its buckets, and what upstream answers
-- feeds its cooldowns and its egress short circuit. The gateway announces each attempt and releases
-- it as events (pkg/contracts/contracts.go) on a stream (internal/events/stream.go), whose consumer
-- hands them to the metering ledger (internal/control/ledger.go); the ledger turns them into rows of usage, one for each attempt, and recovers attempts whose release never came.
-- The billing job (internal/control/billing_job.go) settles those rows by the policy
-- (internal/control/billing_policy.go), at the prices and on the wallets of
-- internal/control/billing.go.
--
-- The modules. A child that is named for a property holds its lemmas; the others hold definitions.
--   Base: Boolean tests, lists, integers, strings, Go maps, sort.Strings.
--   Contracts.Types, Contracts.Decimal, Contracts.Events: pkg/contracts/contracts.go, its types,
--     Decimal.Valid and Decimal.Sign, and the Validate methods of the events.
--   Contracts.Wrapper: pkg/contracts/wrapper.go, the validation of the wrapper protocol.
--   Gateway.Chooser: the state of the chooser. Select is AcquirePreferring and the tests it makes
--     (hasQuota, supports); Buckets is ReplaceBucket, RemoveBucket, Buckets, ReplaceAtEpoch and
--     Replace; Cooldowns is MarkFailure, MarkEgressRejected, ClearAccount and withJitter;
--     Reachable is the chooser as a transition system.
--   Control.Billing: Policy is billing_policy.go; Wallet is InsertModelPrice, priceAt, EnsureWallet
--     and applyMovement; Job is settleTenant with lineAmount; Run is RunOnce with pendingTenants.
--   Control.Ledger: HandleAttemptStarted, HandleRelease and RecoverAttempts of ledger.go over their two
--     tables; its child Memory is MemoryLedger of internal/control/state.go.
--   Control.Health: applyReleaseAuthority of internal/control/health.go.
--   Control.Wrapper: internal/control/wrapper/queue.go. Store is what it keeps in Redis and its two scripts;
--     Program is a method as a tree of calls, with the runs that interleave with other clients; Queue is
--     Enqueue, Claim, Complete, Fail and Terminal.
--   Control.Console: Base64 and Cursor are internal/control/console_cursor.go.
--   Gateway.Limiter: internal/gateway/limiter.go; InFlight is its counters and permits as a transition system.
--   Gateway.Sticky: internal/gateway/sticky.go.
--   Gateway.Server: handleNonStreaming of internal/gateway/server.go. Answer is the class of what upstream
--     answers and the tests on a request, Attempt what an attempt leads to, Handler the handler with its
--     attempts, each of which goes through the chooser, the pins, the limiter and the event stream.
--   Control.Fencing: Acquire and UpdateCredential of internal/control/fencing.go.
--   Stream: internal/events/stream.go. Envelope is the fields of an entry, as Producer.Add writes and decode
--     reads them; Consumer is process and deadLetter, with the ledger as handler; Rounds is RunOnce with reclaim. Each call of Redis and the
--     handler's transaction may fail, or take effect without an answer.
--   Migration: internal/migration/newapi. Types is types.go; Conversion, Records, Users, Tokens and Sources
--     are addSourceRecords of plan.go, which plans the users and tokens of another gateway; Origins is what its
--     records say of their sources; a map[string]any is the list of its entries.
--   Tests: runs on small inputs.
--
-- How state and operations correspond. A method that holds a lock, and a database transaction, is a
-- function from the state before to the state after; a transaction that fails returns its error and
-- leaves the state. A Go map that the code ranges over is an association list with distinct keys,
-- other maps are functions. Redis is a store of keys with their expiry, on a clock of its own; a call that
-- fails may or may not have taken effect, and which entries a consumer group delivers is left open.
-- A column that the schema keeps unique is a test over the rows. Errors are values, without their
-- messages.
--
-- Within a request of Gateway.Server the server's clocks of counters and pins stand still and no other request
-- takes a step; the ids, the gateway's clocks, and whether a call of the limiter or of the event stream takes effect and is
-- answered are inputs.
--
-- Bounds. A time is in nanoseconds since Go's zero time, and no instant before it is represented.
-- An amount of money is a whole number of 10^-12 units of currency, as NUMERIC(38,12) stores it, and
-- its range is tested where the column tests it, as that of a release's numbers is, whose columns have 32
-- bits. A price takes effect at a whole microsecond, as TIMESTAMPTZ stores it; instants past the 2^63 seconds
-- at which time.Unix wraps are not represented, and texts are those that a column TEXT takes. The arithmetic of withJitter wraps as int64 does;
-- the counter of failures wraps at 2^64. The loops are recursions on lists, that of
-- handleNonStreaming on the two attempts it may make; format_nat, the only
-- recursion on fuel, has more fuel than its number has digits.
--
-- Parameters. The hash of TerminalEventID is an argument; where it matters the theorems assume that
-- two attempts have different hashes. json.Valid, json.Marshal and the conversion of a duration to
-- whole seconds are arguments too, as are the hashes, %q and the formats of times of a migration, and
-- json.Unmarshal of an event's payload. The clock and the random byte of the jitter are inputs.
--
-- Not modelled: HTTP, TLS, Redis and PostgreSQL themselves, metrics and logs; the text of amounts
-- (checkMoney) and the listings of billing.go; concurrent transactions, which the row locks of the
-- code serialize; the platform signals and the starvation guard of health.go (HandleRelease reaches
-- the health authority where its result is `recorded`); the server's streaming handler and what
-- callUpstream does to reach upstream, the providers, the console but for its cursors, the snapshots,
-- which messages a consumer of the event stream reads, the time to live of its counts and what a dead
-- letter says of the error, and the channels of a migration's plan with what reads and applies it.
pub mod Base
pub mod Contracts
pub mod Gateway
pub mod Control
pub mod Migration
pub mod Stream
pub mod Tests
