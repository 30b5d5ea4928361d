-- ===== src/Lib.antt =====
-- A model of the payment platform's protocol core, with the properties that make it correct.
--
-- The program is a multi-region payment platform in Go. Its ledger, payments, cross-region transfers of
-- spending rights, retries and crashes are stated executably in the package internal/failuresim, whose
-- `World` is the deterministic reference of the platform's invariants: accounts and a hash-chained
-- journal, regions that write at a fencing epoch under a quorum, idempotency keys and economic effects,
-- payments with their releases, certificates of transfers, an outbox, an inbox and injected faults.
-- The mutex of `World` makes a section of a call one step, so a call is a function on the state here, and
-- the concurrent calls of clients are a list of operations in `Failuresim.Runs`. Calls of more than one
-- section are merged into one step: `Deposit`, `releaseCapture` and `GrantCashback` take the fence in a
-- section before the operation's own, so the source can answer them with ErrStaleEpoch when a restart
-- comes between, where the model reads the current epoch; `AdvanceSaga` releases the mutex around `Pay`
-- and reads its saga again before it saves it. `PayWithFence` and `InitiateTransfer` take any fence, also
-- one of an earlier epoch.
--
-- The files, and the code each is about:
--   Common and its children: Booleans, lists, `(value, error)` pairs, `*big.Int`, maps and bytes.
--   Ledger.Amount: internal/ledger/types.go, the amounts (`Add`, `Sub`, `fitsDecimal38`).
--   Ledger.Posting, Ledger.DoubleEntry: `PostRequest.Validate` of the same file, and what it accepts.
--   Payment.State, Payment.Lifecycle: internal/payment/state.go, the states of a payment.
--   Audit.Merkle, Audit.Roots: internal/audit/merkle.go, the root of the ledger's entries; Audit.Collisions
--     has the digests that the proofs share.
--   Ledger.Entries, Decoding, Bindings: internal/ledger/hash.go, the canonical bytes of an entry, how they
--     are read back and what their hash binds.
--   Audit.Verifier, Audit.Histories: `VerifyRange` of internal/audit/verifier.go and what it binds.
--   Simulation.Network, Transport, Packets: internal/simulation/network.go, the state of the transport,
--     `Send` and `Drain`, and what becomes of packets; Simulation.Links, Reach and Delivery are about
--     links that are cut, in either direction.
--   Simulation.Cluster: internal/simulation/cluster.go; Simulation.Cluster.Fences is about workers of an
--     earlier life of their region.
--   Failuresim.Types: internal/failuresim/types.go.
--   Failuresim.Hashing: `requestFingerprint`, `writeLengthPrefixed` and `hashTransaction` of world.go.
--   Failuresim.Book: `postLocked` of world.go; its children hold what a post does to balances and
--     totals, the ways in which it succeeds, the soundness of the journal, and a second post.
--   Failuresim.World: the state of world.go, `requireWriterLocked`, `Fence`, quorum and faults.
--   Failuresim.Effects: `addOutboxLocked`, `replayEffectLocked` and the lookup of a key, operations.go.
--   Failuresim.Payments: `Pay` and `PayWithFence`; its children are about retries and
--     refusals.
--   Failuresim.Credits, Releases, Cashback: `Deposit`, `releaseCapture`, `GrantCashback`.
--   Failuresim.Fencing, Bounds, Rewards: writers of an earlier epoch, and the bounds of what is released
--     and of what is paid as cashback.
--   Failuresim.Certificates, Transfers, Arrivals: `InitiateTransfer` and `consumeTransfer` of transfer.go.
--   Failuresim.Genesis: `NewWorld` of world.go.
--   Failuresim.Delivery: `DispatchOutbox`, `DeliverMessages` and `PumpUntilSettled` of transfer.go.
--   Failuresim.Sagas, Fraud, External: saga_fraud_external.go, the sagas and their coordinator, verdicts
--     of fraud that come late, and the external processor; their children are about retries and reversals.
--   Failuresim.Runs: the operations as one type, and runs of them.
--   Failuresim.Funds and its children: the conservation laws, operation by operation.
--   Transfer.Legs: internal/transfer/legs.go and the checks of service.go; Transfer.Plans and Validity,
--     Postings say what a plan does and that the ledger accepts it.
--   Idempotency.Records: internal/idempotency/service.go; Idempotency.Replay, Calls and Answers are about
--     finished requests and the calls that follow, Leases about running ones.
--   Saga.Types, Steps, Orchestrator, Ticks: internal/saga/types.go and orchestrator.go; Saga.Forward,
--     Progress, Backward, Compensation, Starts and Races are about sagas that run, that compensate, and
--     messages or failures that come late.
--   Migration.Split, Migration.Trim: internal/schemamigration/split.go, the lexer of migration files;
--     Migration.Pieces and Literals are about where a file is cut and what a literal holds.
--   Fx.Convert, Fx.Rounding: internal/fx/service.go, conversions and quotes.
--   Tests, and a Tests module of each component: the runs at concrete inputs.
--
-- How state and code correspond. The fields of `World` are the fields of the Go struct; balances,
-- journal, effects, sequence and head hash are grouped in `Book`. A Go map is an association list
-- (`Common.Dict`); where the code ranges over a map, the model takes the list's order, and the results
-- do not depend on it. A pointer into a map that is written through is `modify`. A `[32]byte` is a
-- number below 2^256, a byte a number below 256. `uint64` counters wrap, written `% 2 ^ 64`. `Amount` is
-- an integer whose sums are refused at 38 decimal digits, as `Add` and `Sub` refuse them. An operation
-- returns the state that it leaves and an `Answer`: a receipt, a receipt with an error (the commit
-- happened and the response is lost), or an error with the zero receipt.
--
-- The standard library's SHA-256, HMAC and JSON are parameters (`Hashing.Primitives`). Nothing is
-- assumed of them but that a digest has 32 bytes, where the bindings of the Merkle root and of the
-- chain of entries are stated, and that the JSON encoder writes JSON, where the legs of a transfer are
-- posted.
--
-- A SQL table is a list of rows, and a serializable transaction one step on it: a call that fails leaves
-- nothing behind. The failure of a saga's action is recorded in a transaction of its own, as the code
-- does, so `Orchestrator.record_failure` is a step that others may come before. What the JSONB column of
-- a response returns for the text that is stored is a parameter, `jsonb_text`: the database is not
-- assumed to keep its bytes.
--
-- Bounds and fuel: `Bytes.decimal` prints a number with its value and one as fuel, which is more than
-- its digits; `Merkle.climb` takes the number of leaves as fuel, one round for each level. The rounds of
-- `pump_until_settled` are the source's own bound. Every other function is structural.
--
-- Not modelled: the SQL services of the ledger, payments and quotes, authorization, gRPC and Kafka
-- adapters, object storage, process wiring and metrics, which are input and output around these protocols.
pub mod Common
pub mod Ledger
pub mod Simulation
pub mod Payment
pub mod Transfer
pub mod Idempotency
pub mod Saga
pub mod Fx
pub mod Migration
pub mod Audit
pub mod Tests
pub mod Failuresim
