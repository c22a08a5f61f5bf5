-- ===== src/Lib.antt =====
-- A model of the OpenModel gateway (internal/ of the Go module): a gateway that sends the requests of
-- users to GPU workers, meters them, and settles what they cost on a chain. The parts that are
-- modelled are its fleet of workers, the way of a request and of a stream through the gateway, the keys
-- of wallets, and the settlement with its prices and its reconciliation.
--
-- Prelude: Boolean tests, the interface of decidable equality, Go maps as association lists, lists
-- measured by native numbers, and signed integers.
--
-- Worker (src/internal/worker): state.go is Worker/State and Worker/Models, registry.go is
-- Worker/Registry with the children Core (the registry and its file), Admin (registration, bans,
-- verification), Runtime (state reports, failures, model switches) and Views (the queries), and
-- poller.go is Worker/Registry/Runtime as well. Each method is a function on the record `Registry`;
-- the mutex makes a method one step, so an interleaving is a list of events (Worker/Lifecycle).
--
-- Settlement (src/internal/settlement): merkle.go is Settlement/Merkle, the billing formula of
-- aggregator.go is Settlement/Pricing, the allocation of one cost Settlement/Aggregator, one cycle
-- Settlement/Aggregator/Cycle; balance.go is Settlement/Balance and, for what it reads from the chain,
-- Settlement/Balance/Refresh; settler.go is Settlement/Settler (the plan on disk), World (the files, the
-- chain, the reversal of items) and Resume (`resumePending`); Settlement/Settle is the cycle around them, and Settlement/Leaves
-- makes the plan, with the leaves of merkle.go. The aggregator makes items from the
-- balances that the cache holds, the settler freezes them into batches, submits each batch, and when
-- all are final commits the cursor of the request log, the pending spend, the total and the debts.
--
-- The request log that the gateway writes is what the settlement reads: scanner.go is
-- Settlement/Scanner, with its reading in Scanner/Unread, and requestlog.go Gateway/RequestLog, with the
-- two put together in RequestLog/RoundTrip; the files are lists of bytes with an inode, the backups a list
-- with the newest first.
--
-- Gateway (src/internal/gateway): ratelimit.go is Gateway/RateLimit, and
-- session.go is Gateway/Session, the worker that a conversation prefers. A request of a key passes
-- `AllowRate` and `Acquire` before it is sent to a worker, and gives its slot back at the end; a release
-- function is an entry of a list, which its first call spends.
--
-- A request enters by Gateway/Intake (`handleProxy` of gateway.go, with its deferred calls), passes the
-- balance gate and the session's worker or the router's choice (Gateway/Router, router.go, with the names of
-- models in Gateway/ModelNames), waits if there is none (Gateway/Waiting), and is tried on
-- one worker after another (Gateway/Proxy, `handleNonStreaming`) until its record is logged. The verdict
-- on a worker's receipt is in Gateway/Receipt (receipt.go); the handler takes it as a part of the answer. What the
-- workers answer and what the registry is at each attempt are arguments, and so are the two handlers
-- where `handleProxy` calls them.
--
-- A streamed request is Gateway/Streaming (`handleStreaming` and `tryResume`): turns of a loop, each of which
-- asks one worker and passes what it sends through Gateway/Stream (`sseCaptureWriter`: whole lines that
-- are filtered, or the bytes as they come), until the stream is over or is resumed on another worker.
-- What is read from the JSON of a body is Gateway/Body; the parser is a parameter. Signed
-- messages register a wallet (Gateway/Registration, registration.go), or create, list and delete its keys
-- (Gateway/Keys, keys.go).
--
-- Settlement/Pricer (pricer.go) is where the prices come from: feeds that may fail or be wrong. The settler's
-- cycle and the balance cache take the prices as parameters. Settlement/Reconciler (reconcile.go) is the
-- comparison of what was billed with what is settled or pending: it has a scanner of its own.
--
-- Choices. Times are nanoseconds since 0 as native numbers; Go's zero time is 0. Go's `int` and
-- `big.Int` are unbounded integers: the counters that are modelled do not come near 2 ^ 63. `big.Float`
-- and `float64` are parameters (Settlement/Floats, Gateway/RateLimit), since their rounding is not modelled, and so are SHA-256, the
-- Ethereum client, hexadecimals and the comparison of texts without case; the settler's interface to
-- the contract is the record `SettlementContract`, whose calls change an abstract chain. The order of a
-- Go map is that of the association list. A file is what it decodes to. In the registry a flag says
-- whether writes succeed; the settler's world has a list of the outcomes of its writes to come. The
-- Merkle loops run on fuel, the number of leaves, which is enough since each round halves the level; the
-- loop of `splitBatches` runs on the number of items, which is enough since each round takes one or more.
--
-- Not modelled: routing of HTTP paths, logging and metrics, the reports that only read log files, the
-- registration of providers, the RPC client, the probes; of the settler, its ledgers and
-- its timer; of streams, the samples that are kept of them.
pub mod Gateway
pub mod Prelude
pub mod Settlement
pub mod Worker
