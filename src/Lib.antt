-- ===== src/Lib.antt =====
-- Verification of the tooling of the Challenge Escrow Protocol.
--
-- A challenge is a bet between two wallets on an outcome. Each side deposits the same stake into an
-- escrow, a resolver proposes an outcome, a participant may dispute it, an arbiter decides disputes,
-- and timeouts end what the authorities leave undecided. tools/model/challenge-model.mjs is the
-- executable model of that protocol, on which the simulator, the liveness tools and the random runs
-- of the repository stand; tools/liveness/sweep.mjs checks its schedules on its own and compares the
-- two.
--
-- Model: tools/model/challenge-model.mjs.
--   Model/Doubles: the numbers of JavaScript, on which the liability is summed.
--   Model/Types, Model/Exec, Model/Shared: the data, the way a handler runs (a result that is a
--     value, a `ModelRejection` or another error, with the state), and the common reads and writes.
--   Model/Opening: `#pause`, `#create`, `#advanceNonce`, `#accept`, `#cancel`, `#expire`.
--   Model/Deciding: `#propose`, `#dispute`, `#finalize`, `#arbitrate`, `#voidUnproposed`,
--     `#voidUnarbitrated`, `#setFinal`.
--   Model/Payout: `#claim`, `#refund`, `#consume`.
--   Model/Machine: `#apply` (dispatch), `assertInvariants`, `snapshot`, `apply`, and runs of actions.
--   Model/Phase, Model/Spec: the specification, in which a challenge is its terms and a phase, and
--     an action takes a phase to the next one or refuses with a code.
--   Model/Settle, Model/Refine: the handlers against the specification.
--   Model/Sound, Model/Step: what holds of a reachable phase, and the diagram as a step relation.
--   Model/Invariant, Model/Creation, Model/Actions, Model/Replies: the invariant of the model, kept
--     by every action, and what `apply` replies.
--   Model/Exit, Model/Drain, Model/Payments, Model/History, Model/Pausing: what follows from it.
-- Sweep: `schedule`, `validate` and `authorityWindows` of tools/liveness/sweep.mjs.
-- Observer: tools/client/observer.ts, which follows the logs of the contract through reorganisations.
--   Observer/Types, Observer/Hex, Observer/Exec: the data, the patterns of texts, and an asynchronous
--     method as a computation that counts its reads of the provider.
--   Observer/Setup: the constructor. Observer/Headers: `normalizeHeader`, `#findCommonAncestor`,
--     `#loadHeaders`. Observer/Logs: `normalizeLog` and the merge of the logs. Observer/Sync:
--     `#syncOnce` and series of synchronisations.
--   Observer/Store, Observer/Chain, Observer/Reads, Observer/Anchors, Observer/Retained,
--     Observer/Loaded: the lemmas on the map of headers, on chains, on what the reads return and on
--     logs; Observer/Sound, Observer/Synced: the invariant of the observer.
--   Observer/Returning, Observer/Steady, Observer/Served, Observer/First: that a synchronisation
--     returns, and the first one with a provider that serves one chain. Observer/View: `compareLogs`
--     and the sorted `logs`.
-- Quorum: tools/client/rpc.ts, which compares the heads that several endpoints report.
--   Quorum/Types, Quorum/Snapshot: `snapshot` of one endpoint, its reads and its errors. Quorum/Head:
--     `quorumHead`. Quorum/Report: `compareRpcQuorum`. Quorum/Divergence: `compareRpcHeads`, and where
--     two endpoints diverge.
--   Quorum/Counting, Quorum/Majority, Quorum/Agreement, Quorum/Serving, Quorum/Coherence: the groups as counts of the
--     endpoints, what a head and a report that agree say, and what a snapshot holds.
-- Authority: `certificate` of tools/liveness/authority-v2.mjs, the approvals of a set of authorities.
-- Events: tools/client/events.ts, which decodes the logs of the contract.
--   Events/Types, Events/Exec: the thirteen events, and a value or the message that is thrown.
--   Events/Words, Events/Texts: the words of ABI data, bytes, UTF-8 and dynamic texts.
--   Events/Opening, Events/Deciding, Events/Closing, Events/Release: one decoder for each event.
--   Events/Decode: the table of signatures and `decodeProtocolEvent`.
--   Events/Signatures, Events/Bounds, Events/Sound, Events/Whole: what is proved of them.
--   Events/Declared: the declarations of the events in the contracts, and the table against them.
-- Projector: tools/client/projector.ts, which projects decoded events to challenges.
--   Projector/Types, Projector/Shared: the data, `transition` and the tests that handlers share.
--   Projector/Opening, Projector/Deciding, Projector/Resolving, Projector/Payouts: the branches of
--     `projectEvent`; Projector/Events: `projectEvent` and its loop.
--   Projector/Checks: `validateFinality`, the loop over the logs, `finalityOf`. Projector/Record:
--     `projectProtocolLogs`.
--   Projector/Diagram, Projector/Evolving, Projector/Continuing: the diagram, and that a challenge
--     follows it. Projector/Payees, Projector/Paying, Projector/Covered,
--     Projector/Receiving, Projector/Received: whom a state pays, and how
--     much. Projector/Accounting: a projection without anomalies.
-- The projector uses the logs and headers of Observer, its order of logs (Observer/View), and the
-- decoders of Events; the states and outcomes are those of Model.
-- Portable: tools/portable/canonical.mjs, the language of conditions.
--   Portable/Json, Portable/Patterns: JSON values, `assertKeys` and the patterns of texts.
--   Portable/Validate: `validateCondition`, `validateNode`, `validateValue`. Portable/Evaluate:
--     `evaluateCondition`, `evaluateNode`, `resolveValue`, `compareValues`, `rational`.
--   Portable/Rules, Portable/Total, Portable/Answers, Portable/Mirror: what is proved of them.
-- Keccak: tools/client/keccak.ts, Keccak-256 (`keccak256`, `permute`) and `computeEntitlementId`.
--   Keccak/Shape: what is proved of it.
-- Policy: tools/operations/authority-policy.mjs, the policy of an authority and its checks.
--   Policy/Roles, Policy/Validate: `validateAuthorityPolicy`. Policy/Incidents:
--     `evaluateIncidentMatrix`. Policy/Incidents/Margins: what is proved of it.
-- Tests: runs of the model at fixed inputs, and the theorems at concrete inputs.
--
-- Wallets, identifiers, nonces and hashes are texts; the empty text stands for a missing one, which
-- the source treats alike. Amounts and times are natural numbers: a stake is
-- a safe integer, since `create` bounds it, and so are the accounts of one challenge. The total liability
-- and the sum of `assertInvariants` are not bounded by the code, and are rounded as JavaScript rounds
-- (Model/Doubles), on finite numbers; where a theorem needs their sums exact it says so. The times are
-- taken to be safe integers. A stake or a window below
-- zero is refused like zero, and is not an input of the model. The fields of an action that the
-- model's types exclude (a state or an entitlement of another shape) are not modelled, so the check
-- for an unknown state, and the one for a negative amount, are the types. The object of a challenge
-- is mutable in the source; a handler here keeps the object that it read and stores it after each
-- assignment. `JSON.stringify` of two snapshots is compared as the equality of the snapshots.
-- The provider of the observer is a parameter: each read is a function of the number of reads before
-- it, so it may answer differently each time, and nothing is assumed of the answers. The loop of
-- `#findCommonAncestor` recurses on what its traversal limit leaves, and the loop of `#loadHeaders` on
-- the count of headers, so no fuel is added. Negative block numbers and values of another type are
-- not inputs; a pending synchronisation that concurrent callers share is one synchronisation.
-- An endpoint of the quorum is its answers to the reads of one snapshot; the order of `localeCompare`
-- is a parameter, of which nothing is assumed.
-- The generator of tools/liveness/sweep.mjs takes its draws as a function of the draw's number.
--
-- The digits that `BigInt` reads are taken to be hexadecimal, as the projector checks before it decodes;
-- another text is refused. `TextDecoder` is the automaton of UTF-8, with its byte order mark. Labels
-- and texts of messages are left out: a failure is its kind, an anomaly its code. The id of an
-- entitlement is an argument of the projector. A lane of Keccak is a natural number below 2 ^ 64; the
-- complement of a lane is taken in 64 bits, as the mask after it leaves. The padded input is cut into
-- as many blocks as its length has, and a permutation has a round for each constant.
--
-- `validateNode` recurses on the levels that its bound on the depth leaves, 33 at the root;
-- `evaluateNode` on the same number as fuel, which is enough for every condition that is validated. An
-- observation is its id and its value; the keys of a JSON object are distinct.
--
-- A policy and its context have their fields already read: the checks of `keys`, of arrays and of the
-- type of a field are the types of the model, so a policy of another shape is not an input. A check is
-- its condition with the code that it throws, and what is thrown is the code of the first that fails.
-- The hash of a policy is a parameter, of which nothing is assumed.
--
-- Not modelled: the reading of scenario files, networks and processes, and the printing of reports
-- (tools/simulator, tools/model/run.mjs, tools/testnet, tools/security, tools/release, tools/formal,
-- tools/medusa); the encoding of calls
-- (tools/client/index.ts); the canonical form of JSON, `validateTerms` and
-- `validateEvidence` (tools/portable) and the receipts (tools/observer); of the observer, `reconcile`
-- and `evidence`. The contracts and
-- the verifier in Rust are other implementations of the protocol.
pub mod Prelude
pub mod Model
pub mod Sweep
pub mod Observer
pub mod Quorum
pub mod Authority
pub mod Events
pub mod Projector
pub mod Portable
pub mod Keccak
pub mod Policy
pub mod Tests
