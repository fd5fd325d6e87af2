-- ===== src/Lib.antt =====
-- The core logic of the Credence backend, a TypeScript service for bonds and trust on Stellar.
--
-- Parts and files:
--   * StateTransition: the class TransitionMatrix of src/lib/stateTransition.ts. `Matrix` has the
--     fields of the class; `new` is the constructor, `none` where it throws. Files Matrix, Laws,
--     Terminal, and Reach for the statuses that valid transitions lead to.
--   * Lifecycle: the matrices built with that class: src/db/outbox/transitions.ts (Outbox),
--     src/services/settlementTransitions.ts (Settlement), src/services/keyManager/keyTransitions.ts
--     (Keys), src/services/governance/disputeStateMachine.ts (Dispute). Each enumeration of literals
--     is a data type with a test of equality.
--   * Breaker: src/clients/circuitBreaker.ts. The object is the record `Breaker`. `execute` awaits the
--     caller's operation, so it is two functions: `admit` up to the await, and `on_success` or
--     `on_failure` after it. Calls overlap in any order of these parts.
--   * RingBuffer: src/jobs/ringBuffer.ts, refined to a list, oldest item first.
--   * Governance.Slashing, Governance.Multisig, Governance.Disputes: slashingVotes.ts, multisig.ts with
--     inMemoryStorage.ts, and disputes.ts of src/services/governance. Each module's Map is a `Dict`
--     that the operations take and give back. Disputes use the matrix of Lifecycle.Dispute.
--   * Members: src/services/members/service.ts over src/repositories/member.repository.ts. The table is
--     the list of its rows. A request is a part that reads and guards and a part that writes; Seats and
--     Races interleave the parts of requests, Owners and Isolation run whole requests.
--   * Policy: src/services/policy over src/types/rbac.ts. Evaluator decides a request on a list of rules;
--     Store has the rules and the cache of each organisation's rules; Coherence and Refinement relate
--     the two.
--   * Webhooks: src/services/webhooks/admission.ts. Hex has the hexadecimal texts; Admission the checks
--     and the store of claims. SHA-256 is an argument `hmac` of the definitions.
--   * Decimal: src/lib/decimalMath.ts. Parts reads and writes decimal texts and rounds a division,
--     Operations and Quotients have the exported functions; Formats, Rounding, Divisions, NumericBounds and
--     Comparisons their correctness.
--   * Outbox: src/db/outbox/repository.ts. Table has the rows and the state, Changes what each UPDATE makes
--     of a row and the tests of the WHERE clauses, Claims, Events and Quarantine the statements. Runs is
--     the relation of one operation after another; Consistency, Lifecycles, Histories, Failures, Attempts,
--     Leases, Selections, Shards and Moves have the proofs. The status of an event and its matrix are
--     those of Lifecycle.Outbox. The first 32 bits of the MD5 of an id are an argument `hash`.
--     Rules has the rules of src/db/outbox/types.ts, and Agreement compares them with the statements.
--     Publisher has the processing of one event of src/db/outbox/publisher.ts, Publications and Groups its
--     proofs.
--   * Auth: src/auth/concurrency.ts (Guard) over src/lib/singleflight.ts (SingleFlight). A validation is a
--     part before and a part after the lookup of the key, and the parts of all validations come in any
--     order; Bursts, Sizes, Decisions and Fingerprints have the proofs.
--   * Base: tests on numbers, lists with native indices, the interface `Eq`, results, dictionaries with
--     at most one row for each key, and texts.
--
-- How the code is read: a thrown error is `err` in a result, next to the state that is reached; a value
-- that may be undefined is an Option. A clock reading and a fresh identifier are arguments. Numbers
-- that the source keeps nonnegative are natural numbers, without the bound of the source's floating
-- point; a difference that could be negative is written with the subtracted number on the other side
-- of the comparison. All functions are by structural recursion, or, for the digits of a number, on a
-- bound on how many there are: one more than the number itself, or 16 for the safe integers of a
-- timestamp.
--
-- Not modelled: HTTP routes and middleware, SQL apart from the
-- queries on members and on the outbox, the redaction of error messages, Redis, Stellar and webhook clients,
-- metrics, logging, tracing, migrations, the SDK and the examples, which are input and output or glue.
pub mod Base
pub mod StateTransition
pub mod Lifecycle
pub mod Breaker
pub mod RingBuffer
pub mod Governance
pub mod Members
pub mod Policy
pub mod Webhooks
pub mod Decimal
pub mod Outbox
pub mod Auth
