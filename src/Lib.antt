-- ===== src/Lib.antt =====
-- The Bullshark consensus of a DAG-based mempool: the parts of the primary that decide what is
-- certified, and the consensus that orders what was certified.
--
-- A primary proposes a header a round (primary/src/proposer.rs), with the certificates of the round
-- before as parents and the digests of its workers' batches as payload. The core of each primary
-- (primary/src/core.rs) votes for the headers of the others, once for an author in a round, when it
-- has their parents and payload (primary/src/synchronizer.rs). Votes of a quorum make a certificate,
-- and certificates of a quorum let the proposer go to the next round (primary/src/aggregators.rs).
-- All certificates go to the consensus (consensus/src/lib.rs), which keeps them as a DAG, commits the
-- leaders of some rounds, and outputs each leader's history in a fixed order. What it outputs moves
-- the round below which every task forgets (primary/src/garbage_collector.rs).
--
-- A worker assembles the transactions of its clients into batches (worker/src/batch_maker.rs),
-- broadcasts them by the reliable sender (network/src/reliable_sender.rs), and waits for a quorum of
-- acknowledgements (worker/src/quorum_waiter.rs). Each worker stores the batches it has and reports
-- their digests (worker/src/processor.rs); its primary puts those of its own into headers, and keeps
-- those of others to validate headers (primary/src/payload_receiver.rs). Batches that a worker lacks
-- are asked for at others (worker/src/synchronizer.rs). Reads of the store can wait for a write
-- (store/src/lib.rs).
--
-- The files, with the code that each is about:
--   Base              lists, maps as association lists, machine words, bytes, sorting
--   Config            config/src/lib.rs: `Committee` and its methods under their own names
--   Crypto, Error     crypto/src/lib.rs, primary/src/error.rs
--   Messages          primary/src/messages.rs: Header, Vote and Certificate, a file each
--   Aggregators       primary/src/aggregators.rs: `append` of the two aggregators
--   Consensus/State   `State::new` and `State::update` of consensus/src/lib.rs
--   Consensus/Leaders `leader`, `fallback_leader`, `order_leaders` and `linked`
--   Consensus/Order   `order_dag`
--   Consensus/Run     `run`: one function for each stretch between two early exits of the loop
--   Core/State        the fields of `Core`, its messages and effects, the outcome of a method
--   Core/Synchronizer `missing_payload`, `get_parents` and `deliver_certificate`
--   Core/Process      `process_header`, `process_vote`, `process_certificate`, `process_own_header`
--   Core/Run          the `sanitize` methods, the main loop and its cleanup
--   Core/HeaderWaiter primary/src/header_waiter.rs: a turn of its loop
--   Core/Helper       primary/src/helper.rs: the replies to a request for certificates
--   Proposer          the methods of `Proposer` and a turn of its loop in two halves
--   Adversary         primary/src/adversary.rs
--   GarbageCollector  primary/src/garbage_collector.rs
--   Primary           the handlers of primary/src/primary.rs, payload_receiver.rs and
--                     certificate_waiter.rs, whose reads the Store answers; Primary/Available
--                     composes the handlers with the worker's, and the link between them may lose
--                     a report
--   Worker/Messages   the messages between workers and primaries
--   Worker/BatchMaker worker/src/batch_maker.rs: the loop, its `select`, and `seal`
--   Worker/QuorumWaiter, Worker/Synchronizer, Worker/Processor, Worker/Helper
--                     the files of these names in worker/src
--   Worker/Handlers   the `dispatch` methods of worker/src/worker.rs
--   Store             store/src/lib.rs: the commands, the obligations and the replies
--   Network/ReliableSender  the `Connection` of network/src/reliable_sender.rs, by phases of its loop
--   Network/Broadcast  its `ReliableSender`: send, broadcast and lucky_broadcast
--   Tests             concrete runs
-- The other files hold the proofs, and are named for what they prove.
--
-- A public key, a digest, a signature and a socket address are numbers; `Stake` is u32 and `Round`
-- u64, with wrap-around where the release build wraps. A `HashMap` and a `BTreeMap` are association
-- lists in which a key stands once; the order of a `HashMap` is that of insertion. SHA-512 and the
-- signatures of ed25519_dalek, RocksDB and bincode are arguments, with a hypothesis on them only where
-- a theorem names it. A panic is `none` or `panics`. What is sent on a channel or the network is a
-- list of effects, and channels are open. Environment variables, timers and TCP are inputs.
--
-- The walk of `order_dag` is on fuel, the number of certificates in the DAG and two more, which is
-- enough. The methods of the core call each other through the header of a certificate; a run has a
-- fuel for the depth of these calls, of which two units are enough, and `out_of_fuel` is no outcome of
-- the code.
--
-- Not modelled: the simple sender and the receiver of the network, which give no guarantee (whether
-- a message arrives is an input where it matters); the creation of tasks and channels; the signature
-- service; the node's set-up, logging and the benchmark feature.
mod Base
pub mod Config
pub mod Crypto
pub mod Error
pub mod Messages
pub mod Aggregators
pub mod Consensus
pub mod Core
pub mod Adversary
pub mod Proposer
pub mod GarbageCollector
pub mod Store
pub mod Network
pub mod Worker
pub mod Primary
mod Tests
