-- ===== src/Worker/Synchronizer.antt =====
-- worker/src/synchronizer.rs: the batches that the primary lacks are asked for at other workers.
-- When a waiter of `waiting` ends, which one and with what result, is an event.
pub mod Requests
pub mod Waiters
use bullshark_ubuntu.Base.{
  ℕ, ◌+◌, ◌-◌, ◌==◌, not, ltb, if◌then◌else◌, is_empty, Bool, Option, none, some, List, [], ◌∷◌,
  ◌++◌, map, keys, insert, retain, contains, Result, ok, err,
}
use bullshark_ubuntu.Config.{Committee, PublicKey, WorkerId, SocketAddr, worker, others_workers}
use bullshark_ubuntu.Crypto.{Digest}
use bullshark_ubuntu.Messages.Header.{Round}
use bullshark_ubuntu.Core.State.{Bytes, Store, Rocks, digest_key}
use bullshark_ubuntu.Worker.Messages.{
  WorkerMessage, batch_request, PrimaryWorkerMessage, synchronize, cleanup, batch_silent,
}

-- The fields that never change.
pub record Settings : Type 0 where
  pub name : PublicKey
  pub id : WorkerId
  pub committee : Committee
  pub gc_depth : Round
  pub sync_retry_delay : ℕ
  pub sync_retry_nodes : ℕ
  pub rocks : Rocks
  pub serialize : WorkerMessage → Bytes

-- A message to one worker, and one to some of those at the addresses.
pub data Effect : Type 0 where
  sends : SocketAddr → Bytes → Effect
  lucky_broadcasts : List SocketAddr → Bytes → ℕ → Effect

-- `pending` has the round and the time of each request; `waiting` and `cancelled` are the digests
-- whose waiters still run, without and with a cancellation.
pub record Synchronizer : Type 0 where
  pub round : Round
  pub pending : List (Digest × (Round × ℕ))
  pub waiting : List Digest
  pub cancelled : List Digest
  pub effects : List Effect

abbrev pub new : Synchronizer
new = record { round = 0; pending = []; waiting = []; cancelled = []; effects = [] }

-- What the loop over the digests of one command changes.
pub record Scan : Type 0 where
  pub known : List (Digest × (Round × ℕ))
  pub waiters : List Digest
  pub missing : List Digest

-- One waiter for the digest ends.
abbrev pub drop_one : Digest → List Digest → List Digest
drop_one d [] = []
drop_one d (x ∷ xs) = if x == d then xs else x ∷ drop_one d xs

abbrev pub forget : Digest → List (Digest × (Round × ℕ)) → List (Digest × (Round × ℕ))
forget d = retain (λ e. not (e.0 == d))

module _ (c : Settings) where
  -- The result of the read decides whether the digest is missing; after an error it is skipped.
  unfoldable pub visit : Round → ℕ → Digest → Result ℕ (Option Bytes) → Scan → Scan
  visit round now digest (ok none) s = record {
    known = insert digest (round, now) s.known;
    waiters = digest ∷ s.waiters;
    missing = s.missing ++ digest ∷ [];
  }
  visit round now digest (ok (some _)) s = record s {
    known = insert digest (round, now) s.known;
    waiters = digest ∷ s.waiters;
  }
  visit round now digest (err _) s = s

  unfoldable pub scan : Store → Round → ℕ → List Digest → Scan → Scan
  unfolding visit
  scan store round now [] s = s
  scan store round now (digest ∷ digests) s = scan store round now digests (
      if contains digest (keys s.known)
      then s
      else visit round now digest (c.rocks.get store (digest_key digest)) s)

  -- The request goes to the target, if it has a worker with our id.
  unfoldable pub request : PublicKey → List Digest → List Effect
  request target missing = elim (worker c.committee target c.id) [
    | err _ ↦ []
    | ok address ↦ sends address.worker_to_worker (c.serialize (batch_request missing c.name)) ∷ []
  ]

  unfoldable pub command : Store → ℕ → PrimaryWorkerMessage → Synchronizer → Synchronizer
  unfolding scan request
  command store now (synchronize digests target) w =
      let s =
        scan store w.round now digests
          (record { known = w.pending; waiters = w.waiting; missing = [] }) in
      record w {
        pending = s.known;
        waiting = s.waiters;
        effects = w.effects ++ request target s.missing;
      }
  command store now (cleanup round) w =
      let gc_round = round - c.gc_depth in
      let old = keys (retain (λ e. not (ltb gc_round e.1.0)) w.pending) in
      if ltb round c.gc_depth then record w { round = round } else record w {
        round = round;
        pending = retain (λ e. ltb gc_round e.1.0) w.pending;
        waiting = retain (λ d. not (contains d old)) w.waiting;
        cancelled = retain (λ d. contains d old) w.waiting ++ w.cancelled;
      }
  command store now (batch_silent round silent) w = w

  unfoldable pub retry : ℕ → Synchronizer → Synchronizer
  retry now w =
      let old = keys (retain (λ e. ltb (e.1.1 + c.sync_retry_delay) now) w.pending) in
      let addresses = map (λ e. e.1.worker_to_worker) (others_workers c.committee c.name c.id) in
      if is_empty old then w else record w {
        effects =
            w.effects
            ++ lucky_broadcasts addresses (c.serialize (batch_request old c.name))
                c.sync_retry_nodes
              ∷ [];
      }

  -- A waiter finds its batch, also when it was cancelled; it ends by the cancellation; its read
  -- fails, also when it was cancelled.
  pub data Event : Type 0 where
    from_primary : PrimaryWorkerMessage → Event
    found : Digest → Event
    found_late : Digest → Event
    was_cancelled : Digest → Event
    storage_failed : Digest → Event
    failed_late : Digest → Event
    timer : Event

  -- A turn of the loop, at a time and with what the storage then has. A pending entry that is removed
  -- drops its channel, which cancels the waiter of that entry: when a cancelled waiter finds its
  -- batch and the digest is pending again, that is the newer waiter.
  unfoldable pub turn : Store → ℕ → Event → Synchronizer → Synchronizer
  unfolding command retry
  turn store now (from_primary message) w = command store now message w
  turn store now (found d) w = record w {
    pending = forget d w.pending;
    waiting = drop_one d w.waiting;
  }
  turn store now (found_late d) w =
      let ended = drop_one d w.cancelled in
      record w {
        pending = forget d w.pending;
        waiting = drop_one d w.waiting;
        cancelled = if contains d w.waiting then d ∷ ended else ended;
      }
  turn store now (was_cancelled d) w = record w { cancelled = drop_one d w.cancelled }
  turn store now (storage_failed d) w = record w { waiting = drop_one d w.waiting }
  turn store now (failed_late d) w = record w { cancelled = drop_one d w.cancelled }
  turn store now timer w = retry now w

  unfoldable pub run : List (Store × ℕ × Event) → Synchronizer → Synchronizer
  unfolding turn
  run [] w = w
  run ((store, now, event) ∷ rest) w = run rest (turn store now event w)
