-- ===== src/Tests/Workers.antt =====
-- Runs of the parts of a worker.
use bullshark_ubuntu.Base.{
  ℕ, zero, suc, be_bytes, ◌≡◌, refl, ap, ◌∙◌, inl, true, false, Option, none, some, List, [], ◌∷◌,
  length, arith,
}
use bullshark_ubuntu.Crypto.{Digest}
use bullshark_ubuntu.Core.State.{Bytes, Store, digest_key}
use bullshark_ubuntu.Worker.Messages.{
  Transaction, Batch, WorkerMessage, batch_message, batch_request, synchronize, cleanup,
  WorkerPrimaryMessage, our_batch, others_batch, WorkerBincode,
}
use bullshark_ubuntu.Worker.BatchMaker
use bullshark_ubuntu.Worker.BatchMaker.{Move, arrives, dispatches, turns}
use bullshark_ubuntu.Worker.BatchMaker.Sealed.{Sound, arrived, batches_complete}
use bullshark_ubuntu.Worker.BatchMaker.Silence.{
  Idle, AllSealed, expirations, silence_kept, turns_drain,
}
use bullshark_ubuntu.Worker.Synchronizer
use bullshark_ubuntu.Worker.Synchronizer.{Event, from_primary, found, found_late, timer}
use bullshark_ubuntu.Worker.Synchronizer.Requests.{Asked, command_asks}
use bullshark_ubuntu.Worker.Synchronizer.Waiters.{Watched, pending-Watched}
use bullshark_ubuntu.Primary.{PrimaryBincode}
use bullshark_ubuntu.Primary.Available.{Assumed}
use bullshark_ubuntu.Tests.{four}
use bullshark_ubuntu.Tests.Storages.{memory, memory_reads_back, memory_apart}

-- A serialization: a byte is one more, and 0 ends a transaction.
abbrev encode_transaction : Transaction → Bytes → Bytes
encode_transaction [] rest = 0 ∷ rest
encode_transaction (b ∷ bs) rest = suc b ∷ encode_transaction bs rest

abbrev encode : Batch → Bytes
encode [] = []
encode (tx ∷ txs) = encode_transaction tx (encode txs)

abbrev push : ℕ → Batch → Batch
push b [] = (b ∷ []) ∷ []
push b (tx ∷ txs) = (b ∷ tx) ∷ txs

abbrev decode : Bytes → Batch
decode [] = []
decode (zero ∷ rest) = [] ∷ decode rest
decode (suc b ∷ rest) = push b (decode rest)

decode-encode_transaction :
    (tx : Transaction) (rest : Bytes) → decode (encode_transaction tx rest) ≡ tx ∷ decode rest
decode-encode_transaction [] rest = refl
decode-encode_transaction (b ∷ bs) rest = ap (push b) (decode-encode_transaction bs rest)

decode-encode : (txs : Batch) → decode (encode txs) ≡ txs
decode-encode [] = refl
decode-encode (tx ∷ txs) =
    decode-encode_transaction tx (encode txs) ∙ ap (◌∷◌ tx) (decode-encode txs)

abbrev encode_message : WorkerMessage → Bytes
encode_message (batch_message batch) = encode batch
encode_message (batch_request missing requestor) = []

abbrev encode_report : WorkerPrimaryMessage → Bytes
encode_report (our_batch digest id) = digest ∷ id ∷ []
encode_report (others_batch digest id) = digest ∷ id ∷ 0 ∷ []

abbrev decode_report : Bytes → Option WorkerPrimaryMessage
decode_report (digest ∷ id ∷ []) = some (our_batch digest id)
decode_report (digest ∷ id ∷ _ ∷ []) = some (others_batch digest id)
decode_report _ = none

abbrev pub worker_bincode : WorkerBincode
worker_bincode = record {
  serialize = encode_message;
  deserialize = λ bytes. some (batch_message (decode bytes));
  deserialize_command = λ bytes. none;
  serialize_report = encode_report;
}

abbrev pub primary_bincode : PrimaryBincode
primary_bincode = record { deserialize_message = λ bytes. none; deserialize_report = decode_report }

parses_report : (m : WorkerPrimaryMessage) → decode_report (encode_report m) ≡ some m
parses_report (our_batch digest id) = refl
parses_report (others_batch digest id) = refl

pub assumed : Assumed worker_bincode primary_bincode memory
assumed = record {
  parses = λ b. ap (λ t. some (batch_message t)) (decode-encode b);
  parses_report = parses_report;
  reads_back = memory_reads_back;
  apart = memory_apart;
}

abbrev maker : BatchMaker.Settings
maker = record {
  batch_size = 3;
  workers_addresses = (2, 20) ∷ (3, 30) ∷ [];
  serialize = encode_message;
}

-- A batch of two transactions, a silence, and a batch sealed by the timer.
abbrev moves : List (Move maker)
moves =
    arrives (1 ∷ 2 ∷ [])
    ∷ arrives (3 ∷ [])
    ∷ turns false
    ∷ turns false
    ∷ dispatches 4 true
    ∷ arrives (5 ∷ [])
    ∷ turns true
    ∷ dispatches 6 false
    ∷ turns true
    ∷ turns true
    ∷ turns true
    ∷ []

batches_complete_example :
    Sound maker (arrived maker moves) (BatchMaker.run maker moves BatchMaker.new)
batches_complete_example = batches_complete maker moves (omega arith)

abbrev silenced : BatchMaker.BatchMaker
silenced = record BatchMaker.new {
  batch_silent = (4, true);
  current_batch = (1 ∷ []) ∷ [];
  current_batch_size = 1;
}

abbrev quiet : List (Move maker)
quiet = arrives (5 ∷ []) ∷ turns true ∷ dispatches 3 false ∷ turns true ∷ []

silence_kept_example : Idle maker silenced (BatchMaker.run maker quiet silenced)
silence_kept_example =
    silence_kept maker quiet 4 silenced (omega arith) refl (tt, (tt, (inl (omega arith), (tt, tt))))

-- A transaction in the channel and one in the batch under way, after a silence that is over.
abbrev resumed : List (Move maker)
resumed =
    dispatches 4 true
    ∷ turns true
    ∷ dispatches 6 false
    ∷ turns true
    ∷ arrives (3 ∷ [])
    ∷ turns false
    ∷ arrives (5 ∷ [])
    ∷ []

turns_drain_example : AllSealed maker (arrived maker resumed) (
    BatchMaker.run maker
      (expirations maker (suc (length (BatchMaker.run maker resumed BatchMaker.new).transactions)))
      (BatchMaker.run maker resumed BatchMaker.new))
unfolding BatchMaker.run
turns_drain_example = turns_drain maker resumed (omega arith) refl refl

abbrev syncer : Synchronizer.Settings
syncer = record {
  name = 1;
  id = 0;
  committee = four;
  gc_depth = 50;
  sync_retry_delay = 1000;
  sync_retry_nodes = 2;
  rocks = memory;
  serialize = encode_message;
}

-- Digest 7 is asked for twice, 8 is stored, 9 is pending.
abbrev waits : List (Digest × (ℕ × ℕ))
waits = (9, (1, 100)) ∷ []

abbrev wanted : List Digest
wanted = 7 ∷ 8 ∷ 9 ∷ 7 ∷ []

abbrev holding : Store
holding = (digest_key 8, []) ∷ []

abbrev syncing : Synchronizer.Synchronizer
syncing = record Synchronizer.new { round = 2; pending = waits; waiting = 9 ∷ [] }

command_asks_example :
    Asked syncer holding 2 200 wanted 2 syncing
      (Synchronizer.command syncer holding 200 (synchronize wanted 2) syncing)
command_asks_example = command_asks syncer holding 200 wanted 2 syncing

abbrev happenings : List (Store × ℕ × Event syncer)
happenings =
    ([], 100, from_primary (synchronize wanted 2))
    ∷ ([], 5000, timer)
    ∷ (holding, 6000, found 8)
    ∷ ([], 7000, from_primary (cleanup 60))
    ∷ ([], 8000, from_primary (synchronize wanted 2))
    ∷ (holding, 9000, found_late 7)
    ∷ []

pending-Watched_example :
    Watched
      (Synchronizer.run syncer happenings Synchronizer.new).pending
      (Synchronizer.run syncer happenings Synchronizer.new).waiting
pending-Watched_example = pending-Watched syncer happenings (tt, (tt, (tt, (tt, (tt, (tt, tt))))))

-- The late find ends the newer waiter too.
after_found_late :
    ((Synchronizer.run syncer happenings Synchronizer.new).waiting ≡ 9 ∷ 8 ∷ [])
    × ((Synchronizer.run syncer happenings Synchronizer.new).cancelled ≡ 7 ∷ 9 ∷ [])
unfolding Synchronizer.run be_bytes
after_found_late = (refl, refl)
