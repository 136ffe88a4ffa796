-- ===== src/Worker/Messages.antt =====
-- The messages of the workers, of worker/src/worker.rs and primary/src/primary.rs, and of what is
-- outside the code: bincode for them.
use bullshark_ubuntu.Base.{Bool, Option, List}
use bullshark_ubuntu.Config.{PublicKey, WorkerId}
use bullshark_ubuntu.Crypto.{Digest}
use bullshark_ubuntu.Messages.Header.{Round}
use bullshark_ubuntu.Core.State.{Bytes}

abbrev pub Transaction : Type 0
Transaction = Bytes

abbrev pub Batch : Type 0
Batch = List Transaction

pub data WorkerMessage : Type 0 where
  batch_message : Batch → WorkerMessage
  batch_request : List Digest → PublicKey → WorkerMessage

pub data PrimaryWorkerMessage : Type 0 where
  synchronize : List Digest → PublicKey → PrimaryWorkerMessage
  cleanup : Round → PrimaryWorkerMessage
  batch_silent : Round → Bool → PrimaryWorkerMessage

pub data WorkerPrimaryMessage : Type 0 where
  our_batch : Digest → WorkerId → WorkerPrimaryMessage
  others_batch : Digest → WorkerId → WorkerPrimaryMessage

-- What a worker calls of bincode.
pub record WorkerBincode : Type 0 where
  pub serialize : WorkerMessage → Bytes
  pub deserialize : Bytes → Option WorkerMessage
  pub deserialize_command : Bytes → Option PrimaryWorkerMessage
  pub serialize_report : WorkerPrimaryMessage → Bytes
