-- ===== src/Worker/Handlers.antt =====
-- What worker/src/worker.rs does with a message from the network: each handler's `dispatch`.
-- The acknowledgement that two of them write first is not modelled.
use bullshark_ubuntu.Base.{Option, none, some, List}
use bullshark_ubuntu.Config.{PublicKey}
use bullshark_ubuntu.Crypto.{Digest}
use bullshark_ubuntu.Core.State.{Bytes}
use bullshark_ubuntu.Worker.Messages.{
  WorkerMessage, batch_message, batch_request, PrimaryWorkerMessage, synchronize, cleanup,
  batch_silent, WorkerBincode,
}
use bullshark_ubuntu.Worker.BatchMaker.{BatchMaker, dispatch_silent}

-- A message on the channel to the processor of others' batches, or to the helper.
pub data Delivery : Type 0 where
  to_processor : Bytes → Delivery
  to_helper : List Digest → PublicKey → Delivery

-- `WorkerReceiverHandler::dispatch`: a batch stays serialized; what does not parse is dropped.
abbrev pub deliver : Bytes → Option WorkerMessage → Option Delivery
deliver serialized none = none
deliver serialized (some (batch_message batch)) = some (to_processor serialized)
deliver serialized (some (batch_request missing requestor)) = some (to_helper missing requestor)

unfoldable pub dispatch_worker : WorkerBincode → Bytes → Option Delivery
dispatch_worker bincode serialized = deliver serialized (bincode.deserialize serialized)

-- `PrimaryReceiverHandler::dispatch`: the state of the batch maker, and the command for the
-- synchronizer, if any.
abbrev pub obey :
    Option PrimaryWorkerMessage → BatchMaker → BatchMaker × Option PrimaryWorkerMessage
obey none s = (s, none)
obey (some (batch_silent round silent)) s = (dispatch_silent round silent s, none)
obey (some (synchronize digests target)) s = (s, some (synchronize digests target))
obey (some (cleanup round)) s = (s, some (cleanup round))

unfoldable pub dispatch_primary :
    WorkerBincode → Bytes → BatchMaker → BatchMaker × Option PrimaryWorkerMessage
dispatch_primary bincode serialized s = obey (bincode.deserialize_command serialized) s
