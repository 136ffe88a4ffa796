-- ===== src/Worker/Processor.antt =====
-- worker/src/processor.rs and worker/src/primary_connector.rs: a batch is stored under its digest,
-- and the digest is reported to the primary.
use bullshark_ubuntu.Base.{if◌then◌else◌, Bool}
use bullshark_ubuntu.Config.{WorkerId, SocketAddr}
use bullshark_ubuntu.Crypto.{Digest, Dalek}
use bullshark_ubuntu.Core.State.{Bytes, Store, Rocks, digest_key}
use bullshark_ubuntu.Worker.Messages.{WorkerPrimaryMessage, our_batch, others_batch, WorkerBincode}

-- The digest of a serialized batch.
abbrev pub batch_digest : Dalek → Bytes → Digest
batch_digest dalek batch = dalek.sha512 batch

-- The message for the primary, by whose batches they are.
abbrev pub report : Bool → Digest → WorkerId → WorkerPrimaryMessage
report own_digest digest id = if own_digest then our_batch digest id else others_batch digest id

-- The storage and the serialized report after one batch.
unfoldable pub process :
    WorkerBincode → Dalek → Rocks → WorkerId → Bool → Bytes → Store → Store × Bytes
process bincode dalek rocks id own_digest batch store =
    let digest = batch_digest dalek batch in
    (
      rocks.put store (digest_key digest) batch,
      bincode.serialize_report (report own_digest digest id),
    )

-- `PrimaryConnector::run`, for one report: where it is sent.
unfoldable pub connect : SocketAddr → Bytes → SocketAddr × Bytes
connect primary_address digest = (primary_address, digest)
