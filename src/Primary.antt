-- ===== src/Primary.antt =====
-- What primary/src/primary.rs does with a message from the network, and the two tasks that wait for
-- batches and certificates of others: primary/src/payload_receiver.rs and certificate_waiter.rs.
pub mod Available
pub mod Answered
pub mod Delivery
pub mod Released
use bullshark_ubuntu.Base.{
  ℕ, suc, ◌==◌, if◌then◌else◌, Bool, true, false, Option, none, some, List, [], ◌∷◌, ◌++◌, map,
  Result, ok, err,
}
use bullshark_ubuntu.Config.{PublicKey, WorkerId}
use bullshark_ubuntu.Crypto.{Digest}
use bullshark_ubuntu.Error.{DagResult, serialization_error}
use bullshark_ubuntu.Messages.Certificate.{Certificate}
use bullshark_ubuntu.Core.State.{
  Bytes, Store, Rocks, PrimaryMessage, header_message, vote_message, certificate_message,
  certificates_request, digest_key, batch_key,
}
use bullshark_ubuntu.Store.{Sender, Reply, to_read, to_notify_read}
use bullshark_ubuntu.Worker.Messages.{WorkerPrimaryMessage, our_batch, others_batch}

-- What the two handlers call of bincode.
pub record PrimaryBincode : Type 0 where
  pub deserialize_message : Bytes → Option PrimaryMessage
  pub deserialize_report : Bytes → Option WorkerPrimaryMessage

-- The channel that a message goes to.
pub data Route : Type 0 where
  to_core : PrimaryMessage → Route
  to_helper : List Digest → PublicKey → Route
  to_proposer : Digest → WorkerId → Route
  to_payload_receiver : Digest → WorkerId → Route

-- `PrimaryReceiverHandler::dispatch`; an error ends the connection.
abbrev pub route_message : Option PrimaryMessage → DagResult Route
route_message none = err serialization_error
route_message (some (certificates_request missing requestor)) = ok (to_helper missing requestor)
route_message (some (header_message header)) = ok (to_core (header_message header))
route_message (some (vote_message vote)) = ok (to_core (vote_message vote))
route_message (some (certificate_message certificate)) =
    ok (to_core (certificate_message certificate))

unfoldable pub dispatch_primary : PrimaryBincode → Bytes → DagResult Route
dispatch_primary bincode serialized = route_message (bincode.deserialize_message serialized)

-- `WorkerReceiverHandler::dispatch`.
abbrev pub route_report : Option WorkerPrimaryMessage → DagResult Route
route_report none = err serialization_error
route_report (some (our_batch digest id)) = ok (to_proposer digest id)
route_report (some (others_batch digest id)) = ok (to_payload_receiver digest id)

unfoldable pub dispatch_worker : PrimaryBincode → Bytes → DagResult Route
dispatch_worker bincode serialized = route_report (bincode.deserialize_report serialized)

-- `PayloadReceiver::run`, for one digest: an empty value under the digest and the worker's id.
unfoldable pub receive_payload : Rocks → Digest → WorkerId → Store → Store
receive_payload rocks digest id store = rocks.put store (batch_key digest id) []

-- `CertificateWaiter`: the `notify_read`s of each future, by key and one-shot channel, and the
-- certificate that it returns. The channels are numbered as they are made.
abbrev pub Waiting : Type 0
Waiting = List (List (Bytes × Sender) × Certificate)

unfoldable pub notify_reads : Sender → List Bytes → List (Bytes × Sender)
notify_reads next [] = []
notify_reads next (key ∷ keys) = (key, next) ∷ notify_reads (suc next) keys

unfoldable pub suspend : Sender → Certificate → Waiting → Waiting
unfolding notify_reads
suspend next certificate waiting =
    (notify_reads next (map digest_key certificate.header.parents), certificate) ∷ waiting

-- What the store answered on a one-shot channel.
abbrev pub reply_to : Sender → List Reply → Option (Result ℕ Bytes)
reply_to s [] = none
reply_to s (to_read t r ∷ replies) = reply_to s replies
reply_to s (to_notify_read t r ∷ replies) = if t == s then some r else reply_to s replies

-- Whether all `notify_read`s of a future have been answered; an error stops it.
abbrev pub join : Option (Result ℕ Bytes) → Result ℕ Bool → Result ℕ Bool
join (some (err e)) later = err e
join (some (ok value)) later = later
join none (err e) = err e
join none (ok done) = ok false

unfoldable pub joined : List Reply → List (Bytes × Sender) → Result ℕ Bool
joined replies [] = ok true
joined replies ((key, s) ∷ rest) = join (reply_to s replies) (joined replies rest)

-- One future, the others, and what comes of these if the one is not done.
abbrev pub Polled : Type 0
Polled = Result ℕ (Option Certificate × Waiting)

abbrev pub held : List (Bytes × Sender) × Certificate → Polled → Polled
held future (err e) = err e
held future (ok (released, rest)) = ok (released, future ∷ rest)

abbrev pub poll : List (Bytes × Sender) × Certificate → Waiting → Polled → Result ℕ Bool → Polled
poll future waiting later (err e) = err e
poll future waiting later (ok true) = ok (some future.1, waiting)
poll future waiting later (ok false) = held future later

-- The newest future that is done, with the others: the order of several is arbitrary. `err` is the
-- panic on a storage failure.
unfoldable pub release : List Reply → Waiting → Polled
unfolding joined
release replies [] = ok (none, [])
release replies ((keys, certificate) ∷ waiting) =
    poll (keys, certificate) waiting (release replies waiting) (joined replies keys)
