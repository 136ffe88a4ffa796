-- ===== src/Worker/Helper.antt =====
-- worker/src/helper.rs: the batches that another worker asks for.
use bullshark_ubuntu.Base.{none, some, List, [], ◌∷◌, ok, err}
use bullshark_ubuntu.Config.{Committee, PublicKey, WorkerId, SocketAddr, worker}
use bullshark_ubuntu.Crypto.{Digest}
use bullshark_ubuntu.Core.State.{Bytes, Store, Rocks, digest_key}

module _ (rocks : Rocks) where
  -- What the storage has under the digests; a failed read is logged.
  unfoldable pub replies : Store → SocketAddr → List Digest → List (SocketAddr × Bytes)
  replies store address [] = []
  replies store address (digest ∷ digests) = elim (rocks.get store (digest_key digest)) [
    | ok (some bytes) ↦ (address, bytes) ∷ replies store address digests
    | ok none ↦ replies store address digests
    | err _ ↦ replies store address digests
  ]

  -- Nothing for an origin without a worker of our id.
  unfoldable pub answer :
      Committee → WorkerId → Store → List Digest → PublicKey → List (SocketAddr × Bytes)
  unfolding replies
  answer committee id store digests origin = elim (worker committee origin id) [
    | err _ ↦ []
    | ok addresses ↦ replies store addresses.worker_to_worker digests
  ]
