-- ===== src/Core/Helper.antt =====
-- primary/src/helper.rs: the certificates that another primary asks for. `none` is a panic.
use bullshark_ubuntu.Base.{Option, none, some, List, [], ◌∷◌, map, ok, err}
use bullshark_ubuntu.Config.{PublicKey, SocketAddr, primary}
use bullshark_ubuntu.Crypto.{Digest}
use bullshark_ubuntu.Messages.Certificate.{Certificate}
use bullshark_ubuntu.Core.State.{Node, Store, digest_key}

module _ (n : Node) where
  -- What the storage has under the digests; a failed read is logged.
  unfoldable pub replies : Store → List Digest → Option (List Certificate)
  replies store [] = some []
  replies store (digest ∷ digests) = elim (n.rocks.get store (digest_key digest)) [
    | err _ ↦ replies store digests
    | ok none ↦ replies store digests
    | ok (some bytes) ↦ elim (n.bincode.deserialize_certificate bytes) [
      | none ↦ none
      | some certificate ↦ elim (replies store digests) [
        | none ↦ none
        | some rest ↦ some (certificate ∷ rest)
      ]
    ]
  ]

  -- The certificates to send and where; nothing for an unknown requestor.
  unfoldable pub answer : Store → List Digest → PublicKey → Option (List (SocketAddr × Certificate))
  unfolding replies
  answer store digests origin = elim (primary n.committee origin) [
    | err _ ↦ some []
    | ok addresses ↦ elim (replies store digests) [
      | none ↦ none
      | some certificates ↦ some (map (λ x. (addresses.primary_to_primary, x)) certificates)
    ]
  ]
