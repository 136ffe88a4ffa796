-- ===== src/Core/Synchronizer.antt =====
-- `Synchronizer` of primary/src/synchronizer.rs: have we the payload and the parents of a header?
use bullshark_ubuntu.Base.{
  ◌==◌, if◌then◌else◌, is_empty, Bool, true, false, List, [], ◌∷◌, ◌++◌, map, lookup, any, ok_or,
}
use bullshark_ubuntu.Config.{WorkerId}
use bullshark_ubuntu.Crypto.{Digest}
use bullshark_ubuntu.Error.{serialization_error}
use bullshark_ubuntu.Messages.Header.{Header}
use bullshark_ubuntu.Messages.Certificate
use bullshark_ubuntu.Messages.Certificate.{Certificate, genesis}
use bullshark_ubuntu.Core.State.{
  Node, Action, ◌>>=◌, ◌>>◌, pure, lift, emit, read, map_or_else, digest_key, batch_key,
  sync_batches, sync_parents, to_header_waiter, to_certificate_waiter,
}

module _ (n : Node) where
  -- The genesis and its digests.
  unfoldable pub genesis_digests : List (Digest × Certificate)
  genesis_digests = map (λ x. (Certificate.digest n.dalek x, x)) (genesis n.committee)

  -- The entries of the payload that the storage has not.
  unfoldable pub missing_batches : List (Digest × WorkerId) → Action (List (Digest × WorkerId))
  missing_batches [] = pure []
  missing_batches ((digest, id) ∷ rest) = do
    found ← read n (batch_key digest id)
    missing ← missing_batches rest
    map_or_else (pure ((digest, id) ∷ missing)) (λ _. pure missing) found

  unfoldable pub missing_payload : Header → Action Bool
  unfolding missing_batches
  missing_payload header = if header.author == n.name then pure false else do
    missing ← missing_batches header.payload
    if is_empty missing
        then pure false
        else do emit (to_header_waiter (sync_batches missing header)); pure true

  -- The missing parents and the parents, in the order of the digests.
  unfoldable pub collect :
      List Digest → List Digest → List Certificate → Action (List Digest × List Certificate)
  unfolding genesis_digests
  collect [] missing parents = pure (missing, parents)
  collect (digest ∷ rest) missing parents =
      map_or_else
        (do
          found ← read n (digest_key digest)
          map_or_else (collect rest (missing ++ digest ∷ []) parents)
              (λ bytes. do
                x ← lift (ok_or (n.bincode.deserialize_certificate bytes) serialization_error)
                collect rest missing (parents ++ x ∷ []))
              found)
        (λ x. collect rest missing (parents ++ x ∷ [])) (lookup digest genesis_digests)

  unfoldable pub get_parents : Header → Action (List Certificate)
  unfolding collect
  get_parents header = do
    found ← collect header.parents [] []
    if is_empty found.0
        then pure found.1
        else do emit (to_header_waiter (sync_parents found.0 header)); pure []

  unfoldable pub deliver : Certificate → List Digest → Action Bool
  unfolding genesis_digests
  deliver certificate [] = pure true
  deliver certificate (digest ∷ rest) =
      if any (λ e. e.0 == digest) genesis_digests then deliver certificate rest else do
        found ← read n (digest_key digest)
        map_or_else (do emit (to_certificate_waiter certificate); pure false)
            (λ _. deliver certificate rest) found

  unfoldable pub deliver_certificate : Certificate → Action Bool
  unfolding deliver
  deliver_certificate certificate = deliver certificate certificate.header.parents
