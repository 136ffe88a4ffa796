-- ===== src/Messages/Vote.antt =====
-- `Vote` of primary/src/messages.rs.
use bullshark_ubuntu.Base.{ℕ, ltb, List, ◌++◌, le_bytes, be_bytes}
use bullshark_ubuntu.Config.{Committee, PublicKey, stake}
use bullshark_ubuntu.Crypto.{Digest, Signature, Dalek}
use bullshark_ubuntu.Error.{DagResult, unknown_authority, ensure, ◌>>◌}
use bullshark_ubuntu.Messages.Header.{Header, Round, check_signature}

pub record Vote : Type 0 where
  pub id : Digest
  pub round : Round
  pub origin : PublicKey
  pub author : PublicKey
  pub signature : Signature

-- The bytes that a vote feeds to the hasher, and a certificate too.
unfoldable pub hashed_bytes : Digest → Round → PublicKey → List ℕ
unfolding le_bytes be_bytes
hashed_bytes id round origin = be_bytes 32 id ++ (le_bytes 8 round ++ be_bytes 32 origin)

unfoldable pub digest : Dalek → Vote → Digest
digest d v = d.sha512 (hashed_bytes v.id v.round v.origin)

unfoldable pub new : Dalek → Header → PublicKey → Vote
new d header author = record {
  id = header.id;
  round = header.round;
  origin = header.author;
  author = author;
  signature = d.sign (d.sha512 (hashed_bytes header.id header.round header.author));
}

unfoldable pub verify : Dalek → Committee → Vote → DagResult (Unit {0})
verify d c v = do
  ensure (ltb 0 (stake c v.author)) (unknown_authority v.author)
  check_signature d v.signature (digest d v) v.author
