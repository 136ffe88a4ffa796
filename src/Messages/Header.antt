-- ===== src/Messages/Header.antt =====
-- `Header` of primary/src/messages.rs.
use bullshark_ubuntu.Base.{ℕ, ◌==◌, ltb, List, [], ◌∷◌, ◌++◌, ok, err, le_bytes, be_bytes}
use bullshark_ubuntu.Config.{Committee, PublicKey, WorkerId, stake, worker}
use bullshark_ubuntu.Crypto.{Digest, Signature, Dalek}
use bullshark_ubuntu.Error.{
  DagResult, invalid_signature, invalid_header_id, malformed_header, unknown_authority, ensure,
  ◌>>◌,
}

abbrev pub Round : Type 0
Round = ℕ

-- The payload and the parents are in the order of a `BTreeMap` and a `BTreeSet`.
pub record Header : Type 0 where
  pub author : PublicKey
  pub round : Round
  pub payload : List (Digest × WorkerId)
  pub parents : List Digest
  pub id : Digest
  pub signature : Signature

abbrev pub default : Header
default = record { author = 0; round = 0; payload = []; parents = []; id = 0; signature = 0 }

payload_bytes : List (Digest × WorkerId) → List ℕ
payload_bytes [] = []
payload_bytes ((x, y) ∷ rest) = be_bytes 32 x ++ (le_bytes 4 y ++ payload_bytes rest)

parents_bytes : List Digest → List ℕ
parents_bytes [] = []
parents_bytes (x ∷ rest) = be_bytes 32 x ++ parents_bytes rest

-- All that `Hash for Header` feeds to the hasher, in order.
unfoldable pub hashed_bytes : Header → List ℕ
unfolding payload_bytes parents_bytes
hashed_bytes h =
    be_bytes 32 h.author
    ++ (le_bytes 8 h.round ++ (payload_bytes h.payload ++ parents_bytes h.parents))

unfoldable pub digest : Dalek → Header → Digest
digest d h = d.sha512 (hashed_bytes h)

-- `Header::new`, with the signature service of the node.
unfoldable pub new : Dalek → PublicKey → Round → List (Digest × WorkerId) → List Digest → Header
new d author round payload parents = record header { id = id; signature = d.sign id }
  where
    header : Header
    header = record {
      author = author;
      round = round;
      payload = payload;
      parents = parents;
      id = 0;
      signature = 0;
    }

    id : Digest
    id = digest d header

-- Every worker id of the payload belongs to the author.
check_workers : Committee → Header → List (Digest × WorkerId) → DagResult (Unit {0})
check_workers c h [] = ok tt
check_workers c h ((_, id) ∷ rest) = elim (worker c h.author id) [
  | ok _ ↦ check_workers c h rest
  | err _ ↦ err (malformed_header h.id)
]

-- `Signature::verify`
abbrev pub check_signature : Dalek → Signature → Digest → PublicKey → DagResult (Unit {0})
check_signature d s digest key = ensure (d.verify_strict digest s key) invalid_signature

unfoldable pub verify : Dalek → Committee → Header → DagResult (Unit {0})
unfolding check_workers
verify d c h = do
  ensure (digest d h == h.id) invalid_header_id
  ensure (ltb 0 (stake c h.author)) (unknown_authority h.author)
  check_workers c h h.payload
  check_signature d h.signature h.id h.author
