-- ===== src/Messages/Certificate.antt =====
-- `Certificate` of primary/src/messages.rs.
use bullshark_ubuntu.Base.{
  ◌==◌, ◌&&◌, ltb, leb, if◌then◌else◌, Bool, List, [], ◌∷◌, map, keys, any, contains, ok, err,
  add_u32,
}
use bullshark_ubuntu.Config.{Committee, PublicKey, Stake, stake, quorum_threshold}
use bullshark_ubuntu.Crypto.{Digest, Signature, Dalek}
use bullshark_ubuntu.Error.{
  DagResult, authority_reuse, unknown_authority, certificate_requires_quorum, invalid_signature,
  ensure, ◌>>=◌, ◌>>◌,
}
use bullshark_ubuntu.Messages.Header
use bullshark_ubuntu.Messages.Header.{Header, Round}
use bullshark_ubuntu.Messages.Vote

pub record Certificate : Type 0 where
  pub header : Header
  pub votes : List (PublicKey × Signature)

abbrev pub round : Certificate → Round
round c = c.header.round

abbrev pub origin : Certificate → PublicKey
origin c = c.header.author

unfoldable pub digest : Dalek → Certificate → Digest
unfolding Vote.hashed_bytes
digest d c = d.sha512 (Vote.hashed_bytes c.header.id (round c) (origin c))

-- `PartialEq`
unfoldable pub eq : Certificate → Certificate → Bool
eq c d = c.header.id == d.header.id && (round c == round d && origin c == origin d)

unfoldable pub genesis : Committee → List Certificate
genesis committee =
    map (λ name. record { header = record Header.default { author = name }; votes = [] })
      (keys committee.authorities)

-- The weight of the votes, each by an authority with stake that did not vote before.
unfoldable pub check_votes :
    Committee → List (PublicKey × Signature) → Stake → List PublicKey → DagResult Stake
check_votes c [] weight used = ok weight
check_votes c ((name, _) ∷ votes) weight used =
    if contains name used
    then err (authority_reuse name)
    else if ltb 0 (stake c name)
    then check_votes c votes (add_u32 weight (stake c name)) (name ∷ used)
    else err (unknown_authority name)

-- `Signature::verify_batch`
unfoldable pub verify_batch : Dalek → Digest → List (PublicKey × Signature) → Bool
verify_batch d digest votes =
    d.verify_batch (map (λ _. digest) votes) (map (λ v. v.1) votes) (keys votes)

unfoldable pub verify : Dalek → Committee → Certificate → DagResult (Unit {0})
unfolding eq genesis check_votes verify_batch
verify d committee c = if any (λ g. eq g c) (genesis committee) then ok tt else do
  Header.verify d committee c.header
  weight ← check_votes committee c.votes 0 []
  ensure (leb (quorum_threshold committee) weight) certificate_requires_quorum
  ensure (verify_batch d (digest d c) c.votes) invalid_signature
