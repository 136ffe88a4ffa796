-- ===== src/Aggregators.antt =====
-- primary/src/aggregators.rs: votes into a certificate, certificates into the parents of a round.
-- A method returns the aggregator after the call and the result of the call.
pub mod Votes
pub mod Certificates
use bullshark_ubuntu.Base.{
  ℕ, leb, if◌then◌else◌, Bool, true, false, Option, none, some, List, [], ◌∷◌, ◌++◌, contains, ok,
  err, add_u32,
}
use bullshark_ubuntu.Config.{Committee, PublicKey, Stake, stake, quorum_threshold}
use bullshark_ubuntu.Crypto.{Signature}
use bullshark_ubuntu.Error.{DagResult, authority_reuse}
use bullshark_ubuntu.Messages.Header.{Header}
use bullshark_ubuntu.Messages.Vote.{Vote}
use bullshark_ubuntu.Messages.Certificate.{Certificate, origin}

pub record VotesAggregator : Type 0 where
  pub weight : Stake
  pub votes : List (PublicKey × Signature)
  pub used : List PublicKey

abbrev pub new_votes : VotesAggregator
new_votes = record { weight = 0; votes = []; used = [] }

unfoldable pub append_vote :
    VotesAggregator → Vote → Committee → Header → VotesAggregator × DagResult (Option Certificate)
append_vote a vote committee header =
    if contains vote.author a.used
    then (a, err (authority_reuse vote.author))
    else if leb (quorum_threshold committee) weight
    then (
      record { weight = 0; votes = votes; used = used },
      ok (some (record { header = header; votes = votes })),
    )
    else (record { weight = weight; votes = votes; used = used }, ok none)
  where
    used : List PublicKey
    used = vote.author ∷ a.used

    votes : List (PublicKey × Signature)
    votes = a.votes ++ (vote.author, vote.signature) ∷ []

    weight : Stake
    weight = add_u32 a.weight (stake committee vote.author)

pub record CertificatesAggregator : Type 0 where
  pub weight : Stake
  pub certificates : List Certificate
  pub used : List PublicKey

abbrev pub new_certificates : CertificatesAggregator
new_certificates = record { weight = 0; certificates = []; used = [] }

-- The weight is kept after a quorum, so that every later certificate is handed out at once.
unfoldable pub append_certificate :
    CertificatesAggregator
    → Certificate
    → Committee
    → CertificatesAggregator × DagResult (Option (List Certificate))
append_certificate a certificate committee =
    if contains (origin certificate) a.used
    then (a, ok none)
    else if leb (quorum_threshold committee) weight
    then (record { weight = weight; certificates = []; used = used }, ok (some certificates))
    else (record { weight = weight; certificates = certificates; used = used }, ok none)
  where
    used : List PublicKey
    used = origin certificate ∷ a.used

    certificates : List Certificate
    certificates = a.certificates ++ certificate ∷ []

    weight : Stake
    weight = add_u32 a.weight (stake committee (origin certificate))
