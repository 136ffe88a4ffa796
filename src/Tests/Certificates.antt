-- ===== src/Tests/Certificates.antt =====
-- Votes and certificates of primary/src/messages.rs and primary/src/aggregators.rs on a committee of four.
use bullshark_ubuntu.Base.{
  ◌<◌, ◌≡◌, refl, ◌⊎◌, not, leb, true, if◌then◌else◌, List, [], ◌∷◌, map, keys, any, contains,
  length, retain, Distinct, All, ok, be_bytes, arith,
}
use bullshark_ubuntu.Config.{PublicKey, stake, quorum_threshold, validity_threshold}
use bullshark_ubuntu.Config.Quorum.{weight}
use bullshark_ubuntu.Messages.Header.{Header, hashed_bytes}
use bullshark_ubuntu.Messages.Header
use bullshark_ubuntu.Messages.Vote.{Vote}
use bullshark_ubuntu.Messages.Certificate
use bullshark_ubuntu.Messages.Certificate.{Certificate, eq, genesis, check_votes, origin}
use bullshark_ubuntu.Messages.Quorum.{
  HasQuorum, voters, verify-HasQuorum, honest_voter, certificates_agree,
}
use bullshark_ubuntu.Aggregators.{new_votes, new_certificates}
use bullshark_ubuntu.Aggregators.Votes.{append_votes, IsQuorumFor, one_certificate}
use bullshark_ubuntu.Aggregators.Certificates.{append_certificates, firsts, parents_of_quorum}
use bullshark_ubuntu.Tests.{four, toy, cert}

-- The bytes of the header sum to its id: 1 + 2 + 5 + 6 + 7.
abbrev header_of_two : Header
header_of_two = record {
  author = 1;
  round = 2;
  payload = [];
  parents = 5 ∷ 6 ∷ 7 ∷ [];
  id = 21;
  signature = 0;
}

abbrev one_quorum : Certificate
one_quorum = record { header = header_of_two; votes = (1, 0) ∷ (2, 0) ∷ (3, 0) ∷ [] }

abbrev other_quorum : Certificate
other_quorum = record { header = header_of_two; votes = (4, 0) ∷ (2, 0) ∷ (3, 0) ∷ [] }

one_quorum-ok : Certificate.verify toy four one_quorum ≡ ok tt
unfolding Certificate.verify Header.verify stake quorum_threshold Header.digest hashed_bytes
    be_bytes
one_quorum-ok = refl

other_quorum-ok : Certificate.verify toy four other_quorum ≡ ok tt
unfolding Certificate.verify Header.verify stake quorum_threshold Header.digest hashed_bytes
    be_bytes
other_quorum-ok = refl

all_honest :
    (names : List PublicKey)
    → Distinct names
    → weight four (retain (λ n. not true) names) < validity_threshold four
unfolding weight validity_threshold
all_honest [] d = omega arith
all_honest (n ∷ names) d = all_honest names d.1

quorum_of_one : HasQuorum toy four one_quorum
unfolding Header.verify stake quorum_threshold weight Certificate.verify Header.digest hashed_bytes
    be_bytes
quorum_of_one = record {
  header_ok = refl;
  distinct = (refl, (refl, (refl, tt)));
  enough = omega arith;
  signed = refl;
}

quorum_of_other : HasQuorum toy four other_quorum
unfolding Header.verify stake quorum_threshold weight Certificate.verify Header.digest hashed_bytes
    be_bytes
quorum_of_other = record {
  header_ok = refl;
  distinct = (refl, (refl, (refl, tt)));
  enough = omega arith;
  signed = refl;
}

verify-HasQuorum_example :
    (any (λ g. eq g one_quorum) (genesis four) ≡ true) ⊎ HasQuorum toy four one_quorum
verify-HasQuorum_example = verify-HasQuorum toy four one_quorum (omega arith) one_quorum-ok

honest_voter_example :
    (n : PublicKey) × (true ≡ true)
    × (contains n (voters one_quorum) ≡ true)
    × (contains n (voters other_quorum) ≡ true)
honest_voter_example =
    honest_voter toy four (λ n. true) one_quorum other_quorum (omega arith) all_honest quorum_of_one
      quorum_of_other

certificates_agree_example : eq one_quorum other_quorum ≡ true
unfolding eq genesis
certificates_agree_example =
    certificates_agree toy four (λ n. true) one_quorum other_quorum (omega arith) all_honest
      (λ n h a b p q. refl) one_quorum-ok other_quorum-ok refl refl refl refl

abbrev vote_by : PublicKey → Vote
vote_by name = record { id = 21; round = 2; origin = 1; author = name; signature = 0 }

-- Author 2 votes twice, and author 4 after the quorum.
abbrev some_votes : List Vote
some_votes = vote_by 1 ∷ vote_by 2 ∷ vote_by 2 ∷ vote_by 3 ∷ vote_by 4 ∷ []

one_certificate_example :
    let (b, certs) = append_votes four header_of_two new_votes some_votes in
    Distinct (keys b.votes)
    × ((k : PublicKey) → contains k (keys b.votes) ≡ contains k (1 ∷ 2 ∷ 2 ∷ 3 ∷ 4 ∷ []))
    × (length certs ≡ (if leb (quorum_threshold four) (weight four (keys b.votes)) then 1 else 0))
    × All (IsQuorumFor four header_of_two) certs
one_certificate_example = one_certificate four (omega arith) header_of_two some_votes

abbrev some_certificates : List Certificate
some_certificates = cert 2 1 [] ∷ cert 2 2 [] ∷ cert 2 2 [] ∷ cert 2 3 [] ∷ cert 2 4 [] ∷ []

parents_of_quorum_example : (append_certificates four new_certificates some_certificates).1 ≡ (
    if leb (quorum_threshold four) (weight four (map origin (firsts [] some_certificates)))
    then firsts [] some_certificates
    else [])
parents_of_quorum_example = parents_of_quorum four (omega arith) some_certificates
