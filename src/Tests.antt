-- ===== src/Tests.antt =====
-- The committees, certificates and the stand-in for the cryptography of the tests.
mod Committees
mod Certificates
mod Commits
mod Cores
mod Storages
mod Workers
mod Primaries
mod Causals
mod Encodings
mod Prunes
use bullshark_ubuntu.Base.{
  ℕ, ◌+◌, ◌*◌, true, false, Option, none, some, List, [], ◌∷◌, ◌++◌, map, sum,
}
use bullshark_ubuntu.Config.{Committee, Authority, PublicKey}
use bullshark_ubuntu.Crypto.{Dalek, Digest}
use bullshark_ubuntu.Messages.Header.{Round}
use bullshark_ubuntu.Messages.Certificate.{Certificate, round, origin}
use bullshark_ubuntu.Consensus.State.{Consensus, State}

abbrev pub nobody : Authority
nobody = record {
  stake = 1;
  primary = record { primary_to_primary = 0; worker_to_primary = 0 };
  workers = [];
}

abbrev pub four : Committee
four = record { authorities = (1, nobody) ∷ (2, nobody) ∷ (3, nobody) ∷ (4, nobody) ∷ [] }

abbrev pub toy : Dalek
toy = record {
  sha512 = λ bs. sum bs;
  sign = λ d. d;
  verify_strict = λ d s k. true;
  verify_batch = λ ds ss ks. true;
}

abbrev pub engine : Consensus
engine = record { committee = four; gc_depth = 50; dynamic = false; dalek = toy }

-- Digests are 10 times the round plus the author, through the header id.
abbrev pub cert : Round → PublicKey → List Digest → Certificate
cert r n parents = record {
  header = record {
    author = n;
    round = r;
    payload = [];
    parents = parents;
    id = 9 * r;
    signature = 0;
  };
  votes = [];
}

abbrev pub slots_of : Option (State × List Certificate) → Option (List (Round × PublicKey))
slots_of none = none
slots_of (some (s, out)) = some (map (λ x. (round x, origin x)) out)

abbrev pub all_of : Round → List Digest → List Certificate
all_of r parents = cert r 1 parents ∷ cert r 2 parents ∷ cert r 3 parents ∷ cert r 4 parents ∷ []

abbrev pub parents_of : Round → List Digest
parents_of r = (10 * r + 1) ∷ (10 * r + 2) ∷ (10 * r + 3) ∷ (10 * r + 4) ∷ []

abbrev pub one_commit : List Certificate
one_commit =
    all_of 1 (parents_of 0)
    ++ (all_of 2 (parents_of 1) ++ (cert 3 1 (parents_of 2) ∷ cert 3 2 (parents_of 2) ∷ []))
