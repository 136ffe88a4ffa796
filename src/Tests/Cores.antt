-- ===== src/Tests/Cores.antt =====
-- A run of the core of primary/src/core.rs: two headers of one author in one round, one vote.
use bullshark_ubuntu.Base.{◌≤◌, ◌≡◌, ◌≢◌, refl, none, List, [], ◌∷◌, ok, arith}
use bullshark_ubuntu.Config.{stake, quorum_threshold, primary}
use bullshark_ubuntu.Messages.Header.{Header, Round}
use bullshark_ubuntu.Messages.Header
use bullshark_ubuntu.Messages.Certificate
use bullshark_ubuntu.Messages.Vote
use bullshark_ubuntu.Core.State.{
  Node, Core, Outcome, returns, panics, out_of_fuel, ◌>>=◌, ◌>>◌, pure, lift, modify, gets, emit,
  expect, read, write, new, header_message,
}
use bullshark_ubuntu.Core.Synchronizer.{missing_payload, get_parents}
use bullshark_ubuntu.Core.Process.{process_header}
use bullshark_ubuntu.Core.Run.{Input, from_primary, run}
use bullshark_ubuntu.Core.Votes.{votes_sent}
use bullshark_ubuntu.Core.Votes.Run.{votes_once}
use bullshark_ubuntu.Core.Fuel.Run.{run_ends}
use bullshark_ubuntu.Tests.{four, toy}

abbrev node : Node
node = record {
  name = 4;
  committee = four;
  gc_depth = 50;
  dalek = toy;
  rocks = record { put = λ s k v. (k, v) ∷ s; get = λ s k. ok none };
  bincode = record {
    serialize_header = λ h. [];
    serialize_certificate = λ x. [];
    deserialize_certificate = λ b. none;
  };
}

-- The genesis digests of `toy` are the names. The id is 1 + 1 + 1 + 2 + 3, and with author 4 as a parent too 12.
abbrev header_of_one : Header
header_of_one = record {
  author = 1;
  round = 1;
  payload = [];
  parents = 1 ∷ 2 ∷ 3 ∷ [];
  id = 8;
  signature = 0;
}

abbrev another_header : Header
another_header = record {
  author = 1;
  round = 1;
  payload = [];
  parents = 1 ∷ 2 ∷ 3 ∷ 4 ∷ [];
  id = 12;
  signature = 0;
}

abbrev two_headers : List (Round × Input node)
two_headers =
    (0, from_primary (header_message header_of_one))
    ∷ (0, from_primary (header_message another_header))
    ∷ []

abbrev final : Outcome (Unit {0}) → Core
final (returns s result) = s
final panics = new []
final out_of_fuel = new []

votes_once_example : votes_sent 1 1 (final (run node 2 two_headers (new []))).effects ≤ 1
unfolding run Header.verify Certificate.digest Certificate.genesis stake quorum_threshold primary
    get_parents missing_payload Vote.new pure ◌>>=◌ ◌>>◌ lift modify gets emit expect read write
    Header.digest Header.hashed_bytes process_header
votes_once_example =
    votes_once node 1 1 2 [] two_headers (final (run node 2 two_headers (new []))) (ok tt)
      (omega arith, (omega arith, tt)) refl

-- One vote is sent.
one_vote : votes_sent 1 1 (final (run node 2 two_headers (new []))).effects ≡ 1
unfolding run Header.verify Certificate.digest Certificate.genesis stake quorum_threshold primary
    get_parents missing_payload Vote.new pure ◌>>=◌ ◌>>◌ lift modify gets emit expect read write
    Header.digest Header.hashed_bytes process_header
one_vote = refl

run_ends_example : run node 2 two_headers (new []) ≢ out_of_fuel
run_ends_example = run_ends node 0 two_headers (new [])
