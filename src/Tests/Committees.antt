-- ===== src/Tests/Committees.antt =====
-- Quorums and leaders of config/src/lib.rs, and the votes that a proposer counts, on a committee of four.
use bullshark_ubuntu.Base.{
  not, is_empty, leb, ◌&&◌, ℕ, ◌+◌, ◌*◌, ◌≤◌, ◌<◌, ◌≡◌, refl, Bool, true, false, Option, none, some,
  List, [], ◌∷◌, keys, contains, arith,
}
use bullshark_ubuntu.Config.{PublicKey, size, stake, leader, quorum_threshold, validity_threshold}
use bullshark_ubuntu.Config.Quorum.{total, weight, common, quorum_intersection, quorum_available}
use bullshark_ubuntu.Config.Leader.{leader_round_robin}
use bullshark_ubuntu.Messages.Certificate.{genesis}
use bullshark_ubuntu.Proposer.{
  Settings, Proposer, Event, from_core, from_workers, from_timer, enough_votes, run,
}
use bullshark_ubuntu.Adversary
use bullshark_ubuntu.Proposer.Digests.{carried, digests_carried}
use bullshark_ubuntu.Proposer.Rounds.{Ascends, header_rounds, headers_rise}
use bullshark_ubuntu.Proposer.Votes.{enough_votes_complete}
use bullshark_ubuntu.Worker.QuorumWaiter.{wait, acknowledged, wait_lem}
use bullshark_ubuntu.Tests.{four, toy, cert, all_of, parents_of}

quorum_intersection_example :
    validity_threshold four ≤ weight four (common (1 ∷ 2 ∷ 3 ∷ []) (2 ∷ 3 ∷ 4 ∷ []))
unfolding quorum_threshold weight stake
quorum_intersection_example =
    quorum_intersection four (1 ∷ 2 ∷ 3 ∷ []) (2 ∷ 3 ∷ 4 ∷ []) (omega arith)
      (refl, (refl, (refl, tt))) (refl, (refl, (refl, tt))) (omega arith) (omega arith)

quorum_available_example :
    (quorum_threshold four + 1 ≤ total four) × (validity_threshold four + 1 ≤ quorum_threshold four)
unfolding validity_threshold
quorum_available_example = quorum_available four 1 (omega arith) (omega arith)

leader_round_robin_example :
    ((seed : ℕ)
      → (name : PublicKey) × (leader four seed ≡ some name)
        × (contains name (keys four.authorities) ≡ true))
    × ((name : PublicKey)
        → contains name (keys four.authorities) ≡ true
        → (seed : ℕ) × (seed < size four)
          × ((turn : ℕ) → leader four (seed + turn * size four) ≡ some name))
unfolding size
leader_round_robin_example = leader_round_robin four (omega arith)

abbrev settings : Settings
settings = record {
  name = 1;
  committee = four;
  adversary_faults = 0;
  adversary_seed = 0;
  pause_batches_during_silence = true;
  worker_addresses = [];
  header_size = 1000;
  dalek = toy;
}

-- In round 3 with four parents, of which two refer to the leader of round 2.
abbrev waiting : Proposer
waiting = record {
  silence_round = 3;
  silent = false;
  round = 3;
  last_parents =
      cert 3 1 (23 ∷ []) ∷ cert 3 2 (23 ∷ []) ∷ cert 3 3 (21 ∷ []) ∷ cert 3 4 (22 ∷ []) ∷ [];
  last_leader = some (cert 2 3 []);
  digests = [];
  payload_size = 0;
  advance = false;
  effects = [];
}

enough_votes_complete_example : enough_votes settings waiting ≡ true
unfolding stake quorum_threshold validity_threshold
enough_votes_complete_example = enough_votes_complete settings waiting (omega arith) (omega arith)

-- Three workers acknowledge; two are enough.
abbrev acknowledging : List PublicKey
acknowledging = 2 ∷ 3 ∷ 4 ∷ []

wait_lem_example : wait four 1 acknowledging ≡ (
    not (is_empty acknowledging)
    && leb (quorum_threshold four) (1 + acknowledged four acknowledging))
unfolding stake
wait_lem_example = wait_lem four 1 acknowledging (omega arith)

-- The core brings parents of round 0, the timer expires, and the core brings those of round 1.
abbrev brought : List (Bool × Event settings)
brought =
    (true, from_core (genesis four) 0)
    ∷ (true, from_workers 5 0)
    ∷ (true, from_core (all_of 1 (parents_of 0)) 1)
    ∷ (true, from_timer)
    ∷ []

abbrev proposer_after : Option Proposer → Proposer
proposer_after none = waiting
proposer_after (some p) = p

headers_rise_example :
    Ascends 0
      (header_rounds (proposer_after (run settings brought)).effects)
      (proposer_after (run settings brought)).round
unfolding run leader genesis Adversary.selected
headers_rise_example =
    headers_rise settings brought 1 (proposer_after (run settings brought)) (omega arith)
      (omega arith, (omega arith, (omega arith, (omega arith, tt)))) refl

digests_carried_example : carried 5 (proposer_after (run settings brought)) ≡ true
unfolding run leader genesis Adversary.selected
digests_carried_example =
    digests_carried settings 5 brought (proposer_after (run settings brought)) refl refl
