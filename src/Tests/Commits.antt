-- ===== src/Tests/Commits.antt =====
-- Runs of consensus/src/lib.rs on a committee of four.
use bullshark_ubuntu.Base.{
  ◌+◌, ◌*◌, ◌<◌, ◌≡◌, refl, ◌&&◌, not, ltb, Bool, true, Option, none, some, List, [], ◌∷◌, ◌++◌,
  sort_by_key, arith, All, u64_mod,
}
use bullshark_ubuntu.Config
use bullshark_ubuntu.Config.{PublicKey, stake, quorum_threshold, validity_threshold}
use bullshark_ubuntu.Crypto.{Digest}
use bullshark_ubuntu.Messages.Header.{Round}
use bullshark_ubuntu.Messages.Certificate
use bullshark_ubuntu.Messages.Certificate.{Certificate, round, origin, genesis}
use bullshark_ubuntu.Consensus.State.{State, Dag, new, add_certificate, update}
use bullshark_ubuntu.Consensus.Leaders.{leader, linked, order_leaders}
use bullshark_ubuntu.Consensus.Run.{run}
use bullshark_ubuntu.Consensus.Order.{order_dag}
use bullshark_ubuntu.Consensus.Order.Termination.{order_dag_ends}
use bullshark_ubuntu.Consensus.Once.Slots.{has_slot, DistinctSlots}
use bullshark_ubuntu.Consensus.Once.Wf.{WfDag}
use bullshark_ubuntu.Consensus.Once.Run.{commits_once}
use bullshark_ubuntu.Consensus.Once.Visit.{Reached, order_dag-Reached}
use bullshark_ubuntu.Consensus.Once.Leaders.{InDag, Rising, order_leaders-Rising}
use bullshark_ubuntu.Consensus.Once.Parity.{OddRound, order_leaders-OddRound}
use bullshark_ubuntu.GarbageCollector
use bullshark_ubuntu.GarbageCollector.Rounds.{highest, Rises, highest_round_published}
use bullshark_ubuntu.Tests.{engine, toy, four, cert, slots_of, all_of, parents_of, one_commit}

-- The scenario of the test `commit_one`: the parents of the leader of round 2, then the leader.
commit_one :
    slots_of (run engine (new toy (genesis four)) one_commit)
    ≡ some ((1, 4) ∷ (1, 3) ∷ (1, 2) ∷ (1, 1) ∷ (2, 3) ∷ [])
unfolding run new genesis Certificate.digest add_certificate leader linked order_leaders order_dag
    update Config.leader stake validity_threshold quorum_threshold
commit_one = refl

distinct_slots : List Certificate → Bool
distinct_slots [] = true
distinct_slots (x ∷ xs) = not (has_slot (round x) (origin x) xs) && distinct_slots xs

distinct_slots_lem : (xs : List Certificate) → distinct_slots xs ≡ true → DistinctSlots xs
unfolding distinct_slots
distinct_slots_lem [] h = tt
distinct_slots_lem (x ∷ xs) h = ground (arith, distinct_slots_lem xs)

rounds_fit : List Certificate → Bool
rounds_fit [] = true
rounds_fit (x ∷ xs) = ltb 0 (round x) && ltb (round x) 100 && rounds_fit xs

rounds_fit_lem :
    (xs : List Certificate)
    → rounds_fit xs ≡ true
    → All (λ x. (0 < round x) × (round x + 2 < u64_mod)) xs
unfolding rounds_fit
rounds_fit_lem [] h = tt
rounds_fit_lem (x ∷ xs) h = ground (arith, rounds_fit_lem xs)

abbrev output : Option (State × List Certificate) → List Certificate
output none = []
output (some (s, out)) = out

abbrev end : Option (State × List Certificate) → State
end none = new toy []
end (some (s, out)) = s

abbrev ran : Option (State × List Certificate)
ran = run engine (new toy (genesis four)) one_commit

commits_once_example : DistinctSlots (output ran)
unfolding distinct_slots rounds_fit run new genesis Certificate.digest add_certificate leader linked
    order_leaders order_dag update Config.leader stake validity_threshold quorum_threshold
commits_once_example =
    commits_once engine one_commit (output ran) (end ran) (distinct_slots_lem one_commit refl)
      (rounds_fit_lem one_commit refl) refl

-- A chain of certificates: author 3 leads round 2, and author 4 round 3.
abbrev second : Certificate
second = cert 2 3 []

abbrev third : Certificate
third = cert 3 4 (23 ∷ [])

abbrev fourth : Certificate
fourth = cert 4 2 (34 ∷ [])

abbrev fifth : Certificate
fifth = cert 5 1 (42 ∷ [])

abbrev sixth : Certificate
sixth = cert 6 1 (51 ∷ [])

abbrev chain : Dag
chain =
    (2, (3, (23, second)) ∷ [])
    ∷ (3, (4, (34, third)) ∷ [])
    ∷ (4, (2, (42, fourth)) ∷ [])
    ∷ (5, (1, (51, fifth)) ∷ [])
    ∷ (6, (1, (61, sixth)) ∷ [])
    ∷ []

abbrev chained : State
chained = record {
  last_committed_round = 0;
  last_committed = [];
  dag = chain;
  resolved_fallback_rounds = [];
}

chain-WfDag : WfDag chain
chain-WfDag = (
  (refl, (refl, (refl, (refl, (refl, tt))))),
  (
    ((refl, tt), ((refl, refl), tt), omega arith),
    (
      ((refl, tt), ((refl, refl), tt), omega arith),
      (
        ((refl, tt), ((refl, refl), tt), omega arith),
        (
          ((refl, tt), ((refl, refl), tt), omega arith),
          (((refl, tt), ((refl, refl), tt), omega arith), tt),
        ),
      ),
    ),
  ),
)

order_dag-Reached_example :
    DistinctSlots (second ∷ third ∷ fourth ∷ [])
    × All (Reached chained fourth) (second ∷ third ∷ fourth ∷ [])
unfolding order_dag sort_by_key
order_dag-Reached_example =
    order_dag-Reached engine fourth chained (second ∷ third ∷ fourth ∷ []) chain-WfDag (omega arith)
      refl

order_dag_ends_example : (out : List Certificate) × (order_dag engine sixth chained ≡ some out)
order_dag_ends_example = order_dag_ends engine sixth chained

order_leaders-Rising_example :
    All (InDag chain) (second ∷ fifth ∷ []) × Rising 0 u64_mod (second ∷ fifth ∷ [])
unfolding order_leaders leader linked Config.leader
order_leaders-Rising_example =
    order_leaders-Rising engine fifth chained (fifth ∷ second ∷ []) chain-WfDag (omega arith)
      ((51, refl), omega arith) (omega arith) refl

-- The leader of round 2 is an ancestor too, and is passed over.
order_leaders-OddRound_example : All (λ x. OddRound (round x)) (third ∷ [])
unfolding order_leaders leader linked Config.leader
order_leaders-OddRound_example =
    order_leaders-OddRound engine sixth chained (third ∷ []) chain-WfDag (omega arith) (omega arith)
      refl refl

-- Author 4 is slow: its certificate of round 3 is seen late, and refers to that of author 1 in round 2.
abbrev late : Certificate
late = cert 3 4 (parents_of 2)

abbrev fast : Round → List Digest → List Certificate
fast r parents = cert r 1 parents ∷ cert r 2 parents ∷ cert r 3 parents ∷ []

abbrev fast_parents : Round → List Digest
fast_parents r = (10 * r + 1) ∷ (10 * r + 2) ∷ (10 * r + 3) ∷ []

-- The leader of round 4 is author 1 and that of round 6 author 3. Round 2 of author 2 is received
-- again after the commit of round 4, and then the late certificate.
abbrev received_again : List Certificate
received_again =
    all_of 1 (parents_of 0)
    ++ (all_of 2 (parents_of 1)
        ++ (fast 3 (parents_of 2)
            ++ (fast 4 (fast_parents 3)
                ++ (fast 5 (fast_parents 4)
                    ++ (cert 2 2 (parents_of 1)
                        ∷ late
                        ∷ cert 4 4 (34 ∷ fast_parents 3)
                        ∷ cert 5 4 (44 ∷ fast_parents 4)
                        ∷ (cert 6 3 (54 ∷ fast_parents 5)
                            ∷ cert 7 1 (63 ∷ [])
                            ∷ cert 7 2 (63 ∷ [])
                            ∷ []))))))

-- Round 2 of author 2 is output twice.
again_slots :
    slots_of (run engine (new toy (genesis four)) received_again)
    ≡ some (
        (1, 4)
        ∷ (1, 3)
        ∷ (1, 2)
        ∷ (1, 1)
        ∷ (2, 3)
        ∷ (2, 4)
        ∷ (2, 2)
        ∷ (2, 1)
        ∷ (3, 3)
        ∷ (3, 2)
        ∷ (3, 1)
        ∷ (4, 1)
        ∷ (2, 2)
        ∷ (3, 4)
        ∷ (4, 3)
        ∷ (4, 2)
        ∷ (4, 4)
        ∷ (5, 3)
        ∷ (5, 2)
        ∷ (5, 1)
        ∷ (5, 4)
        ∷ (6, 3)
        ∷ [])
unfolding run new genesis Certificate.digest add_certificate leader linked order_leaders order_dag
    update Config.leader stake validity_threshold quorum_threshold
again_slots = refl

highest_round_published_example :
    let g =
      GarbageCollector.run (7 ∷ []) GarbageCollector.new (second ∷ fourth ∷ third ∷ fifth ∷ []) in
    (g.consensus_round ≡ highest 0 (second ∷ fourth ∷ third ∷ fifth ∷ []))
    × Rises 0 g.cleanups (highest 0 (second ∷ fourth ∷ third ∷ fifth ∷ []))
highest_round_published_example =
    highest_round_published (7 ∷ []) (second ∷ fourth ∷ third ∷ fifth ∷ [])
