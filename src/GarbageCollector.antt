-- ===== src/GarbageCollector.antt =====
-- primary/src/garbage_collector.rs: the rounds that consensus reached, published to all tasks.
pub mod Rounds
use bullshark_ubuntu.Base.{ltb, if◌then◌else◌, List, [], ◌∷◌, ◌++◌}
use bullshark_ubuntu.Config.{SocketAddr}
use bullshark_ubuntu.Messages.Header.{Round}
use bullshark_ubuntu.Messages.Certificate.{Certificate, round}

-- The shared round, the round of the loop, and the `Cleanup` messages sent to each address.
pub record GarbageCollector : Type 0 where
  pub consensus_round : Round
  pub last_committed_round : Round
  pub cleanups : List (List SocketAddr × Round)

abbrev pub new : GarbageCollector
new = record { consensus_round = 0; last_committed_round = 0; cleanups = [] }

unfoldable pub receive : List SocketAddr → GarbageCollector → Certificate → GarbageCollector
receive addresses g certificate =
    if ltb g.last_committed_round (round certificate)
    then record {
      consensus_round = round certificate;
      last_committed_round = round certificate;
      cleanups = g.cleanups ++ (addresses, round certificate) ∷ [];
    }
    else g

unfoldable pub run : List SocketAddr → GarbageCollector → List Certificate → GarbageCollector
unfolding receive
run addresses g [] = g
run addresses g (x ∷ xs) = run addresses (receive addresses g x) xs
