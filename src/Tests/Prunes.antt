-- ===== src/Tests/Prunes.antt =====
-- The cleanup of the DAG of consensus/src/lib.rs.
use bullshark_ubuntu.Base.{◌≡◌, refl, none, []}
use bullshark_ubuntu.Messages.Certificate
use bullshark_ubuntu.Messages.Certificate.{genesis}
use bullshark_ubuntu.Consensus.State.{State, new, add_certificate, update}
use bullshark_ubuntu.Consensus.Pruned.{slot_at}
use bullshark_ubuntu.Consensus.Prune.{Updated, update_lem}
use bullshark_ubuntu.Tests.{four, toy, cert}

-- Rounds 1 and 2 of author 1, of which the second is committed.
abbrev grown : State
grown =
    add_certificate toy (add_certificate toy (new toy (genesis four)) (cert 1 1 [])) (cert 2 1 [])

update_lem_example : Updated grown (cert 2 1 []) 50 (update grown (cert 2 1 []) 50)
unfolding new add_certificate genesis
update_lem_example =
    update_lem grown (cert 2 1 []) 50 (refl, (refl, (refl, tt))) (refl, (refl, (refl, (refl, tt))))

-- The first is removed.
first_removed : slot_at (update grown (cert 2 1 []) 50).dag 1 1 ≡ none
unfolding new add_certificate update genesis Certificate.digest
first_removed = refl
