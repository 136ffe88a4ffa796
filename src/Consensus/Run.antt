-- ===== src/Consensus/Run.antt =====
-- `Consensus::run` of consensus/src/lib.rs: one certificate received from the primary, and what is
-- committed. `none` is a panic.
use bullshark_ubuntu.Base.{
  ◌-◌, ◌%◌, ◌==◌, ◌&&◌, ◌||◌, not, leb, ltb, if◌then◌else◌, Bool, true, false, Option, none, some,
  List, [], ◌∷◌, ◌++◌, map, lookup, values, contains, sum_u32, sub_u64, reverse,
}
use bullshark_ubuntu.Config.{Stake, stake, quorum_threshold, validity_threshold}
use bullshark_ubuntu.Crypto.{Digest}
use bullshark_ubuntu.Messages.Header.{Round}
use bullshark_ubuntu.Messages.Certificate.{Certificate, round, origin}
use bullshark_ubuntu.Consensus.State.{Slots, State, Consensus, update, add_certificate}
use bullshark_ubuntu.Consensus.Leaders.{◌>>=◌, leader, fallback_leader, linked, order_leaders}
use bullshark_ubuntu.Consensus.Order.{order_dag}

-- The round whose leader a certificate of this round may commit.
unfoldable pub leader_round : Bool → Round → Option Round
leader_round true r = if ltb r 5 || not (r % 4 == 1) then none else some (r - 3)
leader_round false r =
    let previous = sub_u64 r 1 in
    if not (previous % 2 == 0) || ltb previous 2 then none else some previous

-- `resolved_fallback_rounds.insert(..)`, in the mode that keeps them.
unfoldable pub resolve : Bool → Round → State → State
resolve false r s = s
resolve true r s = record s {
  resolved_fallback_rounds =
      if contains r s.resolved_fallback_rounds
      then s.resolved_fallback_rounds
      else r ∷ s.resolved_fallback_rounds;
}

unfoldable pub supports : Consensus → State → Digest → Certificate → Certificate → Option Bool
supports c s leader_digest leader x =
    if c.dynamic then linked x leader s.dag else some (contains leader_digest x.header.parents)

-- The stake behind a leader among the certificates of the support round.
unfoldable pub support :
    Consensus → State → Digest → Certificate → List (Digest × Certificate) → Option (List Stake)
unfolding supports
support c s leader_digest leader [] = some []
support c s leader_digest leader ((_, x) ∷ es) = do
  yea ← supports c s leader_digest leader x
  rest ← support c s leader_digest leader es
  some (if yea then stake c.committee (origin x) ∷ rest else rest)

unfoldable pub update_all : Consensus → State → List Certificate → State
update_all c s [] = s
update_all c s (x ∷ xs) = update_all c (update s x c.gc_depth) xs

-- The oldest leader first.
unfoldable pub commit_leaders :
    Consensus → State → List Certificate → Option (State × List Certificate)
unfolding update_all
commit_leaders c s [] = some (s, [])
commit_leaders c s (l ∷ ls) = do
  ordered ← order_dag c l s
  later ← commit_leaders c (update_all c s ordered) ls
  some (later.0, ordered ++ later.1)

unfoldable pub commit : Consensus → State → Certificate → Option (State × List Certificate)
unfolding commit_leaders
commit c s leader = do
  leaders ← if c.dynamic then some (leader ∷ []) else order_leaders c leader s
  commit_leaders c s (reverse leaders)

-- The leader was found: commit it if enough certificates of the support round are behind it.
unfoldable pub evaluate :
    Consensus → State → Round → Round → Digest → Certificate → Option (State × List Certificate)
unfolding support commit resolve
evaluate c s r lr leader_digest leader = do
  slots ← lookup r s.dag
  stakes ← support c s leader_digest leader (values slots)
  let required = if c.dynamic then quorum_threshold c.committee else validity_threshold c.committee
  if ltb (sum_u32 stakes) required
      then some (resolve c.dynamic lr s, [])
      else commit c (resolve c.dynamic lr s) leader

-- The stake of all certificates of a round.
unfoldable pub round_stake : Consensus → Option Slots → Stake
round_stake c none = 0
round_stake c (some slots) = sum_u32 (map (λ e. stake c.committee (origin e.1)) (values slots))

unfoldable pub select : Consensus → State → Round → Option (Option (Digest × Certificate))
select c s lr = if c.dynamic then fallback_leader c lr s.dag else leader c lr s.dag

unfoldable pub try_commit : Consensus → State → Round → Round → Option (State × List Certificate)
unfolding evaluate round_stake select
try_commit c s r lr =
    if leb lr s.last_committed_round
    then some (s, [])
    else if c.dynamic && contains lr s.resolved_fallback_rounds
    then some (s, [])
    else if c.dynamic && ltb (round_stake c (lookup r s.dag)) (quorum_threshold c.committee)
    then some (s, [])
    else do
      selected ← select c s lr
      elim selected [
        | none ↦ some (resolve c.dynamic lr s, [])
        | some (leader_digest, leader) ↦ evaluate c s r lr leader_digest leader
      ]

-- One round of the loop: the state afterwards and the certificates output, in order.
unfoldable pub process : Consensus → State → Certificate → Option (State × List Certificate)
unfolding leader_round try_commit
process c s x =
    let s' = add_certificate c.dalek s x in
    elim (leader_round c.dynamic (round x)) [
      | none ↦ some (s', [])
      | some lr ↦ try_commit c s' (round x) lr
    ]

-- The certificates received one after the other.
unfoldable pub run : Consensus → State → List Certificate → Option (State × List Certificate)
unfolding process
run c s [] = some (s, [])
run c s (x ∷ xs) = do now ← process c s x; later ← run c now.0 xs; some (later.0, now.1 ++ later.1)
