-- ===== src/Consensus/Once/Parity.antt =====
-- The rounds that `order_leaders` of consensus/src/lib.rs looks at.
use bullshark_ubuntu.Base.{
  ℕ, zero, suc, ◌+◌, ◌-◌, ◌%◌, ◌≤◌, ◌<◌, ◌≡◌, subst, inl, inr, some, List, [], ◌∷◌, All, add_u64,
  u64_mod, arith, unwrap_some,
}
use bullshark_ubuntu.Messages.Header.{Round}
use bullshark_ubuntu.Messages.Certificate.{Certificate, round}
use bullshark_ubuntu.Consensus.State.{Dag, State, Consensus}
use bullshark_ubuntu.Consensus.Leaders.{every_second, past_leaders, order_leaders, >>=-eq-some}
use bullshark_ubuntu.Consensus.Once.Wf.{WfDag}
use bullshark_ubuntu.Consensus.Once.Leaders.{leader-InDag, past_leaders_step}

abbrev pub OddRound : Round → Type 0
OddRound r = r % 2 ≡ 1

every_second-OddRound : (lo k : ℕ) → (lo + k) % 2 ≡ 0 → All OddRound (every_second lo k)
unfolding every_second
every_second-OddRound lo zero e = tt
every_second-OddRound lo (suc zero) e = (omega arith, tt)
every_second-OddRound lo (suc (suc k)) e = (omega arith, every_second-OddRound lo k (omega arith))

past_leaders-OddRound :
    (c : Consensus) (dag : Dag) (last : Certificate) (rs : List Round) (out : List Certificate)
    → WfDag dag
    → All OddRound rs
    → past_leaders c dag last rs ≡ some out
    → All (λ x. OddRound (round x)) out
unfolding past_leaders
past_leaders-OddRound c dag last [] out w odd h =
    subst (All (λ x. OddRound (round x))) (unwrap_some h) tt
past_leaders-OddRound c dag last (r ∷ rs) out w odd h =
    elim (past_leaders_step c dag last r rs out h) [
      | inl passed ↦ past_leaders-OddRound c dag last rs out w odd.1 passed
      | inr (d, x, older, at, joined, next, same) ↦
          let (er, there) = leader-InDag c r dag d x w at in
          subst (All (λ y. OddRound (round y))) same
            (rw er odd.0, past_leaders-OddRound c dag x rs older w odd.1 next)
    ]

-- On a well-formed DAG, when a leader of an even round, at least two rounds above the last committed one, is committed, every other leader that `order_leaders` returns with it is of an odd round.
pub order_leaders-OddRound :
    (c : Consensus) (anchor : Certificate) (s : State) (older : List Certificate)
    → WfDag s.dag
    → s.last_committed_round + 2 ≤ round anchor
    → round anchor < u64_mod
    → round anchor % 2 ≡ 0
    → order_leaders c anchor s ≡ some (anchor ∷ older)
    → All (λ x. OddRound (round x)) older
unfolding order_leaders
order_leaders-OddRound c anchor s older w late small even h =
    let lo = add_u64 s.last_committed_round 2 in
    let k = round anchor - lo in
    let (past, e, h1) = >>=-eq-some (past_leaders c s.dag anchor (every_second lo k)) _ h in
    past_leaders-OddRound c s.dag anchor (every_second lo k) older w
      (every_second-OddRound lo k (omega arith))
      (subst (λ t. past_leaders c s.dag anchor (every_second lo k) ≡ some t) (tails h1) e)
  where
    tails : {xs ys : List Certificate} → some (anchor ∷ xs) ≡ some (anchor ∷ ys) → xs ≡ ys
    tails q = cc
