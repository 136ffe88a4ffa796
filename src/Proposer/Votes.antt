-- ===== src/Proposer/Votes.antt =====
-- `enough_votes` of primary/src/proposer.rs: a proposer that has seen enough stake goes on.
use bullshark_ubuntu.Base.{
  ℕ, ◌+◌, ◌≤◌, ◌<◌, ◌≡◌, refl, true, List, [], ◌∷◌, map, sum, contains, arith, add_u32, u32_mod,
  Bool-cases, Option-cases, inl, inr,
}
use bullshark_ubuntu.Config.{Stake, stake, quorum_threshold, validity_threshold}
use bullshark_ubuntu.Crypto.{Digest}
use bullshark_ubuntu.Messages.Certificate.{Certificate, origin, digest}
use bullshark_ubuntu.Proposer.{Settings, Proposer, count_votes, enough_votes}

abbrev pub stake_seen : Settings → List Certificate → ℕ
stake_seen c xs = sum (map (λ x. stake c.committee (origin x)) xs)

-- Every parent is counted on one side.
count_votes-sum :
    (c : Settings) (leader : Digest) (xs : List Certificate) (votes_for_leader no_votes : Stake)
    → votes_for_leader + no_votes + stake_seen c xs < u32_mod
    → (count_votes c leader xs votes_for_leader no_votes).0
        + (count_votes c leader xs votes_for_leader no_votes).1
      ≡ votes_for_leader + no_votes + stake_seen c xs
unfolding count_votes
count_votes-sum c leader [] f n small = omega arith
count_votes-sum c leader (x ∷ xs) f n small =
    let s = stake c.committee (origin x) in
    elim (Bool-cases (contains leader x.header.parents)) [
      | inl e ↦ ground (arith, count_votes-sum c leader xs (add_u32 f s) n)
      | inr e ↦ ground (arith, count_votes-sum c leader xs f (add_u32 n s))
    ]

-- When the stake of the parents is at least the quorum threshold and the validity threshold together, less one, and is below 2 ^ 32, `enough_votes` is true: whoever the leader is and however the parents voted, the proposer does not wait any more.
pub enough_votes_complete :
    (c : Settings) (p : Proposer)
    → stake_seen c p.last_parents < u32_mod
    → quorum_threshold c.committee + validity_threshold c.committee
      ≤ stake_seen c p.last_parents + 1
    → enough_votes c p ≡ true
unfolding enough_votes
enough_votes_complete c p small seen = elim (Option-cases p.last_leader) [
  | inl e ↦ rw e refl
  | inr (x, e) ↦
      ground (arith, count_votes-sum c (digest c.dalek x) p.last_parents 0 0 (omega arith))
]
