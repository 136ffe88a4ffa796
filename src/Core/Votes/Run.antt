-- ===== src/Core/Votes/Run.antt =====
-- Over the main loop of the core of primary/src/core.rs, one vote for an author in a round.
use bullshark_ubuntu.Base.{
  ℕ, ◌+◌, ◌-◌, ◌≤◌, ◌≡◌, refl, ap, subst, leb, ltb, if◌then◌else◌, List, [], ◌∷◌, retain, lookup,
  unwrap_or, contains, All, All-mono, arith, Bool-cases, inl, inr,
}
use bullshark_ubuntu.Config.{PublicKey}
use bullshark_ubuntu.Error.{DagResult}
use bullshark_ubuntu.Messages.Header.{Round}
use bullshark_ubuntu.Core.State.{Node, Core, returns, Store, new}
use bullshark_ubuntu.Core.Run.{Input, cleanup, run}
use bullshark_ubuntu.Core.Steady.{Reaches, Steady}
use bullshark_ubuntu.Core.Steady.Process.{run-Steady}
use bullshark_ubuntu.Core.Votes.{NoMore, NoMore-Steadiness, votes_sent, votes_left}
use bullshark_ubuntu.Core.Votes.Once.{vote_steps}

lookup-retain_kept :
    (g r : Round) (m : List (Round × List ℕ))
    → g ≤ r
    → lookup r (retain (λ e. leb g e.0) m) ≡ lookup r m
lookup-retain_kept g r [] h = refl
lookup-retain_kept g r ((k, xs) ∷ m) h = ground (arith, lookup-retain_kept g r m h)

module _ (r : Round) (author : PublicKey) (n : Node) where
  cleanup-votes_left :
      (consensus_round : Round) (s : Core)
      → consensus_round ≤ r + n.gc_depth
      → votes_left r author (cleanup n consensus_round s) ≡ votes_left r author s
  unfolding cleanup
  cleanup-votes_left k s h = elim (Bool-cases (ltb n.gc_depth k)) [
    | inl e ↦ rw e (
        ap
          (λ o. votes_sent r author s.effects + (if contains author (unwrap_or [] o) then 0 else 1))
          (lookup-retain_kept (k - n.gc_depth) r s.last_voted (omega arith)))
    | inr e ↦ rw e refl
  ]

  cleanups-NoMore :
      (inputs : List (Round × Input n))
      → All (λ e. e.0 ≤ r + n.gc_depth) inputs
      → All (λ e. (s : Core) → NoMore r author s (cleanup n e.0 s)) inputs
  cleanups-NoMore inputs h =
      All-mono _ _ inputs (λ e low s. omega (arith, cleanup-votes_left e.0 s low)) h

-- Whatever messages, looped-back headers and certificates and own headers the core handles, while the round that consensus reached stays at most `gc_depth` above `r`, it sends at most one vote for headers of an author in round `r`, for every fuel with which the run returns.
pub votes_once :
    (n : Node) (r : Round) (author : PublicKey) (fuel : ℕ) (store : Store)
    (inputs : List (Round × Input n)) (t : Core) (result : DagResult (Unit {0}))
    → All (λ e. e.0 ≤ r + n.gc_depth) inputs
    → run n fuel inputs (new store) ≡ returns t result
    → votes_sent r author t.effects ≤ 1
unfolding Steady Reaches
votes_once n r author fuel store inputs t result low h = omega (
  arith,
  subst (λ o. Reaches (NoMore r author) (new store) o) h
      (run-Steady _ (NoMore-Steadiness r author) n (vote_steps r author n) fuel inputs
        (cleanups-NoMore r author n inputs low) (new store)),
)
