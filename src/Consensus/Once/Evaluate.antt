-- ===== src/Consensus/Once/Evaluate.antt =====
-- One call of the commit rule of consensus/src/lib.rs, from the leader's support to the output.
use bullshark_ubuntu.Base.{
  ◌<◌, ◌≡◌, refl, sym, subst, inl, inr, ◌&&◌, ltb, leb, if◌then◌else◌, Bool, true, false, Option,
  none, some, List, [], arith, Bool-cases, lookup, unwrap_some, if_true, if_false, values, sum_u32,
  contains,
}
use bullshark_ubuntu.Config.{quorum_threshold, validity_threshold}
use bullshark_ubuntu.Crypto.{Digest}
use bullshark_ubuntu.Messages.Header.{Round}
use bullshark_ubuntu.Messages.Certificate.{Certificate, round}
use bullshark_ubuntu.Consensus.State.{State, Consensus}
use bullshark_ubuntu.Consensus.Leaders.{>>=-eq-some}
use bullshark_ubuntu.Consensus.Run.{resolve, support, round_stake, evaluate, select, try_commit}
use bullshark_ubuntu.Consensus.Once.Wf.{WfDag}
use bullshark_ubuntu.Consensus.Once.Invariant.{Inv}
use bullshark_ubuntu.Consensus.Once.Leaders.{InDag, leader-InDag, fallback_leader-InDag}
use bullshark_ubuntu.Consensus.Once.Commit.{Once, Once-nil, commit-Once}

resolve-Inv :
    (b : Bool) (r : Round) {seen done : List Certificate} {s : State}
    → Inv seen done s
    → Inv seen done (resolve b r s)
unfolding resolve
resolve-Inv false r inv = inv
resolve-Inv true r inv = record {
  wf = inv.wf;
  purged = inv.purged;
  covered = inv.covered;
  top = inv.top;
  small = inv.small;
  known = inv.known;
  output = inv.output;
}

resolve-dag :
    (b : Bool) (r : Round) (s : State)
    → ((resolve b r s).dag ≡ s.dag)
      × ((resolve b r s).last_committed_round ≡ s.last_committed_round)
unfolding resolve
resolve-dag false r s = (refl, refl)
resolve-dag true r s = (refl, refl)

evaluate-Once :
    (c : Consensus) (seen done : List Certificate) (s t : State) (r lr : Round) (d : Digest)
    (l : Certificate) (out : List Certificate)
    → Inv seen done s
    → InDag s.dag l
    → s.last_committed_round < round l
    → evaluate c s r lr d l ≡ some (t, out)
    → Once seen done out t
unfolding evaluate
evaluate-Once c seen done s t r lr d l out inv there later h =
    let (slots, e, h1) = >>=-eq-some (lookup r s.dag) _ h in
    let (stakes, f, h2) = >>=-eq-some (support c s d l (values slots)) _ h1 in
    let same = resolve-dag c.dynamic lr s in
    elim (Bool-cases (
      ltb (sum_u32 stakes)
        (if c.dynamic then quorum_threshold c.committee else validity_threshold c.committee))) [
          | inl short ↦
              subst (λ (p : State × List Certificate). Once seen done p.1 p.0)
                (unwrap_some (rw short at h2)) (Once-nil (resolve-Inv c.dynamic lr inv))
          | inr enough ↦
              commit-Once c seen done (resolve c.dynamic lr s) t l out
                (resolve-Inv c.dynamic lr inv) (subst (λ g. InDag g l) (sym same.0) there)
                (omega (arith, same.1)) (rw enough at h2)
        ]

select-InDag :
    (c : Consensus) (s : State) (lr : Round) (d : Digest) (l : Certificate)
    → WfDag s.dag
    → select c s lr ≡ some (some (d, l))
    → (round l ≡ lr) × InDag s.dag l
unfolding select
select-InDag c s lr d l w h = elim (Bool-cases c.dynamic) [
  | inl e ↦ fallback_leader-InDag c lr s.dag d l w (if_true c.dynamic _ e h)
  | inr e ↦ leader-InDag c lr s.dag d l w (if_false c.dynamic _ e h)
]

pub try_commit-Once :
    (c : Consensus) (seen done : List Certificate) (s t : State) (r lr : Round)
    (out : List Certificate)
    → Inv seen done s
    → try_commit c s r lr ≡ some (t, out)
    → Once seen done out t
unfolding try_commit
try_commit-Once c seen done s t r lr out inv h = elim (Bool-cases (leb lr s.last_committed_round)) [
  | inl e ↦ idle (if_true _ _ e h)
  | inr later ↦
      let h1 = if_false _ _ later h in
      elim (Bool-cases (c.dynamic && contains lr s.resolved_fallback_rounds)) [
        | inl e ↦ idle (if_true _ _ e h1)
        | inr e ↦
            let h2 = if_false _ _ e h1 in
            elim (Bool-cases
              (c.dynamic && ltb (round_stake c (lookup r s.dag)) (quorum_threshold c.committee))) [
                | inl f ↦ idle (if_true _ _ f h2)
                | inr f ↦
                    let (found, at, h3) = >>=-eq-some (select c s lr) _ (if_false _ _ f h2) in
                    go later found at h3
              ]
      ]
]
  where
    idle :
        ◌≡◌ {A = Option (State × List Certificate)} (some (s, [])) (some (t, out))
        → Once seen done out t
    idle e =
        subst (λ (p : State × List Certificate). Once seen done p.1 p.0) (unwrap_some e)
          (Once-nil inv)

    go :
        leb lr s.last_committed_round ≡ false
        → (found : Option (Digest × Certificate)) → select c s lr ≡ some found
        → ◌≡◌ {A = Option (State × List Certificate)}
            (elim found [
              | none ↦ some (resolve c.dynamic lr s, [])
              | some (d, l) ↦ evaluate c s r lr d l
            ])
            (some (t, out))
        → Once seen done out t
    go later none e h =
        subst (λ (p : State × List Certificate). Once seen done p.1 p.0) (unwrap_some h)
          (Once-nil (resolve-Inv c.dynamic lr inv))
    go later (some (d, l)) e h =
        let (at, there) = select-InDag c s lr d l inv.wf e in
        evaluate-Once c seen done s t r lr d l out inv there (ground arith) h
