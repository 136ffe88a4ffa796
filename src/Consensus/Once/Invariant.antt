-- ===== src/Consensus/Once/Invariant.antt =====
-- What the state knows of the certificates committed so far, kept by `update` and by a new certificate.
use bullshark_ubuntu.Base.{
  ◌+◌, ◌≤◌, ◌<◌, ◌≡◌, sym, ap, ◌∙◌, inl, inr, ◌==◌, max, if◌then◌else◌, true, false, none, some,
  List, [], ◌∷◌, lookup, insert, values, u64_mod, arith, Bool-cases, Option-cases, ==_iff, ==_refl,
  lookup-insert,
}
use bullshark_ubuntu.Config.{PublicKey}
use bullshark_ubuntu.Crypto.{Digest, Dalek}
use bullshark_ubuntu.Messages.Header.{Round}
use bullshark_ubuntu.Messages.Certificate.{Certificate, round, origin}
use bullshark_ubuntu.Consensus.State.{State, commit_round, maximum, update, add_certificate}
use bullshark_ubuntu.Consensus.Leaders.{slot}
use bullshark_ubuntu.Consensus.Once.Slots.{in_slot, has_slot, has_slot_of}
use bullshark_ubuntu.Consensus.Once.Wf.{
  WfDag, prune-slot, prune-WfDag, add_certificate-WfDag, add_certificate-slot,
}

-- `seen` are the certificates received, `done` those committed.
pub record Inv (seen done : List Certificate) (s : State) : Type 0 where
  pub wf : WfDag s.dag
  pub purged :
      (r : Round) (n : PublicKey) (e : Digest × Certificate)
      → slot s.dag r n ≡ some e
      → has_slot r n done ≡ true
      → lookup n s.last_committed ≡ some r
  pub covered :
      (r : Round) (n : PublicKey)
      → has_slot r n done ≡ true
      → (k : Round) × (lookup n s.last_committed ≡ some k) × (r ≤ k)
  pub top : maximum (values s.last_committed) ≤ s.last_committed_round
  pub small : s.last_committed_round + 2 < u64_mod
  pub known :
      (r : Round) (n : PublicKey) (e : Digest × Certificate)
      → slot s.dag r n ≡ some e
      → has_slot r n seen ≡ true
  pub output : (r : Round) (n : PublicKey) → has_slot r n done ≡ true → has_slot r n seen ≡ true

pub maximum-lookup :
    (m : List (PublicKey × Round)) (n : PublicKey) (k : Round)
    → lookup n m ≡ some k
    → k ≤ maximum (values m)
unfolding maximum
maximum-lookup [] n k h = cc
maximum-lookup ((j, v) ∷ m) n k h = ground (arith, maximum-lookup m n k)

maximum-insert :
    (m : List (PublicKey × Round)) (n : PublicKey) (k b : Round)
    → maximum (values m) ≤ b
    → k ≤ b
    → maximum (values (insert n k m)) ≤ b
unfolding maximum
maximum-insert [] n k b h q = omega arith
maximum-insert ((j, v) ∷ m) n k b h q = ground (arith, maximum-insert m n k b)

commit_round-lookup :
    (name n : PublicKey) (r : Round) (m : List (PublicKey × Round))
    → lookup n (commit_round name r m) ≡ (
        if name == n
        then some (elim (lookup name m) [ none ↦ r | some old ↦ max old r ])
        else lookup n m)
unfolding commit_round
commit_round-lookup name n r m = lookup-insert name n _ m

maximum-commit_round :
    (name : PublicKey) (r b : Round) (m : List (PublicKey × Round))
    → maximum (values m) ≤ b
    → r ≤ b
    → maximum (values (commit_round name r m)) ≤ b
unfolding commit_round
maximum-commit_round name r b m h q = elim (Option-cases (lookup name m)) [
  | inl e ↦ rw (e, commit_round) (maximum-insert m name r b h q)
  | inr (old, e) ↦
      rw (e, commit_round)
        (maximum-insert m name (max old r) b h (omega (arith, maximum-lookup m name old e)))
]

-- The entry of the author afterwards: no less than the new round, nor than the old entry.
commit_round_self :
    (name : PublicKey) (r : Round) (m : List (PublicKey × Round))
    → (k : Round) × (lookup name (commit_round name r m) ≡ some k)
      × (r ≤ k)
      × ((old : Round) → lookup name m ≡ some old → old ≤ k)
commit_round_self name r m = elim (Option-cases (lookup name m)) [
  | inl e ↦ (
    r,
    commit_round-lookup name name r m ∙ ground (arith, ==_refl name),
    omega arith,
    λ old q. cc,
  )
  | inr (old, e) ↦ (
    max old r,
    commit_round-lookup name name r m ∙ ground (arith, ==_refl name),
    omega arith,
    λ older q. ground arith,
  )
]

module _ {seen done : List Certificate} {s : State} (inv : Inv seen done s) (x : Certificate)
    (gc_depth : Round) where
  open inv use {wf, purged, covered, top, small, known, output}

  abbrev lc' : List (PublicKey × Round)
  lc' = commit_round (origin x) (round x) s.last_committed

  update-purged :
      (r : Round) (n : PublicKey) (e : Digest × Certificate)
      → slot (update s x gc_depth).dag r n ≡ some e
      → has_slot r n (x ∷ done) ≡ true
      → lookup n lc' ≡ some r
  unfolding update
  update-purged r n e h q =
      let (there, older) = prune-slot lc' gc_depth (maximum (values lc')) s.dag r n e wf h in
      let (k, at, le, ge) = commit_round_self (origin x) (round x) s.last_committed in
      elim (Bool-cases (origin x == n)) [
        | inl same ↦
            let same' = (==_iff (origin x) n).0 same in
            let at' = ap (λ t. lookup t lc') (sym same') ∙ at in
            let le' = older k at' in
            at'
            ∙ ap some (elim (Bool-cases (in_slot r n x)) [
              | inl new ↦ ground arith
              | inr old ↦
                  let past = purged r n e there (ground arith) in
                  omega (arith, ge r (ap (λ t. lookup t s.last_committed) same' ∙ past))
            ])
        | inr other ↦
            commit_round-lookup (origin x) n (round x) s.last_committed
            ∙ rw other (purged r n e there (ground arith))
      ]

  update-covered :
      (r : Round) (n : PublicKey)
      → has_slot r n (x ∷ done) ≡ true
      → (k : Round) × (lookup n lc' ≡ some k) × (r ≤ k)
  update-covered r n q =
      let (k, at, le, ge) = commit_round_self (origin x) (round x) s.last_committed in
      elim (Bool-cases (origin x == n)) [
        | inl same ↦
            let same' = (==_iff (origin x) n).0 same in
            (
              k,
              ap (λ t. lookup t lc') (sym same') ∙ at,
              elim (Bool-cases (in_slot r n x)) [
                | inl new ↦ ground arith
                | inr old ↦
                    let (k', at', le') = covered r n (ground arith) in
                    omega (arith, ge k' (ap (λ t. lookup t s.last_committed) same' ∙ at'))
              ],
            )
        | inr other ↦
            let (k', at', le') = covered r n (ground arith) in
            (k', commit_round-lookup (origin x) n (round x) s.last_committed ∙ rw other at', le')
      ]

  pub update-bound :
      (b : Round)
      → s.last_committed_round ≤ b
      → round x ≤ b
      → (update s x gc_depth).last_committed_round ≤ b
  unfolding update
  update-bound b h q = maximum-commit_round (origin x) (round x) b s.last_committed (omega arith) q

  pub update-Inv :
      round x + 2 < u64_mod
      → has_slot (round x) (origin x) seen ≡ true
      → Inv seen (x ∷ done) (update s x gc_depth)
  unfolding update
  update-Inv fits old = record {
    wf = prune-WfDag lc' gc_depth (maximum (values lc')) s.dag wf;
    purged = update-purged;
    covered = update-covered;
    top = omega arith;
    small = omega (
      arith,
      maximum-commit_round (origin x) (round x) (max s.last_committed_round (round x))
          s.last_committed (omega arith) (omega arith),
    );
    known =
        λ r n e h. known r n e (prune-slot lc' gc_depth (maximum (values lc')) s.dag r n e wf h).0;
    output = λ r n h. elim (Bool-cases (in_slot r n x)) [
      | inl new ↦ has_slot_of r n x seen new ∙ old
      | inr other ↦ output r n (ground arith)
    ];
  }

-- A certificate of a slot that was not received yet.
pub add_certificate-Inv :
    (d : Dalek) (x : Certificate) {seen done : List Certificate} {s : State}
    → Inv seen done s
    → round x + 2 < u64_mod
    → has_slot (round x) (origin x) seen ≡ false
    → Inv (x ∷ seen) done (add_certificate d s x)
unfolding add_certificate
add_certificate-Inv d x {seen} {done} {s} inv fits new = record {
  wf = add_certificate-WfDag d s x inv.wf fits;
  purged = λ r n e h q. inv.purged r n e (old r n e h (inv.output r n q)) q;
  covered = inv.covered;
  top = inv.top;
  small = inv.small;
  known = λ r n e h. elim (Bool-cases (in_slot r n x)) [
    | inl hit ↦ ground arith
    | inr miss ↦ ground (arith, inv.known r n e (other r n e h miss))
  ];
  output = λ r n q. ground (arith, inv.output r n q);
}
  where
    other :
        (r : Round) (n : PublicKey) (e : Digest × Certificate)
        → slot (add_certificate d s x).dag r n ≡ some e
        → in_slot r n x ≡ false
        → slot s.dag r n ≡ some e
    other r n e h miss = ground (arith, add_certificate-slot d s x r n)

    old :
        (r : Round) (n : PublicKey) (e : Digest × Certificate)
        → slot (add_certificate d s x).dag r n ≡ some e
        → has_slot r n seen ≡ true
        → slot s.dag r n ≡ some e
    old r n e h q = elim (Bool-cases (in_slot r n x)) [
      | inl hit ↦ cc (has_slot_of r n x seen hit)
      | inr miss ↦ other r n e h miss
    ]

-- Only the slots of the committed certificates count.
pub Inv-same :
    {seen done more : List Certificate} {s : State}
    → ((r : Round) (n : PublicKey) → has_slot r n more ≡ has_slot r n done)
    → Inv seen done s
    → Inv seen more s
Inv-same h inv = record {
  wf = inv.wf;
  purged = λ r n e at q. inv.purged r n e at (sym (h r n) ∙ q);
  covered = λ r n q. inv.covered r n (sym (h r n) ∙ q);
  top = inv.top;
  small = inv.small;
  known = inv.known;
  output = λ r n q. inv.output r n (sym (h r n) ∙ q);
}
