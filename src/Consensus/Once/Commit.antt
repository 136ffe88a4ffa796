-- ===== src/Consensus/Once/Commit.antt =====
-- No certificate is committed twice.
use bullshark_ubuntu.Base.{
  ◌+◌, ◌≤◌, ◌<◌, ◌≡◌, ap, ◌∙◌, subst, inl, inr, ◌==◌, if◌then◌else◌, true, false, some, List, [],
  ◌∷◌, ◌++◌, reverse, All, All-append, All-mono, u64_mod, arith, Bool-cases, unwrap_some, if_true,
  if_false,
}
use bullshark_ubuntu.Messages.Header.{Round}
use bullshark_ubuntu.Messages.Certificate.{Certificate, round, origin}
use bullshark_ubuntu.Consensus.State.{State, Consensus}
use bullshark_ubuntu.Consensus.Leaders.{>>=-eq-some, order_leaders}
use bullshark_ubuntu.Consensus.Order.{order_dag, is_last_committed}
use bullshark_ubuntu.Consensus.Run.{update_all, commit_leaders, commit}
use bullshark_ubuntu.Consensus.Once.Slots.{
  has_slot, has_slot-append, DistinctSlots, Apart, DistinctSlots-append,
}
use bullshark_ubuntu.Consensus.Once.Invariant.{
  Inv, maximum-lookup, update-Inv, update-bound, Inv-same,
}
use bullshark_ubuntu.Consensus.Once.Visit.{Reached, order_dag-Reached}
use bullshark_ubuntu.Consensus.Once.Leaders.{InDag, Rising, order_leaders-Rising}

-- A received certificate whose round is far from the largest number.
abbrev Received : List Certificate → Certificate → Type 0
Received seen x = (has_slot (round x) (origin x) seen ≡ true) × (round x + 2 < u64_mod)

Reached-apart :
    {seen done : List Certificate} {s : State} (inv : Inv seen done s) (l y : Certificate)
    → s.last_committed_round < round l
    → Reached s l y
    → has_slot (round y) (origin y) done ≡ false
unfolding is_last_committed
Reached-apart {seen} {done} {s} inv l y later h =
    elim (Bool-cases (has_slot (round y) (origin y) done)) [
      | inr free ↦ free
      | inl old ↦ elim h.below [
        | inl e ↦
            let (k, at, le) = inv.covered (round y) (origin y) old in
            absurd
              (omega (arith, ap round e, inv.top, maximum-lookup s.last_committed (origin y) k at))
        | inr (d, at, fresh) ↦
            let last = inv.purged (round y) (origin y) (d, y) at old in
            absurd (clash (rw (last, is_last_committed) at fresh))
      ]
    ]
  where
    clash : (round y == round y) ≡ false → ⊥
    clash e = ground arith

Reached-Received :
    {seen done : List Certificate} {s : State} (inv : Inv seen done s) (l y : Certificate)
    → Received seen l
    → Reached s l y
    → Received seen y
Reached-Received {seen} inv l y got h = elim h.below [
  | inl e ↦ (ap (λ t. has_slot (round t) (origin t) seen) e ∙ got.0, h.fits)
  | inr (d, at, fresh) ↦ (inv.known (round y) (origin y) (d, y) at, h.fits)
]

update_all-Inv :
    (c : Consensus) (xs : List Certificate) {seen done : List Certificate} {s : State}
    → Inv seen done s
    → All (Received seen) xs
    → Inv seen (xs ++ done) (update_all c s xs)
unfolding update_all
update_all-Inv c [] inv h = inv
update_all-Inv c (x ∷ xs) {seen} {done} {s} inv h =
    Inv-same (λ r n. ground (arith, has_slot-append r n xs (x ∷ done), has_slot-append r n xs done))
      (update_all-Inv c xs (update-Inv inv x c.gc_depth h.0.1 h.0.0) h.1)

update_all-bound :
    (c : Consensus) (b : Round) (xs : List Certificate) {seen done : List Certificate} {s : State}
    → Inv seen done s
    → All (Received seen) xs
    → s.last_committed_round ≤ b
    → All (λ x. round x ≤ b) xs
    → (update_all c s xs).last_committed_round ≤ b
unfolding update_all
update_all-bound c b [] inv h le q = le
update_all-bound c b (x ∷ xs) inv h le q =
    update_all-bound c b xs (update-Inv inv x c.gc_depth h.0.1 h.0.0) h.1
      (update-bound inv x c.gc_depth b le q.0) q.1

-- The outcome of a step that outputs `out` after `done`.
pub record Once (seen done out : List Certificate) (s : State) : Type 0 where
  pub distinct : DistinctSlots out
  pub apart : Apart done out
  pub inv : Inv seen (out ++ done) s

pub Apart-split :
    (xs done : List Certificate) (ys : List Certificate)
    → Apart (xs ++ done) ys
    → Apart xs ys × Apart done ys
Apart-split xs done [] h = (tt, tt)
Apart-split xs done (y ∷ ys) h =
    let (a, b) = Apart-split xs done ys h.1 in
    let e = has_slot-append (round y) (origin y) xs done in
    ((ground (arith, e), a), (ground (arith, e), b))

Once-append :
    (seen done xs ys : List Certificate) (s t : State)
    → Once seen done xs s
    → Once seen (xs ++ done) ys t
    → Once seen done (xs ++ ys) t
Once-append seen done xs ys s t a b =
    let (from_xs, from_done) = Apart-split xs done ys b.apart in
    record {
      distinct = DistinctSlots-append xs ys a.distinct b.distinct from_xs;
      apart = All-append (λ x. has_slot (round x) (origin x) done ≡ false) xs ys a.apart from_done;
      inv =
          Inv-same
            (λ r n. ground (
              arith,
              has_slot-append r n (xs ++ ys) done,
              has_slot-append r n xs ys,
              has_slot-append r n ys (xs ++ done),
              has_slot-append r n xs done,
            ))
            b.inv;
    }

pub Once-nil : {seen done : List Certificate} {s : State} → Inv seen done s → Once seen done [] s
Once-nil inv = record { distinct = tt; apart = tt; inv = inv }

Rising-lower :
    (lo lo' hi : Round) (ls : List Certificate) → lo' ≤ lo → Rising lo hi ls → Rising lo' hi ls
Rising-lower lo lo' hi [] h r = tt
Rising-lower lo lo' hi (l ∷ ls) h r = (omega arith, r.1, r.2)

-- One leader: its sub-DAG is new, and afterwards no commit is later than the leader.
leader-Once :
    (c : Consensus) (seen done : List Certificate) (s : State) (l : Certificate)
    (ordered : List Certificate)
    → Inv seen done s
    → Received seen l
    → s.last_committed_round < round l
    → order_dag c l s ≡ some ordered
    → Once seen done ordered (update_all c s ordered)
      × ((update_all c s ordered).last_committed_round ≤ round l)
leader-Once c seen done s l ordered inv got later e =
    let (distinct, reached) = order_dag-Reached c l s ordered inv.wf got.1 e in
    let received =
      All-mono (Reached s l) (Received seen) ordered (λ y h. Reached-Received inv l y got h)
        reached in
    (
      record {
        distinct = distinct;
        apart =
            All-mono (Reached s l) (λ x. has_slot (round x) (origin x) done ≡ false) ordered
              (λ y h. Reached-apart inv l y later h) reached;
        inv = update_all-Inv c ordered inv received;
      },
      update_all-bound c (round l) ordered inv received (omega arith)
          (All-mono (Reached s l) (λ x. round x ≤ round l) ordered (λ y h. h.no_later) reached),
    )

commit_leaders-Once :
    (c : Consensus) (seen : List Certificate) (done : List Certificate) (s t : State)
    (ls out : List Certificate)
    → Inv seen done s
    → All (Received seen) ls
    → Rising s.last_committed_round u64_mod ls
    → commit_leaders c s ls ≡ some (t, out)
    → Once seen done out t
unfolding commit_leaders
commit_leaders-Once c seen done s t [] out inv got rise h =
    subst (λ (p : State × List Certificate). Once seen done p.1 p.0) (unwrap_some h) (Once-nil inv)
commit_leaders-Once c seen done s t (l ∷ ls) out inv got rise h =
    let (ordered, e, h1) = >>=-eq-some (order_dag c l s) _ h in
    let ((u, rest), f, h2) = >>=-eq-some (commit_leaders c (update_all c s ordered) ls) _ h1 in
    let (first, top) = leader-Once c seen done s l ordered inv got.0 rise.0 e in
    let second =
      commit_leaders-Once c seen (ordered ++ done) (update_all c s ordered) u ls rest first.inv
        got.1
        (Rising-lower (round l) (update_all c s ordered).last_committed_round u64_mod ls top rise.2)
        f in
    subst (λ (p : State × List Certificate). Once seen done p.1 p.0) (unwrap_some h2)
      (Once-append seen done ordered rest (update_all c s ordered) u first second)

InDag-Received :
    {seen done : List Certificate} {s : State} (inv : Inv seen done s) (l : Certificate)
    → InDag s.dag l
    → Received seen l
InDag-Received inv l ((d, at), fits) = (inv.known (round l) (origin l) (d, l) at, fits)

pub commit-Once :
    (c : Consensus) (seen done : List Certificate) (s t : State) (l : Certificate)
    (out : List Certificate)
    → Inv seen done s
    → InDag s.dag l
    → s.last_committed_round < round l
    → commit c s l ≡ some (t, out)
    → Once seen done out t
unfolding commit
commit-Once c seen done s t l out inv there later h =
    let (leaders, e, h1) =
      >>=-eq-some (if c.dynamic then some (l ∷ []) else order_leaders c l s) _ h in
    let (inside, rises) = chain leaders e in
    commit_leaders-Once c seen done s t (reverse leaders) out inv
      (All-mono (InDag s.dag) (Received seen) (reverse leaders) (InDag-Received inv) inside) rises
      h1
  where
    chain :
        (leaders : List Certificate)
        → (if c.dynamic then some (l ∷ []) else order_leaders c l s) ≡ some leaders
        → All (InDag s.dag) (reverse leaders)
          × Rising s.last_committed_round u64_mod (reverse leaders)
    chain leaders e = elim (Bool-cases c.dynamic) [
      | inl d ↦
          subst
            (λ t. All (InDag s.dag) (reverse t) × Rising s.last_committed_round u64_mod (reverse t))
            (unwrap_some (if_true c.dynamic _ d e)) ((there, tt), (later, omega arith, tt))
      | inr d ↦
          order_leaders-Rising c l s leaders inv.wf inv.small there later (if_false c.dynamic _ d e)
    ]
