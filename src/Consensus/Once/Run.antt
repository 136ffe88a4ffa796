-- ===== src/Consensus/Once/Run.antt =====
-- No certificate is committed twice, over all that `Consensus::run` receives.
use bullshark_ubuntu.Base.{
  ◌+◌, ◌≤◌, ◌<◌, ◌≡◌, refl, subst, inl, inr, ◌==◌, true, false, some, List, [], ◌∷◌, ◌++◌, All,
  All-append, All-mono, u64_mod, arith, Bool-cases, Option-cases, ==_refl, unwrap_some, values,
  keys, map, All-lookup, insert, Distinct-keys-insert, All-insert,
}
use bullshark_ubuntu.Config.{Committee, PublicKey}
use bullshark_ubuntu.Crypto.{Dalek}
use bullshark_ubuntu.Messages.Header.{Round}
use bullshark_ubuntu.Messages.Header
use bullshark_ubuntu.Messages.Certificate
use bullshark_ubuntu.Messages.Certificate.{Certificate, round, origin, genesis}
use bullshark_ubuntu.Consensus.State.{
  Slots, State, Consensus, genesis_slots, maximum, new, add_certificate,
}
use bullshark_ubuntu.Consensus.Leaders.{slot, >>=-eq-some}
use bullshark_ubuntu.Consensus.Run.{leader_round, process, run}
use bullshark_ubuntu.Consensus.Once.Slots.{has_slot, DistinctSlots, Apart, DistinctSlots-append}
use bullshark_ubuntu.Consensus.Once.Wf.{SlotsOk, EntryOk}
use bullshark_ubuntu.Consensus.Once.Invariant.{Inv, add_certificate-Inv}
use bullshark_ubuntu.Consensus.Once.Commit.{Once, Once-nil, Apart-split}
use bullshark_ubuntu.Consensus.Once.Evaluate.{try_commit-Once}

process-Once :
    (c : Consensus) (seen done : List Certificate) (s t : State) (x : Certificate)
    (out : List Certificate)
    → Inv seen done s
    → round x + 2 < u64_mod
    → has_slot (round x) (origin x) seen ≡ false
    → process c s x ≡ some (t, out)
    → Once (x ∷ seen) done out t
unfolding process
process-Once c seen done s t x out inv fits new h =
    elim (Option-cases (leader_round c.dynamic (round x))) [
      | inl e ↦
          subst (λ (p : State × List Certificate). Once (x ∷ seen) done p.1 p.0)
            (unwrap_some (rw (e, process) at h))
            (Once-nil (add_certificate-Inv c.dalek x inv fits new))
      | inr (lr, e) ↦
          try_commit-Once c (x ∷ seen) done (add_certificate c.dalek s x) t (round x) lr out
            (add_certificate-Inv c.dalek x inv fits new) (rw (e, process) at h)
    ]

Apart-cons :
    (x : Certificate) (seen xs : List Certificate)
    → has_slot (round x) (origin x) xs ≡ false
    → Apart seen xs
    → Apart (x ∷ seen) xs
Apart-cons x seen [] h a = tt
Apart-cons x seen (y ∷ ys) h a = (ground arith, Apart-cons x seen ys (ground arith) a.1)

run-Once :
    (c : Consensus) (seen done : List Certificate) (s t : State) (xs out : List Certificate)
    → Inv seen done s
    → DistinctSlots xs
    → Apart seen xs
    → All (λ x. round x + 2 < u64_mod) xs
    → run c s xs ≡ some (t, out)
    → DistinctSlots out × Apart done out
unfolding run
run-Once c seen done s t [] out inv d a f h =
    subst (λ (p : State × List Certificate). DistinctSlots p.1 × Apart done p.1) (unwrap_some h)
      (tt, tt)
run-Once c seen done s t (x ∷ xs) out inv d a f h =
    let ((u, now), e, h1) = >>=-eq-some (process c s x) _ h in
    let ((v, rest), g, h2) = >>=-eq-some (run c u xs) _ h1 in
    let first = process-Once c seen done s u x now inv f.0 a.0 e in
    let (distinct, apart) =
      run-Once c (x ∷ seen) (now ++ done) u v xs rest first.inv d.1 (Apart-cons x seen xs d.0 a.1)
        f.1 g in
    let (from_now, from_done) = Apart-split now done rest apart in
    subst (λ (p : State × List Certificate). DistinctSlots p.1 × Apart done p.1) (unwrap_some h2)
      (
        DistinctSlots-append now rest first.distinct distinct from_now,
        All-append (λ x. has_slot (round x) (origin x) done ≡ false) now rest first.apart from_done,
      )

-- A list of genesis certificates fills round 0 and nothing else.
genesis_slots-SlotsOk :
    (d : Dalek) (all xs : List Certificate) (slots : Slots)
    → All (λ x. (round x ≡ 0) × (has_slot 0 (origin x) all ≡ true)) xs
    → SlotsOk (0, slots)
    → All (λ e. has_slot 0 e.0 all ≡ true) slots
    → SlotsOk (0, genesis_slots d xs slots)
      × All (λ e. has_slot 0 e.0 all ≡ true) (genesis_slots d xs slots)
unfolding genesis_slots
genesis_slots-SlotsOk d all [] slots g ok known = (ok, known)
genesis_slots-SlotsOk d all (x ∷ xs) slots g ok known =
    genesis_slots-SlotsOk d all xs (insert (origin x) (Certificate.digest d x, x) slots) g.1
      (
        Distinct-keys-insert (origin x) _ slots ok.0,
        All-insert (EntryOk 0) (origin x) _ slots (g.0.0, refl) ok.1,
        ok.2,
      )
      (All-insert (λ e. has_slot 0 e.0 all ≡ true) (origin x) _ slots g.0.1 known)

genesis_rounds :
    (c : Committee)
    → All (λ x. (round x ≡ 0) × (has_slot 0 (origin x) (genesis c) ≡ true)) (genesis c)
unfolding genesis
genesis_rounds c = go (keys c.authorities) (λ n h. h)
  where
    first : PublicKey → Certificate
    first name = record { header = record Header.default { author = name }; votes = [] }

    go :
        (names : List PublicKey)
        → ((n : PublicKey)
            → has_slot 0 n (map first names) ≡ true
            → has_slot 0 n (genesis c) ≡ true)
        → All (λ x. (round x ≡ 0) × (has_slot 0 (origin x) (genesis c) ≡ true)) (map first names)
    go [] sub = tt
    go (name ∷ names) sub =
        ((refl, sub name (ground (arith, ==_refl name))), go names (λ n h. sub n (ground arith)))

genesis_top :
    (slots : Slots)
    → All (EntryOk 0) slots
    → maximum (values (map (λ e. (e.0, round e.1.1)) slots)) ≤ 0
unfolding maximum
genesis_top [] ok = omega arith
genesis_top (e ∷ slots) ok = omega (arith, ok.0.0, genesis_top slots ok.1)

new-Inv : (d : Dalek) (c : Committee) → Inv (genesis c) [] (new d (genesis c))
unfolding new slot
new-Inv d c =
    let (ok, known) =
      genesis_slots-SlotsOk d (genesis c) (genesis c) [] (genesis_rounds c) (tt, tt, omega arith)
        tt in
    record {
      wf = ((refl, tt), (ok, tt));
      purged = λ r n e h q. cc;
      covered = λ r n q. cc;
      top = genesis_top (genesis_slots d (genesis c) []) ok.1;
      small = omega arith;
      known = λ r n e h. elim (Bool-cases (0 == r)) [
        | inl z ↦ ground (
          arith,
          All-lookup (λ f. has_slot 0 f.0 (genesis c) ≡ true) n e (genesis_slots d (genesis c) [])
              known,
        )
        | inr z ↦ cc (rw (z, slot) at h)
      ];
      output = λ r n q. cc;
    }

-- Whatever certificates the consensus receives, if each author has one a round at most, of a round above 0 and below the largest by two, it outputs no two certificates of one author and round, so none twice.
pub commits_once :
    (c : Consensus) (xs out : List Certificate) (t : State)
    → DistinctSlots xs
    → All (λ x. (0 < round x) × (round x + 2 < u64_mod)) xs
    → run c (new c.dalek (genesis c.committee)) xs ≡ some (t, out)
    → DistinctSlots out
commits_once c xs out t d f h =
    (run-Once c (genesis c.committee) [] (new c.dalek (genesis c.committee)) t xs out
      (new-Inv c.dalek c.committee) d (above_genesis xs f)
      (All-mono _ (λ x. round x + 2 < u64_mod) xs (λ x p. p.1) f) h).0
  where
    no_slot :
        (r : Round) (n : PublicKey) (gs : List Certificate)
        → 0 < r
        → All (λ x. (round x ≡ 0) × (has_slot 0 (origin x) (genesis c.committee) ≡ true)) gs
        → has_slot r n gs ≡ false
    no_slot r n [] p g = refl
    no_slot r n (y ∷ ys) p g = ground (arith, no_slot r n ys p g.1)

    above_genesis :
        (ys : List Certificate)
        → All (λ x. (0 < round x) × (round x + 2 < u64_mod)) ys
        → Apart (genesis c.committee) ys
    above_genesis [] f = tt
    above_genesis (y ∷ ys) f = (
      no_slot (round y) (origin y) (genesis c.committee) f.0.0 (genesis_rounds c.committee),
      above_genesis ys f.1,
    )
