-- ===== src/Consensus/Order/Termination.antt =====
-- The walk of `order_dag` ends within its fuel.
use bullshark_ubuntu.Base.{
  sort_by_key, leb, add_u64, ℕ, zero, suc, ◌+◌, ◌≤◌, ◌<◌, ◌≡◌, refl, ap, inl, inr, ◌==◌,
  if◌then◌else◌, false, some, List, [], ◌∷◌, values, retain, find, contains, length, sub_u64, arith,
  Bool-cases, Option-cases, List-cases,
}
use bullshark_ubuntu.Crypto.{Digest}
use bullshark_ubuntu.Messages.Header.{Round}
use bullshark_ubuntu.Messages.Certificate.{Certificate, round}
use bullshark_ubuntu.Consensus.State.{Slots, Dag, State, Consensus}
use bullshark_ubuntu.Consensus.Order.{
  Search, by_digest, offer, offer_all, visit, dag_size, start, order_dag,
}

-- The entries whose digest was not pushed yet.
unseen_in : List Digest → List (Digest × Certificate) → ℕ
unseen_in seen [] = 0
unseen_in seen ((d, _) ∷ es) =
    if contains d seen then unseen_in seen es else suc (unseen_in seen es)

unseen : List Digest → Dag → ℕ
unfolding unseen_in
unseen seen [] = 0
unseen seen ((_, slots) ∷ dag) = unseen_in seen (values slots) + unseen seen dag

unseen_in-cons :
    (d : Digest) (seen : List Digest) (es : List (Digest × Certificate))
    → unseen_in (d ∷ seen) es ≤ unseen_in seen es
unfolding unseen_in
unseen_in-cons d seen [] = omega arith
unseen_in-cons d seen ((e, _) ∷ es) = ground (arith, unseen_in-cons d seen es)

unseen_in-find :
    (p d : Digest) (x : Certificate) (seen : List Digest) (es : List (Digest × Certificate))
    → find (λ e. e.0 == p) es ≡ some (d, x)
    → contains d seen ≡ false
    → unseen_in (d ∷ seen) es < unseen_in seen es
unfolding unseen_in
unseen_in-find p d x seen [] h f = cc
unseen_in-find p d x seen ((e, y) ∷ es) h f = elim (Bool-cases (e == p)) [
  | inl hit ↦
      let same : e ≡ d = ground arith in
      ground (arith, unseen_in-cons d seen es, ap (λ t. contains t seen) same)
  | inr miss ↦ ground (arith, unseen_in-find p d x seen es)
]

unseen-cons :
    (d : Digest) (seen : List Digest) (dag : Dag) → unseen (d ∷ seen) dag ≤ unseen seen dag
unfolding unseen
unseen-cons d seen [] = omega arith
unseen-cons d seen ((_, slots) ∷ dag) =
    omega (arith, unseen_in-cons d seen (values slots), unseen-cons d seen dag)

unseen-by_digest :
    (dag : Dag) (r : Round) (p d : Digest) (x : Certificate) (seen : List Digest)
    → by_digest dag r p ≡ some (d, x)
    → contains d seen ≡ false
    → unseen (d ∷ seen) dag < unseen seen dag
unfolding unseen by_digest
unseen-by_digest [] r p d x seen h f = cc
unseen-by_digest ((k, slots) ∷ dag) r p d x seen h f = elim (Bool-cases (k == r)) [
  | inl e ↦
      omega
        (arith, unseen_in-find p d x seen (values slots) (ground arith) f, unseen-cons d seen dag)
  | inr e ↦ omega (
    arith,
    unseen_in-cons d seen (values slots),
    unseen-by_digest dag r p d x seen (rw (e, by_digest) at h) f,
  )
]

abbrev work : State → Search → ℕ
work s search = unseen search.already_ordered s.dag + length search.buffer

offer-work :
    (s : State) (r : Round) (search : Search) (p : Digest)
    → work s (offer s r search p) ≤ work s search
unfolding offer
offer-work s r search p = elim (Option-cases (by_digest s.dag r p)) [
  | inl e ↦ rw (e, offer) (omega arith)
  | inr ((d, x), e) ↦
      rw (e, offer) (ground (arith, unseen-by_digest s.dag r p d x search.already_ordered e))
]

offer_all-work :
    (s : State) (r : Round) (search : Search) (ps : List Digest)
    → work s (offer_all s r search ps) ≤ work s search
unfolding offer_all
offer_all-work s r search [] = omega arith
offer_all-work s r search (p ∷ ps) =
    omega (arith, offer-work s r search p, offer_all-work s r (offer s r search p) ps)

visit_ends :
    (fuel : ℕ) (s : State) (search : Search)
    → work s search < fuel
    → (out : List Certificate) × (visit fuel s search ≡ some out)
unfolding visit
visit_ends zero s search h = absurd (omega arith)
visit_ends (suc fuel) s search h = elim (List-cases search.buffer) [
  | inl e ↦ ([], rw (e, visit) refl)
  | inr (x, rest, e) ↦
      let popped = record search { buffer = rest } in
      let next = offer_all s (sub_u64 (round x) 1) popped x.header.parents in
      let (out, ends) = visit_ends fuel s next (
        omega
          (arith, offer_all-work s (sub_u64 (round x) 1) popped x.header.parents, ap length e)) in
      (x ∷ out, rw (e, visit) (rw ends refl))
]

unseen-nil : (dag : Dag) → unseen [] dag ≡ dag_size dag
unfolding unseen dag_size
unseen-nil [] = refl
unseen-nil ((_, slots) ∷ dag) = omega (arith, whole slots, unseen-nil dag)
  where
    whole : (m : Slots) → unseen_in [] (values m) ≡ length m
    whole [] = refl
    whole ((_, (d, x)) ∷ m) = ap suc (whole m)

-- The walk from any leader ends, whatever the DAG, so `order_dag` returns a list.
pub order_dag_ends :
    (c : Consensus) (leader : Certificate) (s : State)
    → (out : List Certificate) × (order_dag c leader s ≡ some out)
unfolding order_dag
order_dag_ends c leader s =
    let (out, ends) =
      visit_ends (dag_size s.dag + 2) s (start leader) (omega (arith, unseen-nil s.dag)) in
    (
      sort_by_key round
          (retain (λ x. leb s.last_committed_round (add_u64 (round x) c.gc_depth)) out),
      rw ends refl,
    )
