-- ===== src/Consensus/Once/Visit.antt =====
-- What `order_dag` returns: each slot once, and below the leader nothing that was committed last.
use bullshark_ubuntu.Base.{
  ℕ, zero, suc, ◌+◌, ◌≤◌, ◌<◌, ◌≡◌, refl, sym, ap, ◌∙◌, subst, ◌⊎◌, inl, inr, ◌||◌, leb, true,
  false, some, List, [], ◌∷◌, ◌++◌, append_assoc, All, All-mono, All_at, All-middle, All-retain,
  All-sort_by_key, List-cases, retain, contains, add_u64, sub_u64, u64_mod, arith, Bool-cases,
  Option-cases, ==_iff, ==_refl,
}
use bullshark_ubuntu.Crypto.{Digest}
use bullshark_ubuntu.Messages.Header.{Round}
use bullshark_ubuntu.Messages.Certificate.{Certificate, round, origin}
use bullshark_ubuntu.Consensus.State.{Dag, State, Consensus}
use bullshark_ubuntu.Consensus.Leaders.{slot, ◌>>=◌}
use bullshark_ubuntu.Consensus.Order.{
  Search, by_digest, is_last_committed, offer, offer_all, visit, dag_size, start, order_dag,
}
use bullshark_ubuntu.Consensus.Once.Slots.{
  in_slot, has_slot, DistinctSlots, DistinctSlots-middle, DistinctSlots-sort, DistinctSlots-retain,
}
use bullshark_ubuntu.Consensus.Once.Wf.{WfDag, by_digest-slot}

-- A certificate of the DAG, not the last one committed of its author.
abbrev pub Fresh : State → Certificate → Type 0
Fresh s y =
    (d : Digest) × (slot s.dag (round y) (origin y) ≡ some (d, y))
    × (is_last_committed s.last_committed y ≡ false)

-- A certificate that the walk from a leader may reach.
pub record Reached (s : State) (leader : Certificate) (y : Certificate) : Type 0 where
  pub no_later : round y ≤ round leader
  pub fits : round y + 2 < u64_mod
  pub below : (y ≡ leader) ⊎ Fresh s y

same_digest :
    (dag : Dag) (x y : Certificate) (d e : Digest)
    → in_slot (round x) (origin x) y ≡ true
    → slot dag (round x) (origin x) ≡ some (d, x)
    → slot dag (round y) (origin y) ≡ some (e, y)
    → d ≡ e
same_digest dag x y d e h p q =
    let er = (==_iff (round x) (round y)).0 (ground arith) in
    let eo = (==_iff (origin x) (origin y)).0 (ground arith) in
    let p' = ap (λ t. slot dag t (origin x)) (sym er) ∙ p in
    let p'' = ap (λ t. slot dag (round y) t) (sym eo) ∙ p' in cc p''

-- One round of the loop that finds the buffer filled.
visit_step :
    (fuel : ℕ) (s : State) (search : Search) (x : Certificate) (rest out : List Certificate)
    → search.buffer ≡ x ∷ rest
    → visit (suc fuel) s search ≡ some out
    → (later : List Certificate) × (visit fuel s
          (offer_all s (sub_u64 (round x) 1) (record search { buffer = rest }) x.header.parents)
        ≡ some later)
      × (x ∷ later ≡ out)
unfolding visit
visit_step fuel s search x rest out e h =
    elim (Option-cases (
      visit fuel s
        (offer_all s (sub_u64 (round x) 1) (record search { buffer = rest }) x.header.parents))) [
          | inl stuck ↦ cc (rw (stuck, ◌>>=◌) at (rw (e, visit) at h))
          | inr (later, next) ↦
              (later, next, unwrap_some (rw (next, ◌>>=◌) at (rw (e, visit) at h)))
        ]
  where
    unwrap_some : {a b : List Certificate} → some a ≡ some b → a ≡ b
    unwrap_some q = cc

module _ (s : State) (wf : WfDag s.dag) (leader : Certificate) where
  -- The digest of a certificate below the leader was recorded when it was pushed.
  record Pushed (digests : List Digest) (y : Certificate) : Type 0 where
    reached : Reached s leader y
    recorded :
        (y ≡ leader)
        ⊎ ((d : Digest) × (slot s.dag (round y) (origin y) ≡ some (d, y))
            × (contains d digests ≡ true))

  record Walk (popped : List Certificate) (search : Search) : Type 0 where
    distinct : DistinctSlots (popped ++ search.buffer)
    pushed : All (Pushed search.already_ordered) (popped ++ search.buffer)

  slot_free :
      (digests : List Digest) (d : Digest) (x : Certificate) (ys : List Certificate)
      → All (Pushed digests) ys
      → contains d digests ≡ false
      → slot s.dag (round x) (origin x) ≡ some (d, x)
      → round x < round leader
      → has_slot (round x) (origin x) ys ≡ false
  slot_free digests d x [] h new at low = refl
  slot_free digests d x (y ∷ ys) h new at low = elim (Bool-cases (in_slot (round x) (origin x) y)) [
    | inl hit ↦ elim h.0.recorded [
      | inl e ↦ absurd (ground (arith, ap round e))
      | inr (d', at', old) ↦
          absurd
            (ground (arith, ap (λ t. contains t digests) (same_digest s.dag x y d d' hit at at')))
    ]
    | inr miss ↦ ground (arith, slot_free digests d x ys h.1 new at low)
  ]

  Pushed-mono :
      (d : Digest) (digests : List Digest) (y : Certificate)
      → Pushed digests y
      → Pushed (d ∷ digests) y
  Pushed-mono d digests y h = record {
    reached = h.reached;
    recorded = elim h.recorded [ inl e ↦ inl e | inr (d', at, old) ↦ inr (d', at, ground arith) ];
  }

  offer-Walk :
      (popped : List Certificate) (search : Search) (r : Round) (p : Digest)
      → (r + 2 < u64_mod → r < round leader)
      → Walk popped search
      → Walk popped (offer s r search p)
  unfolding offer
  offer-Walk popped search r p lower w = elim (Option-cases (by_digest s.dag r p)) [
    | inl e ↦ rw (e, offer) w
    | inr ((d, x), e) ↦
        elim (Bool-cases
          (contains d search.already_ordered || is_last_committed s.last_committed x)) [
            | inl skip ↦ rw (e, skip, offer) w
            | inr take ↦
                let (at_round, at, fits) = by_digest-slot s.dag r p d x wf e in
                let at' = ap (λ t. slot s.dag t (origin x)) at_round ∙ at in
                let low : round x < round leader = omega (arith, lower fits) in
                let free =
                  slot_free search.already_ordered d x (popped ++ search.buffer) w.pushed
                    (ground arith) at' low in
                rw (e, take, offer)
                  (record {
                    distinct = DistinctSlots-middle x popped search.buffer w.distinct free;
                    pushed =
                        All-middle (Pushed (d ∷ search.already_ordered)) popped x search.buffer
                          (record {
                            reached = record {
                              no_later = omega arith;
                              fits = omega arith;
                              below = inr (d, at', ground arith);
                            };
                            recorded = inr (d, at', ground (arith, ==_refl d));
                          })
                          (All-mono (Pushed search.already_ordered)
                            (Pushed (d ∷ search.already_ordered)) (popped ++ search.buffer)
                            (Pushed-mono d search.already_ordered) w.pushed);
                  })
          ]
  ]

  offer_all-Walk :
      (popped : List Certificate) (search : Search) (r : Round) (ps : List Digest)
      → (r + 2 < u64_mod → r < round leader)
      → Walk popped search
      → Walk popped (offer_all s r search ps)
  unfolding offer_all
  offer_all-Walk popped search r [] lower w = w
  offer_all-Walk popped search r (p ∷ ps) lower w =
      offer_all-Walk popped (offer s r search p) r ps lower (offer-Walk popped search r p lower w)

  Walk-pop :
      (popped : List Certificate) (search : Search) (x : Certificate) (rest : List Certificate)
      → search.buffer ≡ x ∷ rest
      → Walk popped search
      → Walk (popped ++ x ∷ []) (record search { buffer = rest })
  Walk-pop popped search x rest e w =
      let move = ap (λ t. popped ++ t) e ∙ sym (append_assoc popped (x ∷ []) rest) in
      record {
        distinct = subst DistinctSlots move w.distinct;
        pushed = subst (All (Pushed search.already_ordered)) move w.pushed;
      }

  visit_lem :
      (fuel : ℕ) (popped : List Certificate) (search : Search) (out : List Certificate)
      → Walk popped search
      → visit fuel s search ≡ some out
      → DistinctSlots (popped ++ out) × All (Reached s leader) (popped ++ out)
  unfolding visit
  visit_lem zero popped search out w h = cc
  visit_lem (suc fuel) popped search out w h = elim (List-cases search.buffer) [
    | inl e ↦
        subst (λ t. DistinctSlots (popped ++ t) × All (Reached s leader) (popped ++ t))
          (unwrap_some (sym (finished e) ∙ h))
          (
            subst (λ t. DistinctSlots (popped ++ t)) e w.distinct,
            All-mono (Pushed search.already_ordered) (Reached s leader) (popped ++ [])
                (λ y q. q.reached)
                (subst (λ t. All (Pushed search.already_ordered) (popped ++ t)) e w.pushed),
          )
    | inr (x, rest, e) ↦
        let r = sub_u64 (round x) 1 in
        let search' = record search { buffer = rest } in
        let again = append_assoc popped (x ∷ []) in
        let walked = Walk-pop popped search x rest e w in
        let at_x =
          (All_at (Pushed search.already_ordered) popped x rest
            (subst (λ t. All (Pushed search.already_ordered) (popped ++ t)) e w.pushed)).reached in
        let (later, next, same) = visit_step fuel s search x rest out e h in
        let result =
          visit_lem fuel (popped ++ x ∷ []) (offer_all s r search' x.header.parents) later
            (offer_all-Walk (popped ++ x ∷ []) search' r x.header.parents
              (λ q. lower (round x) at_x.fits at_x.no_later q) walked)
            next in
        subst (λ t. DistinctSlots t × All (Reached s leader) t)
          (again later ∙ ap (λ t. popped ++ t) same) result
  ]
    where
      lower :
          (r : Round)
          → r + 2 < u64_mod
          → r ≤ round leader
          → sub_u64 r 1 + 2 < u64_mod
          → sub_u64 r 1 < round leader
      lower r small le q = omega arith

      unwrap_some : {a b : List Certificate} → some a ≡ some b → a ≡ b
      unwrap_some q = cc

      finished : search.buffer ≡ [] → visit (suc fuel) s search ≡ some []
      finished e = rw (e, visit) refl

-- On a well-formed DAG, for a leader of a round below the largest by two, what `order_dag` returns has no slot twice, none later than the leader, and below the leader none that is the last committed of its author.
pub order_dag-Reached :
    (c : Consensus) (leader : Certificate) (s : State) (out : List Certificate)
    → WfDag s.dag
    → round leader + 2 < u64_mod
    → order_dag c leader s ≡ some out
    → DistinctSlots out × All (Reached s leader) out
unfolding order_dag
order_dag-Reached c leader s out wf fits h =
    elim (Option-cases (visit (dag_size s.dag + 2) s (start leader))) [
      | inl stuck ↦ cc (rw (stuck, ◌>>=◌) at h)
      | inr (walk, e) ↦
          let (distinct, reached) =
            visit_lem s wf leader (dag_size s.dag + 2) [] (start leader) walk first e in
          let p = λ (x : Certificate). leb s.last_committed_round (add_u64 (round x) c.gc_depth) in
          subst (λ t. DistinctSlots t × All (Reached s leader) t) (unwrap_some (rw (e, ◌>>=◌) at h))
            (
              DistinctSlots-sort (retain p walk) (DistinctSlots-retain p walk distinct),
              All-sort_by_key round (Reached s leader) (retain p walk)
                  (All-retain p (Reached s leader) walk reached),
            )
    ]
  where
    unwrap_some : {a b : List Certificate} → some a ≡ some b → a ≡ b
    unwrap_some q = cc

    first : Walk s wf leader [] (start leader)
    first = record {
      distinct = (refl, tt);
      pushed = (
        record {
          reached = record { no_later = omega arith; fits = fits; below = inl refl };
          recorded = inl refl;
        },
        tt,
      );
    }
