-- ===== src/Consensus/Once/Wf.antt =====
-- The DAG as a map: keys stand once, and a certificate stands in the slot of its round and author.
use bullshark_ubuntu.Base.{
  ◌+◌, ◌≤◌, ◌<◌, ◌≡◌, refl, sym, ap, ◌∙◌, inl, inr, ◌==◌, ◌&&◌, ◌||◌, not, leb, if◌then◌else◌, Bool,
  true, false, some, List, [], ◌∷◌, contains, Distinct, All, is_empty, lookup, insert, keys, retain,
  unwrap_or, add_u64, u64_mod, arith, Bool-cases, Option-cases, ==_iff, lookup-insert,
  Distinct-keys-insert, lookup_missing, Distinct-keys-retain, lookup-retain, All-retain, All-insert,
  All-lookup, find-values,
}
use bullshark_ubuntu.Config.{PublicKey}
use bullshark_ubuntu.Crypto.{Digest, Dalek}
use bullshark_ubuntu.Messages.Header.{Round}
use bullshark_ubuntu.Messages.Certificate
use bullshark_ubuntu.Messages.Certificate.{Certificate, round, origin}
use bullshark_ubuntu.Consensus.State.{Slots, Dag, State, prune_one, prune, add_certificate}
use bullshark_ubuntu.Consensus.Leaders.{slot}
use bullshark_ubuntu.Consensus.Order.{by_digest}

-- An entry of round `r`; no sum of a round and 2 wraps.
abbrev pub EntryOk : Round → PublicKey × (Digest × Certificate) → Type 0
EntryOk r e = (round e.1.1 ≡ r) × (origin e.1.1 ≡ e.0)

abbrev pub SlotsOk : Round × Slots → Type 0
SlotsOk rs = Distinct (keys rs.1) × All (EntryOk rs.0) rs.1 × (rs.0 + 2 < u64_mod)

abbrev pub WfDag : Dag → Type 0
WfDag dag = Distinct (keys dag) × All SlotsOk dag

-- What a slot holds is a certificate of that round and author.
pub slot_entry :
    (dag : Dag) (r : Round) (n : PublicKey) (d : Digest) (x : Certificate)
    → WfDag dag
    → slot dag r n ≡ some (d, x)
    → (round x ≡ r) × (origin x ≡ n) × (r + 2 < u64_mod)
unfolding slot
slot_entry dag r n d x w h = elim (Option-cases (lookup r dag)) [
  | inl e ↦ cc (rw (e, slot) at h)
  | inr (slots, e) ↦
      let good = All-lookup SlotsOk r slots dag w.1 e in
      let entry = All-lookup (EntryOk r) n (d, x) slots good.1 (rw (e, slot) at h) in
      (entry.0, entry.1, good.2)
]

-- What is found by digest stands in its slot.
pub by_digest-slot :
    (dag : Dag) (r : Round) (p d : Digest) (x : Certificate)
    → WfDag dag
    → by_digest dag r p ≡ some (d, x)
    → (round x ≡ r) × (slot dag r (origin x) ≡ some (d, x)) × (r + 2 < u64_mod)
unfolding by_digest slot
by_digest-slot dag r p d x w h = elim (Option-cases (lookup r dag)) [
  | inl e ↦ cc (rw (e, by_digest) at h)
  | inr (slots, e) ↦
      let good = All-lookup SlotsOk r slots dag w.1 e in
      let (n, at, hit) = find-values (λ f. f.0 == p) (d, x) slots good.0 (rw (e, by_digest) at h) in
      let entry = All-lookup (EntryOk r) n (d, x) slots good.1 at in
      (entry.0, rw (e, slot) (ap (λ t. lookup t slots) entry.1 ∙ at), good.2)
]

module _ (name : PublicKey) (committed gc_depth last : Round) where
  -- The entries that a pass keeps in round `r`.
  abbrev keeps : Round → PublicKey × (Digest × Certificate) → Bool
  keeps r e = not (e.0 == name) || leb committed r

  prune_one-keys :
      (j : Round) (dag : Dag)
      → contains j (keys dag) ≡ false
      → contains j (keys (prune_one name committed gc_depth last dag)) ≡ false
  unfolding prune_one
  prune_one-keys j [] h = refl
  prune_one-keys j ((r, slots) ∷ dag) h = ground (arith, prune_one-keys j dag)

  prune_one-WfDag : (dag : Dag) → WfDag dag → WfDag (prune_one name committed gc_depth last dag)
  unfolding prune_one
  prune_one-WfDag [] w = w
  prune_one-WfDag ((r, slots) ∷ dag) w =
      let rest = prune_one-WfDag dag (w.0.1, w.1.1) in
      let good = w.1.0 in
      elim (Bool-cases (not (is_empty (retain (keeps r) slots)) && leb last (add_u64 r gc_depth))) [
        | inl e ↦ rw e (
          (prune_one-keys r dag w.0.0, rest.0),
          (
            (
              Distinct-keys-retain (keeps r) slots good.0,
              All-retain (keeps r) (EntryOk r) slots good.1,
              good.2,
            ),
            rest.1,
          ),
        )
        | inr e ↦ rw e rest
      ]

  prune_one-lookup :
      (dag : Dag) (r : Round) (kept : Slots)
      → Distinct (keys dag)
      → lookup r (prune_one name committed gc_depth last dag) ≡ some kept
      → (slots : Slots) × (lookup r dag ≡ some slots) × (retain (keeps r) slots ≡ kept)
  unfolding prune_one
  prune_one-lookup [] r kept w h = cc
  prune_one-lookup ((j, slots) ∷ dag) r kept w h =
      elim (Bool-cases (not (is_empty (retain (keeps j) slots)) && leb last (add_u64 j gc_depth))) [
        | inl e ↦ elim (Bool-cases (j == r)) [
          | inl s ↦ (
            slots,
            ground (arith),
            ap (λ t. retain (keeps t) slots) (sym ((==_iff j r).0 s))
                ∙ unwrap_some (rw (e, s) at h),
          )
          | inr s ↦
              let (old, at, k) = prune_one-lookup dag r kept w.1 (rw (e, s) at h) in
              (old, ground arith, k)
        ]
        | inr e ↦
            let (old, at, k) = prune_one-lookup dag r kept w.1 (rw e at h) in
            (
              old,
              elim (Bool-cases (j == r)) [ inl s ↦ absurd (clash old at s) | inr s ↦ rw s at ],
              k,
            )
      ]
    where
      unwrap_some : {a b : Slots} → some a ≡ some b → a ≡ b
      unwrap_some q = cc

      clash : (old : Slots) → lookup r dag ≡ some old → (j == r) ≡ true → ⊥
      clash old at s =
          ground (arith, ap (λ t. lookup t dag) ((==_iff j r).0 s), lookup_missing j dag w.0)

  prune_one-slot :
      (dag : Dag) (r : Round) (n : PublicKey) (e : Digest × Certificate)
      → WfDag dag
      → slot (prune_one name committed gc_depth last dag) r n ≡ some e
      → (slot dag r n ≡ some e) × (keeps r (n, e) ≡ true)
  unfolding slot
  prune_one-slot dag r n e w h =
      elim (Option-cases (lookup r (prune_one name committed gc_depth last dag))) [
        | inl none_left ↦ cc (rw (none_left, slot) at h)
        | inr (kept, found) ↦
            let (slots, at, same) = prune_one-lookup dag r kept w.0 found in
            let good = All-lookup SlotsOk r slots dag w.1 at in
            let (there, passes) =
              lookup-retain (keeps r) n e slots good.0
                (ap (lookup n) same ∙ (rw (found, slot) at h)) in
            (rw (at, slot) there, passes)
      ]

-- What is left in the DAG was there, and is no older than its author's entry.
pub prune-slot :
    (m : List (PublicKey × Round)) (gc_depth last : Round) (dag : Dag) (r : Round) (n : PublicKey)
    (e : Digest × Certificate)
    → WfDag dag
    → slot (prune m gc_depth last dag) r n ≡ some e
    → (slot dag r n ≡ some e) × ((k : Round) → lookup n m ≡ some k → k ≤ r)
unfolding prune
prune-slot [] gc_depth last dag r n e w h = (h, λ k q. cc)
prune-slot ((name, committed) ∷ m) gc_depth last dag r n e w h =
    let (left, older) =
      prune-slot m gc_depth last (prune_one name committed gc_depth last dag) r n e
        (prune_one-WfDag name committed gc_depth last dag w) h in
    let (there, passes) = prune_one-slot name committed gc_depth last dag r n e w left in
    (
      there,
      λ k q. elim (Bool-cases (name == n)) [ inl s ↦ ground arith | inr s ↦ older k (rw s at q) ],
    )

pub prune-WfDag :
    (m : List (PublicKey × Round)) (gc_depth last : Round) (dag : Dag)
    → WfDag dag
    → WfDag (prune m gc_depth last dag)
unfolding prune
prune-WfDag [] gc_depth last dag w = w
prune-WfDag ((name, committed) ∷ m) gc_depth last dag w =
    prune-WfDag m gc_depth last _ (prune_one-WfDag name committed gc_depth last dag w)

round_slots-SlotsOk :
    (r : Round) (dag : Dag) → WfDag dag → r + 2 < u64_mod → SlotsOk (r, unwrap_or [] (lookup r dag))
round_slots-SlotsOk r dag w small = elim (Option-cases (lookup r dag)) [
  | inl e ↦ rw e (tt, tt, small)
  | inr (slots, e) ↦ rw e (All-lookup SlotsOk r slots dag w.1 e)
]

pub add_certificate-WfDag :
    (d : Dalek) (s : State) (x : Certificate)
    → WfDag s.dag
    → round x + 2 < u64_mod
    → WfDag (add_certificate d s x).dag
unfolding add_certificate
add_certificate-WfDag d s x w small =
    let ok = round_slots-SlotsOk (round x) s.dag w small in
    (
      Distinct-keys-insert (round x) _ s.dag w.0,
      All-insert SlotsOk (round x) _ s.dag
          (
            Distinct-keys-insert (origin x) _ _ ok.0,
            All-insert (EntryOk (round x)) (origin x) _ _ (refl, refl) ok.1,
            small,
          )
          w.1,
    )

slot_of_slots :
    (r : Round) (n : PublicKey) (dag : Dag) → lookup n (unwrap_or [] (lookup r dag)) ≡ slot dag r n
unfolding slot
slot_of_slots r n dag = elim (Option-cases (lookup r dag)) [
  | inl e ↦ rw (e, slot) refl
  | inr (slots, e) ↦ rw (e, slot) refl
]

-- The certificate fills its own slot and leaves the others.
pub add_certificate-slot :
    (d : Dalek) (s : State) (x : Certificate) (r : Round) (n : PublicKey)
    → slot (add_certificate d s x).dag r n
      ≡ (if round x == r && origin x == n then some (Certificate.digest d x, x) else slot s.dag r n)
unfolding add_certificate slot
add_certificate-slot d s x r n =
    rw
      (
        lookup-insert (round x) r
            (insert (origin x) (Certificate.digest d x, x) (unwrap_or [] (lookup (round x) s.dag)))
            s.dag,
        slot,
      )
      (elim (Bool-cases (round x == r)) [
        | inl e ↦ rw e (
            lookup-insert (origin x) n (Certificate.digest d x, x)
              (unwrap_or [] (lookup (round x) s.dag))
            ∙ ap (λ t. if origin x == n then some (Certificate.digest d x, x) else t)
                (slot_of_slots (round x) n s.dag
                  ∙ ap (λ t. slot s.dag t n) ((==_iff (round x) r).0 e)))
        | inr e ↦ rw e refl
      ])
