-- ===== src/Consensus/Pruned.antt =====
-- What the loop of `State::update` of consensus/src/lib.rs does to each slot of the DAG.
use bullshark_ubuntu.Base.{
  ◌≡◌, refl, ap, ◌∙◌, ◌==◌, ==_iff, ==_refl, ◌&&◌, ◌||◌, not, leb, if◌then◌else◌, is_empty, Bool,
  true, false, Option, none, List, [], ◌∷◌, retain, lookup, keys, contains, Distinct, unwrap_or,
  add_u64, inl, inr, Bool-cases, subst, arith,
}
use bullshark_ubuntu.Config.{PublicKey}
use bullshark_ubuntu.Crypto.{Digest}
use bullshark_ubuntu.Messages.Header.{Round}
use bullshark_ubuntu.Messages.Certificate.{Certificate}
use bullshark_ubuntu.Consensus.State.{Dag, Slots, prune_one, prune}

-- The entry of an author in a round.
abbrev pub slot_at : Dag → Round → PublicKey → Option (Digest × Certificate)
slot_at dag r name = lookup name (unwrap_or [] (lookup r dag))

-- An entry of the last committed rounds does not remove the slot.
abbrev pub spares : Round → Round → Round → PublicKey → PublicKey × Round → Bool
spares gc_depth last r name (author, committed) =
    leb last (add_u64 r gc_depth) && (not (name == author) || leb committed r)

lookup-retain_author :
    (name author : PublicKey) (keep : Bool) (m : Slots)
    → lookup name (retain (λ e. not (e.0 == author) || keep) m)
      ≡ (if not (name == author) || keep then lookup name m else none)
lookup-retain_author name author keep [] = ground arith
lookup-retain_author name author keep ((k, v) ∷ m) = ground (
  arith,
  lookup-retain_author name author keep m,
  ==_iff k author,
  ==_iff k name,
  ==_iff name author,
)

lookup_empty : (name : PublicKey) (m : Slots) → is_empty m ≡ true → lookup name m ≡ none
lookup_empty name [] h = refl
lookup_empty name (e ∷ m) h = cc

prune_one_missing :
    (author : PublicKey) (committed gc_depth last : Round) (dag : Dag) (r : Round)
    → contains r (keys dag) ≡ false
    → lookup r (prune_one author committed gc_depth last dag) ≡ none
unfolding prune_one
prune_one_missing author committed gc_depth last [] r h = refl
prune_one_missing author committed gc_depth last ((k, slots) ∷ dag) r h =
    ground (arith, prune_one_missing author committed gc_depth last dag r, ==_iff k r, ==_iff r k)

prune_one_lem :
    (author : PublicKey) (committed gc_depth last : Round) (dag : Dag) (r : Round)
    (name : PublicKey)
    → Distinct (keys dag)
    → slot_at (prune_one author committed gc_depth last dag) r name
      ≡ (if spares gc_depth last r name (author, committed) then slot_at dag r name else none)
unfolding prune_one
prune_one_lem author committed gc_depth last [] r name d = ground arith
prune_one_lem author committed gc_depth last ((k, slots) ∷ dag) r name d =
    elim (Bool-cases (k == r)) [
      | inl e ↦
          subst
            (λ t. slot_at (prune_one author committed gc_depth last ((k, slots) ∷ dag)) t name ≡ (
              if spares gc_depth last t name (author, committed)
              then slot_at ((k, slots) ∷ dag) t name
              else none))
            ((==_iff k r).0 e) here
      | inr e ↦ elim (Bool-cases (not (is_empty kept) && leb last (add_u64 k gc_depth))) [
        | inl f ↦ rw (f, e) (prune_one_lem author committed gc_depth last dag r name d.1)
        | inr f ↦ rw (f, e) (prune_one_lem author committed gc_depth last dag r name d.1)
      ]
    ]
  where
    kept : Slots
    kept = retain (λ e. not (e.0 == author) || leb committed k) slots

    gone :
        (not (is_empty kept) && leb last (add_u64 k gc_depth)) ≡ false
        → slot_at (prune_one author committed gc_depth last dag) k name
          ≡ (if spares gc_depth last k name (author, committed) then lookup name slots else none)
    gone f =
        ap (λ o. lookup name (unwrap_or [] o))
          (prune_one_missing author committed gc_depth last dag k d.0)
        ∙ ground (
          arith,
          lookup-retain_author name author (leb committed k) slots,
          lookup_empty name kept,
        )

    here : slot_at (prune_one author committed gc_depth last ((k, slots) ∷ dag)) k name ≡ (
        if spares gc_depth last k name (author, committed)
        then slot_at ((k, slots) ∷ dag) k name
        else none)
    here = elim (Bool-cases (not (is_empty kept) && leb last (add_u64 k gc_depth))) [
      | inl f ↦
          rw (f, ==_refl k)
            (ground (arith, lookup-retain_author name author (leb committed k) slots))
      | inr f ↦ rw (f, ==_refl k) (gone f)
    ]

keys-prune_one :
    (author : PublicKey) (committed gc_depth last : Round) (dag : Dag) (r : Round)
    → contains r (keys dag) ≡ false
    → contains r (keys (prune_one author committed gc_depth last dag)) ≡ false
unfolding prune_one
keys-prune_one author committed gc_depth last [] r h = refl
keys-prune_one author committed gc_depth last ((k, slots) ∷ dag) r h =
    ground (arith, keys-prune_one author committed gc_depth last dag r)

prune_one-Distinct :
    (author : PublicKey) (committed gc_depth last : Round) (dag : Dag)
    → Distinct (keys dag)
    → Distinct (keys (prune_one author committed gc_depth last dag))
unfolding prune_one
prune_one-Distinct author committed gc_depth last [] d = tt
prune_one-Distinct author committed gc_depth last ((k, slots) ∷ dag) d = ground (
  arith,
  prune_one-Distinct author committed gc_depth last dag d.1,
  keys-prune_one author committed gc_depth last dag k,
)

-- No entry of the last committed rounds removes the slot.
abbrev pub all_spare : Round → Round → Round → PublicKey → List (PublicKey × Round) → Bool
all_spare gc_depth last r name [] = true
all_spare gc_depth last r name (e ∷ m) =
    spares gc_depth last r name e && all_spare gc_depth last r name m

pub prune_lem :
    (m : List (PublicKey × Round)) (gc_depth last : Round) (dag : Dag) (r : Round)
    (name : PublicKey)
    → Distinct (keys dag)
    → slot_at (prune m gc_depth last dag) r name
      ≡ (if all_spare gc_depth last r name m then slot_at dag r name else none)
unfolding prune
prune_lem [] gc_depth last dag r name d = refl
prune_lem ((author, committed) ∷ m) gc_depth last dag r name d = ground (
  arith,
  prune_lem m gc_depth last (prune_one author committed gc_depth last dag) r name
      (prune_one-Distinct author committed gc_depth last dag d),
  prune_one_lem author committed gc_depth last dag r name d,
)

pub prune-Distinct :
    (m : List (PublicKey × Round)) (gc_depth last : Round) (dag : Dag)
    → Distinct (keys dag)
    → Distinct (keys (prune m gc_depth last dag))
unfolding prune
prune-Distinct [] gc_depth last dag d = d
prune-Distinct ((author, committed) ∷ m) gc_depth last dag d =
    prune-Distinct m gc_depth last (prune_one author committed gc_depth last dag)
      (prune_one-Distinct author committed gc_depth last dag d)
