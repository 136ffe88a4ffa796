-- ===== src/Consensus/Prune.antt =====
-- What `State::update` of consensus/src/lib.rs leaves in the DAG.
use bullshark_ubuntu.Base.{
  ◌≡◌, refl, ap, ◌∙◌, ◌==◌, ==_iff, ==_refl, ◌&&◌, ◌||◌, leb, if◌then◌else◌, is_empty, true, false,
  none, some, List, [], ◌∷◌, lookup, keys, contains, Distinct, unwrap_or, add_u64, inl, inr, arith,
  insert, ◌≤◌, max, values, lookup_missing, lookup-insert, Option-cases, All, All-mono,
  Distinct-keys-insert,
}
use bullshark_ubuntu.Config.{PublicKey}
use bullshark_ubuntu.Messages.Header.{Round}
use bullshark_ubuntu.Messages.Certificate.{Certificate, round, origin}
use bullshark_ubuntu.Consensus.State.{State, commit_round, maximum, update}
use bullshark_ubuntu.Consensus.Pruned.{slot_at, all_spare, prune_lem, prune-Distinct}

-- The last committed round of an author.
abbrev pub committed_of : PublicKey → List (PublicKey × Round) → Round
committed_of name m = unwrap_or 0 (lookup name m)

all_spare_lem :
    (gc_depth last r : Round) (name : PublicKey) (m : List (PublicKey × Round))
    → Distinct (keys m)
    → all_spare gc_depth last r name m
      ≡ ((is_empty m || leb last (add_u64 r gc_depth)) && leb (committed_of name m) r)
all_spare_lem gc_depth last r name [] d = ground arith
all_spare_lem gc_depth last r name ((author, committed) ∷ m) d = ground (
  arith,
  all_spare_lem gc_depth last r name m d.1,
  ==_iff author name,
  ==_iff name author,
  lookup_missing author m d.0,
  ap (λ t. lookup t m) ((==_iff author name).0 _),
)

maximum_bounds : (rs : List Round) → All (λ r. r ≤ maximum rs) rs
unfolding maximum
maximum_bounds [] = tt
maximum_bounds (r ∷ rs) = (
  omega arith,
  All-mono (λ x. x ≤ maximum rs) (λ x. x ≤ max r (maximum rs)) rs (λ x h. omega arith)
      (maximum_bounds rs),
)

maximum_attained : (r : Round) (rs : List Round) → contains (maximum (r ∷ rs)) (r ∷ rs) ≡ true
unfolding maximum
maximum_attained r [] = ground (arith, ==_refl r)
maximum_attained r (x ∷ rs) =
    ground (arith, maximum_attained x rs, ==_refl r, ==_refl (max x (maximum rs)))

commit_round-lookup :
    (name k : PublicKey) (r : Round) (m : List (PublicKey × Round))
    → lookup k (commit_round name r m)
      ≡ (if name == k then some (max (committed_of name m) r) else lookup k m)
unfolding commit_round
commit_round-lookup name k r m = elim (Option-cases (lookup name m)) [
  | inl e ↦ rw e (ground (arith, lookup-insert name k r m))
  | inr (old, e) ↦ rw e (lookup-insert name k (max old r) m)
]

insert_filled :
    (name : PublicKey) (r : Round) (m : List (PublicKey × Round))
    → is_empty (insert name r m) ≡ false
insert_filled name r [] = refl
insert_filled name r ((k, v) ∷ m) = ground arith

commit_round-filled :
    (name : PublicKey) (r : Round) (m : List (PublicKey × Round))
    → is_empty (commit_round name r m) ≡ false
unfolding commit_round
commit_round-filled name r m = insert_filled name _ m

commit_round-Distinct :
    (name : PublicKey) (r : Round) (m : List (PublicKey × Round))
    → Distinct (keys m)
    → Distinct (keys (commit_round name r m))
unfolding commit_round
commit_round-Distinct name r m d = Distinct-keys-insert name _ m d

filled-attained :
    (m : List (PublicKey × Round))
    → is_empty m ≡ false
    → contains (maximum (values m)) (values m) ≡ true
filled-attained [] h = cc
filled-attained ((k, r) ∷ m) h = maximum_attained r (values m)

-- What the cleanup for a certificate `x` changes: the committed round of its author rises to its
-- round at least, the last committed round of all is their highest, and slots are emptied.
pub record Updated (s : State) (x : Certificate) (gc_depth : Round) (t : State) : Type 0 where
  pub committed :
      (name : PublicKey)
      → lookup name t.last_committed ≡ (
          if origin x == name
          then some (max (committed_of (origin x) s.last_committed) (round x))
          else lookup name s.last_committed)
  pub highest : All (λ r. r ≤ t.last_committed_round) (values t.last_committed)
  pub attained : contains t.last_committed_round (values t.last_committed) ≡ true
  pub slots :
      (r : Round) (name : PublicKey)
      → slot_at t.dag r name ≡ (
          if leb t.last_committed_round (add_u64 r gc_depth)
            && leb (committed_of name t.last_committed) r
          then slot_at s.dag r name
          else none)
  pub authors : Distinct (keys t.last_committed)
  pub rounds : Distinct (keys t.dag)

-- After `update` for a certificate, its author's committed round is the higher of what it was, 0 if there was none, and the certificate's round, and those of the others are as before. The last committed round of all is the highest of these. Each slot of the DAG has what it had, if its round with `gc_depth` added, in u64, is not below the last committed round of all, and its round is not below the committed round of its author; else it is empty. No author and no round stands twice, if none did before.
pub update_lem :
    (s : State) (x : Certificate) (gc_depth : Round)
    → Distinct (keys s.dag)
    → Distinct (keys s.last_committed)
    → Updated s x gc_depth (update s x gc_depth)
unfolding update
update_lem s x gc_depth d a = record {
  committed = λ name. commit_round-lookup (origin x) name (round x) s.last_committed;
  highest = maximum_bounds (values m);
  attained = filled-attained m (commit_round-filled (origin x) (round x) s.last_committed);
  slots = λ r name.
      prune_lem m gc_depth last s.dag r name d
      ∙ ap (λ b. if b then slot_at s.dag r name else none)
          (all_spare_lem gc_depth last r name m unique
            ∙ ground (arith, commit_round-filled (origin x) (round x) s.last_committed));
  authors = unique;
  rounds = prune-Distinct m gc_depth last s.dag d;
}
  where
    m : List (PublicKey × Round)
    m = commit_round (origin x) (round x) s.last_committed

    last : Round
    last = maximum (values m)

    unique : Distinct (keys m)
    unique = commit_round-Distinct (origin x) (round x) s.last_committed a
