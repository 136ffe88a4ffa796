-- ===== src/Consensus/State.antt =====
-- The state of consensus/src/lib.rs and its cleanup.
use bullshark_ubuntu.Base.{
  ◌==◌, ◌&&◌, ◌||◌, not, leb, max, if◌then◌else◌, Bool, none, some, List, [], ◌∷◌, map, lookup,
  insert, values, retain, is_empty, add_u64, unwrap_or,
}
use bullshark_ubuntu.Config.{Committee, PublicKey}
use bullshark_ubuntu.Crypto.{Digest, Dalek}
use bullshark_ubuntu.Messages.Header.{Round}
use bullshark_ubuntu.Messages.Certificate
use bullshark_ubuntu.Messages.Certificate.{Certificate, round, origin}

-- The certificates of one round, by author.
abbrev pub Slots : Type 0
Slots = List (PublicKey × (Digest × Certificate))

abbrev pub Dag : Type 0
Dag = List (Round × Slots)

pub record State : Type 0 where
  pub last_committed_round : Round
  pub last_committed : List (PublicKey × Round)
  pub dag : Dag
  pub resolved_fallback_rounds : List Round

-- The fields of `Consensus` that are no channels, what `dynamic_adversary_enabled` reads from the
-- environment, and the hash function of the digests.
pub record Consensus : Type 0 where
  pub committee : Committee
  pub gc_depth : Round
  pub dynamic : Bool
  pub dalek : Dalek

unfoldable pub genesis_slots : Dalek → List Certificate → Slots → Slots
genesis_slots d [] slots = slots
genesis_slots d (x ∷ xs) slots =
    genesis_slots d xs (insert (origin x) (Certificate.digest d x, x) slots)

unfoldable pub new : Dalek → List Certificate → State
unfolding genesis_slots
new d genesis = record {
  last_committed_round = 0;
  last_committed = map (λ e. (e.0, round e.1.1)) (genesis_slots d genesis []);
  dag = (0, genesis_slots d genesis []) ∷ [];
  resolved_fallback_rounds = [];
}

-- `entry(..).and_modify(..).or_insert_with(..)`
unfoldable pub commit_round :
    PublicKey → Round → List (PublicKey × Round) → List (PublicKey × Round)
commit_round name r m = insert name (elim (lookup name m) [ none ↦ r | some old ↦ max old r ]) m

unfoldable pub maximum : List Round → Round
maximum [] = 0
maximum (x ∷ xs) = max x (maximum xs)

-- One pass of the loop: what one authority's entry removes from the DAG.
unfoldable pub prune_one : PublicKey → Round → Round → Round → Dag → Dag
prune_one name committed gc_depth last [] = []
prune_one name committed gc_depth last ((r, authorities) ∷ dag) =
    let rest = prune_one name committed gc_depth last dag in
    let kept = retain (λ e. not (e.0 == name) || leb committed r) authorities in
    if not (is_empty kept) && leb last (add_u64 r gc_depth) then (r, kept) ∷ rest else rest

unfoldable pub prune : List (PublicKey × Round) → Round → Round → Dag → Dag
unfolding prune_one
prune [] gc_depth last dag = dag
prune ((name, committed) ∷ m) gc_depth last dag =
    prune m gc_depth last (prune_one name committed gc_depth last dag)

unfoldable pub update : State → Certificate → Round → State
unfolding commit_round maximum prune
update s certificate gc_depth = record s {
  last_committed = last_committed;
  last_committed_round = last_committed_round;
  dag = prune last_committed gc_depth last_committed_round s.dag;
}
  where
    last_committed : List (PublicKey × Round)
    last_committed = commit_round (origin certificate) (round certificate) s.last_committed

    last_committed_round : Round
    last_committed_round = maximum (values last_committed)

-- `dag.entry(round).or_insert_with(HashMap::new).insert(..)`
unfoldable pub add_certificate : Dalek → State → Certificate → State
add_certificate d s certificate = record s {
  dag =
      insert (round certificate)
        (insert (origin certificate) (Certificate.digest d certificate, certificate)
          (unwrap_or [] (lookup (round certificate) s.dag)))
        s.dag;
}
