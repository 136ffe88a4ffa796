-- ===== src/Consensus/Order.antt =====
-- `order_dag` of consensus/src/lib.rs: the sub-DAG of a leader in a depth-first walk.
pub mod Termination
use bullshark_ubuntu.Base.{
  ℕ, zero, suc, ◌+◌, ◌==◌, ◌||◌, leb, if◌then◌else◌, Bool, true, false, Option, none, some, List,
  [], ◌∷◌, lookup, values, retain, find, contains, length, add_u64, sub_u64, sort_by_key,
}
use bullshark_ubuntu.Crypto.{Digest}
use bullshark_ubuntu.Messages.Header.{Round}
use bullshark_ubuntu.Messages.Certificate.{Certificate, round, origin}
use bullshark_ubuntu.Consensus.State.{Slots, Dag, State, Consensus}
use bullshark_ubuntu.Consensus.Leaders.{◌>>=◌}

-- The top of the stack `buffer` is the head of the list.
pub record Search : Type 0 where
  pub buffer : List Certificate
  pub already_ordered : List Digest

-- The certificate that the DAG holds under a digest in a round.
unfoldable pub by_digest : Dag → Round → Digest → Option (Digest × Certificate)
by_digest dag r parent = elim (lookup r dag) [
  | none ↦ none
  | some slots ↦ find (λ e. e.0 == parent) (values slots)
]

-- `map_or_else(|| false, |r| r == &certificate.round())`
unfoldable pub is_last_committed : List (ℕ × Round) → Certificate → Bool
is_last_committed m x = elim (lookup (origin x) m) [ none ↦ false | some r ↦ r == round x ]

unfoldable pub offer : State → Round → Search → Digest → Search
unfolding by_digest is_last_committed
offer s r search parent = elim (by_digest s.dag r parent) [
  | none ↦ search
  | some (digest, certificate) ↦
      if contains digest search.already_ordered || is_last_committed s.last_committed certificate
      then search
      else record {
        buffer = certificate ∷ search.buffer;
        already_ordered = digest ∷ search.already_ordered;
      }
]

unfoldable pub offer_all : State → Round → Search → List Digest → Search
unfolding offer
offer_all s r search [] = search
offer_all s r search (parent ∷ parents) = offer_all s r (offer s r search parent) parents

-- The `while` loop, with fuel; `none` if that runs out.
unfoldable pub visit : ℕ → State → Search → Option (List Certificate)
unfolding offer_all
visit zero s search = none
visit (suc fuel) s search = elim search.buffer [
  | [] ↦ some []
  | x ∷ rest ↦ do
    later ←
        visit fuel s
          (offer_all s (sub_u64 (round x) 1) (record search { buffer = rest }) x.header.parents)
    some (x ∷ later)
]

unfoldable pub dag_size : Dag → ℕ
dag_size [] = 0
dag_size ((_, slots) ∷ dag) = length slots + dag_size dag

abbrev pub start : Certificate → Search
start leader = record { buffer = leader ∷ []; already_ordered = [] }

-- The walk pops every certificate of the DAG at most once, and the leader once more.
unfoldable pub order_dag : Consensus → Certificate → State → Option (List Certificate)
unfolding visit dag_size
order_dag c leader s = do
  ordered ← visit (dag_size s.dag + 2) s (start leader)
  some (
      sort_by_key round
        (retain (λ x. leb s.last_committed_round (add_u64 (round x) c.gc_depth)) ordered))
