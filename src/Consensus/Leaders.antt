-- ===== src/Consensus/Leaders.antt =====
-- Leaders and the paths between them, of consensus/src/lib.rs. `none` outside is a panic.
use bullshark_ubuntu.Base.{
  ◌≡◌, refl, ℕ, zero, suc, ◌+◌, ◌-◌, ◌*◌, ◌/◌, ◌%◌, ◌==◌, ◌&&◌, not, Bool, true, false, Option,
  none, some, List, [], ◌∷◌, map, lookup, keys, values, retain, any, contains, length, get_elem?,
  add_u64, u64_mod,
}
use bullshark_ubuntu.Config
use bullshark_ubuntu.Config.{PublicKey}
use bullshark_ubuntu.Crypto.{Digest}
use bullshark_ubuntu.Messages.Header.{Round}
use bullshark_ubuntu.Messages.Certificate.{Certificate, round, eq}
use bullshark_ubuntu.Consensus.State.{Slots, Dag, State, Consensus}

infixl 5 ◌>>=◌
abbrev pub ◌>>=◌ : {A B : Type 0} → Option A → (A → Option B) → Option B
none >>= f = none
some a >>= f = f a

-- The parts of a chain that did not panic.
pub >>=-eq-some :
    {A B : Type 0} (m : Option A) (f : A → Option B) {b : B}
    → (m >>= f) ≡ some b
    → (a : A) × (m ≡ some a) × (f a ≡ some b)
>>=-eq-some none f h = cc
>>=-eq-some (some a) f h = (a, refl, h)

-- The certificate of one author in one round.
unfoldable pub slot : Dag → Round → PublicKey → Option (Digest × Certificate)
slot dag r name = elim (lookup r dag) [ none ↦ none | some slots ↦ lookup name slots ]

-- The leader of a round, by the round robin of the release build (`seed = round`).
unfoldable pub leader : Consensus → Round → Dag → Option (Option (Digest × Certificate))
unfolding slot
leader c r dag = do name ← Config.leader c.committee r; some (slot dag r name)

-- With no candidate there is no fallback leader.
unfoldable pub slot_of : Dag → Round → Option PublicKey → Option (Digest × Certificate)
unfolding slot
slot_of dag r none = none
slot_of dag r (some name) = slot dag r name

-- `u64::rotate_left(7)`
rotate_left_7 : ℕ → ℕ
rotate_left_7 n = (n * 128) % u64_mod + n / 144115188075855872

unfoldable pub fallback_index : Round → ℕ
unfolding rotate_left_7
fallback_index first_round =
    let wave = (first_round - 2) / 4 in add_u64 ((wave * 0x9E3779B9) % u64_mod) (rotate_left_7 wave)

unfoldable pub fallback_leader : Consensus → Round → Dag → Option (Option (Digest × Certificate))
unfolding slot_of fallback_index
fallback_leader c first_round dag = do
  first_steady ← Config.leader c.committee first_round
  third_steady ← Config.leader c.committee (add_u64 first_round 2)
  let candidates =
      retain (λ a. not (a == first_steady) && not (a == third_steady))
        (keys c.committee.authorities)
  some (
      slot_of dag first_round
        (get_elem? candidates (fallback_index first_round % length candidates)))

-- The certificates of a round that some certificate of the list references.
unfoldable pub referenced : List Certificate → Slots → List Certificate
referenced parents slots =
    map (λ e. e.1) (retain (λ e. any (λ x. contains e.0 x.header.parents) parents) (values slots))

-- The rounds `lo + count - 1` down to `lo`.
unfoldable pub walk : Dag → Round → ℕ → List Certificate → Option (List Certificate)
unfolding referenced
walk dag lo zero parents = some parents
walk dag lo (suc k) parents = elim (lookup (lo + k) dag) [
  | none ↦ none
  | some slots ↦ walk dag lo k (referenced parents slots)
]

unfoldable pub linked : Certificate → Certificate → Dag → Option Bool
unfolding walk eq
linked leader prev_leader dag = do
  parents ← walk dag (round prev_leader) (round leader - round prev_leader) (leader ∷ [])
  some (any (λ x. eq x prev_leader) parents)

-- `(lo..hi).rev().step_by(2)`: `count` rounds below `hi` are left.
unfoldable pub every_second : Round → ℕ → List Round
every_second lo zero = []
every_second lo (suc zero) = lo ∷ []
every_second lo (suc (suc k)) = (lo + suc k) ∷ every_second lo k

unfoldable pub past_leaders : Consensus → Dag → Certificate → List Round → Option (List Certificate)
past_leaders c dag last [] = some []
past_leaders c dag last (r ∷ rs) = do
  found ← leader c r dag
  elim found [
    | none ↦ past_leaders c dag last rs
    | some (_, prev_leader) ↦ do
      path ← linked last prev_leader dag
      elim path [
        | true ↦ do older ← past_leaders c dag prev_leader rs; some (prev_leader ∷ older)
        | false ↦ past_leaders c dag last rs
      ]
  ]

-- The newest leader first.
unfoldable pub order_leaders : Consensus → Certificate → State → Option (List Certificate)
unfolding every_second past_leaders
order_leaders c leader s =
    let lo = add_u64 s.last_committed_round 2 in
    do
      older ← past_leaders c s.dag leader (every_second lo (round leader - lo))
      some (leader ∷ older)
