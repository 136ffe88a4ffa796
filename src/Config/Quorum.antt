-- ===== src/Config/Quorum.antt =====
-- Quorums: what `quorum_threshold` and `validity_threshold` of config/src/lib.rs are for.
use bullshark_ubuntu.Base.{
  ℕ, ◌+◌, ◌*◌, ◌/◌, ◌≤◌, ◌<◌, ◌≡◌, inl, inr, ◌==◌, if◌then◌else◌, not, Bool, List, [], ◌∷◌, ◌++◌,
  map, lookup, arith, sum, sum_u32-eq-sum, contains, Distinct, retain, Distinct-retain-append,
  Bool-cases, ==_iff, u32_mod, ap,
}
use bullshark_ubuntu.Config.{
  Committee, Authority, PublicKey, Stake, stake, stake_or_zero, stakes, quorum_threshold,
  validity_threshold,
}

-- All the stake of a committee, and the stake of some of its members, as plain numbers.
abbrev pub total : Committee → ℕ
total c = sum (stakes c.authorities)

unfoldable pub weight : Committee → List PublicKey → ℕ
weight c names = sum (map (stake c) names)

abbrev member_stake : List (PublicKey × Authority) → PublicKey → Stake
member_stake m n = stake_or_zero (lookup n m)

-- One entry contributes its stake once to a list without repetitions.
sum_split :
    (k : PublicKey) (a : Authority) (m : List (PublicKey × Authority)) (names : List ℕ)
    → Distinct names
    → sum (map (member_stake ((k, a) ∷ m)) names)
      ≤ (if contains k names then a.stake else 0) + sum (map (member_stake m) names)
sum_split k a m [] d = omega arith
sum_split k a m (n ∷ names) d = elim (Bool-cases (k == n)) [
  | inl e ↦ ground (arith, sum_split k a m names d.1, ap (λ t. contains t names) ((==_iff k n).0 e))
  | inr e ↦ ground (arith, sum_split k a m names d.1)
]

sum_stake-le :
    (m : List (PublicKey × Authority)) (names : List ℕ)
    → Distinct names
    → sum (map (member_stake m) names) ≤ sum (stakes m)
sum_stake-le [] names d = nothing names
  where
    nothing : (ns : List ℕ) → sum (map (member_stake []) ns) ≤ 0
    nothing [] = omega arith
    nothing (n ∷ ns) = omega (arith, nothing ns)
sum_stake-le ((k, a) ∷ m) names d = ground (arith, sum_split k a m names d, sum_stake-le m names d)

pub weight-le-total :
    (c : Committee) (names : List PublicKey) → Distinct names → weight c names ≤ total c
unfolding weight stake
weight-le-total c names d = sum_stake-le c.authorities names d

weight-append :
    (c : Committee) (xs ys : List PublicKey) → weight c (xs ++ ys) ≡ weight c xs + weight c ys
unfolding weight
weight-append c [] ys = omega arith
weight-append c (x ∷ xs) ys = omega (arith, weight-append c xs ys)

weight-retain :
    (c : Committee) (p : PublicKey → Bool) (xs : List PublicKey)
    → weight c (retain p xs) + weight c (retain (λ n. not (p n)) xs) ≡ weight c xs
unfolding weight
weight-retain c p [] = omega arith
weight-retain c p (x ∷ xs) = ground (arith, weight-retain c p xs)

-- Those of the first list that are in the second too.
abbrev pub common : List PublicKey → List PublicKey → List PublicKey
common xs ys = retain (λ n. contains n ys) xs

pub weight-common :
    (c : Committee) (xs ys : List PublicKey)
    → Distinct xs
    → Distinct ys
    → weight c xs + weight c ys ≤ weight c (common xs ys) + total c
weight-common c xs ys dx dy = omega (
  arith,
  weight-retain c (λ n. contains n ys) xs,
  weight-append c (retain (λ n. not (contains n ys)) xs) ys,
  weight-le-total c (retain (λ n. not (contains n ys)) xs ++ ys)
      (Distinct-retain-append (λ n. not (contains n ys)) xs ys dx dy (λ a h. ground arith)),
)

-- The thresholds without overflow.
pub quorum_threshold_lem :
    (c : Committee) → 2 * total c < u32_mod → quorum_threshold c ≡ 2 * total c / 3 + 1
unfolding quorum_threshold
quorum_threshold_lem c h = omega (arith, sum_u32-eq-sum (stakes c.authorities) (omega arith))

pub validity_threshold_lem :
    (c : Committee) → 2 * total c < u32_mod → validity_threshold c ≡ (total c + 2) / 3
unfolding validity_threshold
validity_threshold_lem c h = omega (arith, sum_u32-eq-sum (stakes c.authorities) (omega arith))

-- Two quorums have members in common that hold at least the validity threshold, if twice the total stake is below 2^32 and neither list repeats a name.
pub quorum_intersection :
    (c : Committee) (xs ys : List PublicKey)
    → 2 * total c < u32_mod
    → Distinct xs
    → Distinct ys
    → quorum_threshold c ≤ weight c xs
    → quorum_threshold c ≤ weight c ys
    → validity_threshold c ≤ weight c (common xs ys)
quorum_intersection c xs ys h dx dy qx qy =
    omega (arith, weight-common c xs ys dx dy, quorum_threshold_lem c h, validity_threshold_lem c h)

-- A minority below the validity threshold cannot block a quorum, and a quorum that contains such a minority still holds the validity threshold without it, if twice the total stake is below 2^32.
pub quorum_available :
    (c : Committee) (faulty : ℕ)
    → 2 * total c < u32_mod
    → faulty < validity_threshold c
    → (quorum_threshold c + faulty ≤ total c) × (validity_threshold c + faulty ≤ quorum_threshold c)
quorum_available c faulty h small =
    omega (arith, quorum_threshold_lem c h, validity_threshold_lem c h)
