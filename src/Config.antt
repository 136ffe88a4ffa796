-- ===== src/Config.antt =====
-- config/src/lib.rs: the committee, its stakes and thresholds, the leader and the addresses.
-- A public key is a number (its 32 bytes, most significant first, so `Ord` is the order of
-- numbers), and so is a socket address. A `BTreeMap` and a `HashMap` are association lists.
pub mod Quorum
pub mod Leader
use bullshark_ubuntu.Base.{
  ℕ, ◌+◌, ◌*◌, ◌/◌, ◌%◌, ◌==◌, if◌then◌else◌, not, true, false, Option, none, some, List, [], ◌∷◌,
  map, lookup, keys, values, length, get_elem?, retain, find, Result, ok, err, ok_or, sort_by_key,
  sum_u32, add_u32, u32_mod,
}

abbrev pub PublicKey : Type 0
PublicKey = ℕ

abbrev pub Stake : Type 0
Stake = ℕ

abbrev pub WorkerId : Type 0
WorkerId = ℕ

abbrev pub SocketAddr : Type 0
SocketAddr = ℕ

pub data ConfigError : Type 0 where
  not_in_committee : PublicKey → ConfigError
  unknown_worker : WorkerId → ConfigError

pub record PrimaryAddresses : Type 0 where
  pub primary_to_primary : SocketAddr
  pub worker_to_primary : SocketAddr

pub record WorkerAddresses : Type 0 where
  pub transactions : SocketAddr
  pub worker_to_worker : SocketAddr
  pub primary_to_worker : SocketAddr

pub record Authority : Type 0 where
  pub stake : Stake
  pub primary : PrimaryAddresses
  pub workers : List (WorkerId × WorkerAddresses)

pub record Committee : Type 0 where
  pub authorities : List (PublicKey × Authority)

unfoldable pub size : Committee → ℕ
size c = length c.authorities

-- `map_or_else(|| 0, |x| x.stake)`
abbrev pub stake_or_zero : Option Authority → Stake
stake_or_zero none = 0
stake_or_zero (some a) = a.stake

unfoldable pub stake : Committee → PublicKey → Stake
stake c name = stake_or_zero (lookup name c.authorities)

unfoldable pub others_stake : Committee → PublicKey → List (PublicKey × Stake)
others_stake c myself =
    map (λ e. (e.0, e.1.stake)) (retain (λ e. not (e.0 == myself)) c.authorities)

abbrev pub stakes : List (PublicKey × Authority) → List Stake
stakes = map (λ e. e.1.stake)

unfoldable pub quorum_threshold : Committee → Stake
quorum_threshold c =
    let total_votes = sum_u32 (stakes c.authorities) in add_u32 ((2 * total_votes) % u32_mod / 3) 1

unfoldable pub validity_threshold : Committee → Stake
validity_threshold c = let total_votes = sum_u32 (stakes c.authorities) in add_u32 total_votes 2 / 3

-- `none` is the panic of `% 0` on an empty committee.
unfoldable pub leader : Committee → ℕ → Option PublicKey
unfolding size sort_by_key
leader c seed = get_elem? (sort_by_key (λ k. k) (keys c.authorities)) (seed % size c)

unfoldable pub primary : Committee → PublicKey → Result ConfigError PrimaryAddresses
primary c to = elim (lookup to c.authorities) [
  | none ↦ err (not_in_committee to)
  | some a ↦ ok a.primary
]

unfoldable pub others_primaries : Committee → PublicKey → List (PublicKey × PrimaryAddresses)
others_primaries c myself =
    map (λ e. (e.0, e.1.primary)) (retain (λ e. not (e.0 == myself)) c.authorities)

-- The lookup of a worker of one authority; a missing id is reported as a missing authority.
unfoldable pub worker_of :
    PublicKey → WorkerId → Option Authority → Result ConfigError WorkerAddresses
worker_of to id none = err (not_in_committee to)
worker_of to id (some a) = ok_or (lookup id a.workers) (not_in_committee to)

unfoldable pub worker : Committee → PublicKey → WorkerId → Result ConfigError WorkerAddresses
unfolding worker_of
worker c to id = worker_of to id (lookup to c.authorities)

unfoldable pub our_workers : Committee → PublicKey → Result ConfigError (List WorkerAddresses)
our_workers c myself = elim (lookup myself c.authorities) [
  | none ↦ err (not_in_committee myself)
  | some a ↦ ok (values a.workers)
]

-- The authorities that have a worker with this id, with its addresses.
unfoldable pub with_worker :
    WorkerId → List (PublicKey × Authority) → List (PublicKey × WorkerAddresses)
with_worker id [] = []
with_worker id ((name, a) ∷ rest) = elim (lookup id a.workers) [
  | none ↦ with_worker id rest
  | some addresses ↦ (name, addresses) ∷ with_worker id rest
]

unfoldable pub others_workers :
    Committee → PublicKey → WorkerId → List (PublicKey × WorkerAddresses)
unfolding with_worker
others_workers c myself id = with_worker id (retain (λ e. not (e.0 == myself)) c.authorities)
