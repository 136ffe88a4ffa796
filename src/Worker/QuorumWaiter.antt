-- ===== src/Worker/QuorumWaiter.antt =====
-- worker/src/quorum_waiter.rs: a batch is delivered when a quorum acknowledged it.
use bullshark_ubuntu.Base.{
  ◌+◌, ◌<◌, ◌≡◌, refl, leb, ◌&&◌, not, is_empty, if◌then◌else◌, Bool, true, false, List, [], ◌∷◌,
  map, sum, add_u32, u32_mod, arith,
}
use bullshark_ubuntu.Config.{Committee, PublicKey, Stake, stake, quorum_threshold}

-- The names are those of the other workers, in the order of their acknowledgements.
unfoldable pub wait : Committee → Stake → List PublicKey → Bool
wait committee total_stake [] = false
wait committee total_stake (name ∷ names) =
    let more = wait committee (add_u32 total_stake (stake committee name)) names in
    if leb (quorum_threshold committee) (add_u32 total_stake (stake committee name))
    then true
    else more

abbrev pub acknowledged : Committee → List PublicKey → Stake
acknowledged committee names = sum (map (stake committee) names)

-- A worker delivers a batch if and only if at least one other worker acknowledges it and the worker's own stake and that of all who acknowledge it reach the quorum threshold, for stakes that together are below 2^32.
pub wait_lem :
    (committee : Committee) (own : Stake) (names : List PublicKey)
    → own + acknowledged committee names < u32_mod
    → wait committee own names ≡ (
        not (is_empty names)
        && leb (quorum_threshold committee) (own + acknowledged committee names))
unfolding wait
wait_lem committee own [] small = refl
wait_lem committee own (name ∷ []) small = ground arith
wait_lem committee own (name ∷ next ∷ names) small =
    ground (arith, wait_lem committee (add_u32 own (stake committee name)) (next ∷ names))
