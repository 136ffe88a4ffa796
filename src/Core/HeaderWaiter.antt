-- ===== src/Core/HeaderWaiter.antt =====
-- primary/src/header_waiter.rs: headers that wait for parents or batches. `none` is a panic.
-- When a future of `waiting` ends, which one and with what result, is an event.
use bullshark_ubuntu.Base.{
  ℕ, ◌+◌, ◌-◌, ◌==◌, not, ltb, if◌then◌else◌, is_empty, Option, none, some, List, [], ◌∷◌, ◌++◌,
  map, keys, lookup, insert, unwrap_or, retain, contains, ok, err,
}
use bullshark_ubuntu.Config.{PublicKey, WorkerId, SocketAddr, worker, primary, others_primaries}
use bullshark_ubuntu.Crypto.{Digest}
use bullshark_ubuntu.Messages.Header.{Header, Round}
use bullshark_ubuntu.Core.State.{
  Node, Bytes, PrimaryMessage, certificates_request, WaiterMessage, sync_batches, sync_parents,
  digest_key, batch_key,
}

pub data Request : Type 0 where
  -- `Synchronize`, to one of our workers
  synchronize : SocketAddr → List Digest → PublicKey → Request
  ask_author : SocketAddr → PrimaryMessage → Request
  -- `lucky_broadcast`, with the number of nodes
  ask_some : List SocketAddr → PrimaryMessage → ℕ → Request
  to_core : Header → Request

-- `waiting` has the keys that each future waits for; `cancelled` the headers whose futures were cancelled.
pub record HeaderWaiter : Type 0 where
  pub parent_requests : List (Digest × (Round × ℕ))
  pub batch_requests : List (Digest × Round)
  pub pending : List (Digest × Round)
  pub waiting : List (List Bytes × Header)
  pub cancelled : List Digest
  pub requests : List Request

abbrev pub new : HeaderWaiter
new = record {
  parent_requests = [];
  batch_requests = [];
  pending = [];
  waiting = [];
  cancelled = [];
  requests = [];
}

pub data Event : Type 0 where
  from_synchronizer : WaiterMessage → Event
  finished : Header → Event
  was_cancelled : Header → Event
  storage_failed : Event
  timer : Event

-- The first future for a header ends.
unfoldable pub ended : Header → List (List Bytes × Header) → List (List Bytes × Header)
ended header [] = []
ended header (e ∷ waiting) = if e.1.id == header.id then waiting else e ∷ ended header waiting

module _ (n : Node) (sync_retry_delay sync_retry_nodes : ℕ) where
  -- Record the batches that nobody asked for yet, and group them by worker.
  unfoldable pub new_batches :
      Round
      → List (Digest × WorkerId)
      → List (Digest × Round)
      → List (WorkerId × List Digest)
      → List (Digest × Round) × List (WorkerId × List Digest)
  new_batches round [] known groups = (known, groups)
  new_batches round ((digest, id) ∷ missing) known groups =
      if contains digest (keys known)
      then new_batches round missing known groups
      else new_batches round missing (insert digest round known)
          (insert id (unwrap_or [] (lookup id groups) ++ digest ∷ []) groups)

  unfoldable pub ask_workers : PublicKey → List (WorkerId × List Digest) → Option (List Request)
  ask_workers author [] = some []
  ask_workers author ((id, digests) ∷ groups) = elim (worker n.committee author id) [
    | err _ ↦ none
    | ok addresses ↦ elim (ask_workers author groups) [
      | none ↦ none
      | some rest ↦ some (synchronize addresses.primary_to_worker digests author ∷ rest)
    ]
  ]

  -- Record the parents that nobody asked for yet.
  unfoldable pub new_parents :
      Round
      → ℕ
      → List Digest
      → List (Digest × (Round × ℕ))
      → List Digest
      → List (Digest × (Round × ℕ)) × List Digest
  new_parents round now [] known fresh = (known, fresh)
  new_parents round now (digest ∷ missing) known fresh =
      if contains digest (keys known)
      then new_parents round now missing known fresh
      else new_parents round now missing (insert digest (round, now) known) (fresh ++ digest ∷ [])

  unfoldable pub sync : ℕ → WaiterMessage → HeaderWaiter → Option HeaderWaiter
  unfolding new_batches ask_workers new_parents
  sync now (sync_batches missing header) w =
      let (known, groups) = new_batches header.round missing w.batch_requests [] in
      elim (ask_workers header.author groups) [
        | none ↦ none
        | some asked ↦ some (record w {
          pending = insert header.id header.round w.pending;
          waiting = (map (λ e. batch_key e.0 e.1) missing, header) ∷ w.waiting;
          batch_requests = known;
          requests = w.requests ++ asked;
        })
      ]
  sync now (sync_parents missing header) w =
      let (known, fresh) = new_parents header.round now missing w.parent_requests [] in
      let next = record w {
        pending = insert header.id header.round w.pending;
        waiting = (map digest_key missing, header) ∷ w.waiting;
        parent_requests = known;
      } in
      let asked : Option HeaderWaiter = elim (primary n.committee header.author) [
        | err _ ↦ none
        | ok addresses ↦ some (record next {
          requests =
              w.requests
              ++ ask_author addresses.primary_to_primary (certificates_request fresh n.name) ∷ [];
        })
      ] in
      if is_empty fresh then some next else asked

  -- A header goes back to the core, and its requests are forgotten.
  unfoldable pub deliver : Header → HeaderWaiter → HeaderWaiter
  unfolding ended
  deliver header w = record w {
    pending = retain (λ e. not (e.0 == header.id)) w.pending;
    waiting = ended header w.waiting;
    batch_requests = retain (λ e. not (contains e.0 (keys header.payload))) w.batch_requests;
    parent_requests = retain (λ e. not (contains e.0 header.parents)) w.parent_requests;
    requests = w.requests ++ to_core header ∷ [];
  }

  unfoldable pub retry : ℕ → HeaderWaiter → HeaderWaiter
  retry now w =
      let old = keys (retain (λ e. ltb (e.1.1 + sync_retry_delay) now) w.parent_requests) in
      let addresses = map (λ e. e.1.primary_to_primary) (others_primaries n.committee n.name) in
      record w {
        requests =
            w.requests
            ++ ask_some addresses (certificates_request old n.name) sync_retry_nodes ∷ [];
      }

  unfoldable pub cleanup : Round → HeaderWaiter → HeaderWaiter
  cleanup consensus_round w =
      let gc_round = consensus_round - n.gc_depth in
      if ltb n.gc_depth consensus_round
      then record w {
        cancelled = w.cancelled ++ keys (retain (λ e. not (ltb gc_round e.1)) w.pending);
        pending = retain (λ e. ltb gc_round e.1) w.pending;
        batch_requests = retain (λ e. ltb gc_round e.1) w.batch_requests;
        parent_requests = retain (λ e. ltb gc_round e.1.0) w.parent_requests;
      }
      else w

  abbrev id_of : WaiterMessage → Digest
  id_of (sync_batches missing header) = header.id
  id_of (sync_parents missing header) = header.id

  abbrev cleaned : Round → Option HeaderWaiter → Option HeaderWaiter
  cleaned consensus_round none = none
  cleaned consensus_round (some w) = some (cleanup consensus_round w)

  -- One turn of the loop. A header that is pending already ends it before the cleanup.
  unfoldable pub turn : ℕ → Round → Event → HeaderWaiter → Option HeaderWaiter
  unfolding sync deliver retry cleanup
  turn now consensus_round (from_synchronizer message) w =
      let synced = cleaned consensus_round (sync now message w) in
      if contains (id_of message) (keys w.pending) then some w else synced
  turn now consensus_round (finished header) w = cleaned consensus_round (some (deliver header w))
  turn now consensus_round (was_cancelled header) w =
      cleaned consensus_round (some (record w { waiting = ended header w.waiting }))
  turn now consensus_round storage_failed w = none
  turn now consensus_round timer w = cleaned consensus_round (some (retry now w))
