-- ===== src/Primary/Available.antt =====
-- From a batch that a worker receives to a header that refers to it: the handlers of
-- worker/src/worker.rs and primary/src/primary.rs, the processor, the connector to the primary
-- (worker/src/primary_connector.rs), the payload receiver and the synchronizer of the primary
-- together. The connector's sender is best-effort: whether a report arrives is an input.
use bullshark_ubuntu.Base.{
  ◌≡◌, refl, ap, sym, ◌∙◌, subst, ◌==◌, ==_iff, if◌then◌else◌, Bool, true, false, Option, none,
  some, List, [], ◌∷◌, map, retain, contains, All, All-mono, ok, err, inl, inr, Bool-cases,
}
use bullshark_ubuntu.Config.{WorkerId, SocketAddr}
use bullshark_ubuntu.Crypto.{Digest}
use bullshark_ubuntu.Error.{DagResult}
use bullshark_ubuntu.Messages.Header.{Header}
use bullshark_ubuntu.Core.State.{
  Bytes, Store, Rocks, Node, Core, returns, and_then, ◌>>=◌, pure, read, digest_key, batch_key,
}
use bullshark_ubuntu.Core.Synchronizer.{missing_batches, missing_payload}
use bullshark_ubuntu.Worker.Messages.{
  Batch, batch_message, WorkerPrimaryMessage, others_batch, WorkerBincode,
}
use bullshark_ubuntu.Worker.Handlers.{Delivery, to_processor, to_helper}
use bullshark_ubuntu.Worker.Handlers
use bullshark_ubuntu.Worker.Processor.{batch_digest, process, connect}
use bullshark_ubuntu.Primary.{
  PrimaryBincode, Route, to_core, to_helper, to_proposer, to_payload_receiver, dispatch_worker,
  receive_payload,
}
use bullshark_ubuntu.Store.{same}
use bullshark_ubuntu.Store.Queues.{same→eq}

module _ (worker_bincode : WorkerBincode) (primary_bincode : PrimaryBincode) (worker_rocks : Rocks)
    (n : Node) (primary_address : SocketAddr) (id : WorkerId) where
  -- The primary's storage after a report of its worker.
  unfoldable pub reported : Store → DagResult Route → Option Store
  reported store (ok (to_payload_receiver digest worker_id)) =
      some (receive_payload n.rocks digest worker_id store)
  reported store (ok (to_core message)) = none
  reported store (ok (to_helper missing requestor)) = none
  reported store (ok (to_proposer digest worker_id)) = none
  reported store (err e) = none

  -- The storages of the worker and of the primary after a message of another worker, by whether the
  -- report for it, if there is one, arrives.
  unfoldable pub accepted : Store → Store → Bool → Option Delivery → Option (Store × Store)
  unfolding reported
  accepted worker_store store arrives none = none
  accepted worker_store store arrives (some (to_helper missing requestor)) = none
  accepted worker_store store arrives (some (to_processor batch)) =
      let (stored, message) =
        process worker_bincode n.dalek worker_rocks id false batch worker_store in
      let (address, sent) = connect primary_address message in
      elim (if arrives then reported store (dispatch_worker primary_bincode sent) else some store) [
        | none ↦ none
        | some next ↦ some (stored, next)
      ]

  unfoldable pub accept_all : List (Bytes × Bool) → Store → Store → Option (Store × Store)
  unfolding accepted
  accept_all [] worker_store store = some (worker_store, store)
  accept_all ((message, arrives) ∷ messages) worker_store store =
      elim (accepted worker_store store arrives (Handlers.dispatch_worker worker_bincode message)) [
        | none ↦ none
        | some (stored, next) ↦ accept_all messages stored next
      ]

abbrev pub Known : Rocks → Store → Digest × WorkerId → Type 0
Known rocks store (d, id) = (v : Bytes) × (rocks.get store (batch_key d id) ≡ ok (some v))

-- What bincode and RocksDB do for the code: a message parses to what was serialized, a read returns
-- the last value written under the key, and a write changes no other key.
pub record Assumed (worker_bincode : WorkerBincode) (primary_bincode : PrimaryBincode)
    (rocks : Rocks) : Type 0 where
  pub parses :
      (b : Batch)
      → worker_bincode.deserialize (worker_bincode.serialize (batch_message b))
        ≡ some (batch_message b)
  pub parses_report :
      (m : WorkerPrimaryMessage)
      → primary_bincode.deserialize_report (worker_bincode.serialize_report m) ≡ some m
  pub reads_back :
      (store : Store) (key value : Bytes)
      → rocks.get (rocks.put store key value) key ≡ ok (some value)
  pub apart :
      (store : Store) (j k value : Bytes)
      → same j k ≡ false
      → rocks.get (rocks.put store j value) k ≡ rocks.get store k

module _ (n : Node) where
  missing-Known :
      (payload : List (Digest × WorkerId)) (s : Core)
      → All (Known n.rocks s.store) payload
      → missing_batches n payload s ≡ returns s (ok [])
  unfolding missing_batches read pure ◌>>=◌ and_then
  missing-Known [] s a = refl
  missing-Known ((d, id) ∷ rest) s ((v, e), a) = rw (e, missing-Known rest s a, and_then) refl

  payload-Known :
      (header : Header) (s : Core)
      → All (Known n.rocks s.store) header.payload
      → missing_payload n header s ≡ returns s (ok false)
  unfolding missing_payload pure ◌>>=◌ and_then
  payload-Known header s a = elim (Bool-cases (header.author == n.name)) [
    | inl e ↦ rw e refl
    | inr e ↦ rw (e, missing-Known header.payload s a) refl
  ]

  receive-Known :
      {worker_bincode : WorkerBincode} {primary_bincode : PrimaryBincode}
      → Assumed worker_bincode primary_bincode n.rocks
      → (e : Digest × WorkerId) (d : Digest) (id : WorkerId) (store : Store) → Known n.rocks store e
      → Known n.rocks (receive_payload n.rocks d id store) e
  unfolding receive_payload
  receive-Known h (k, w) d id store (v, known) =
      elim (Bool-cases (same (batch_key d id) (batch_key k w))) [
        | inl e ↦ (
          [],
          subst (λ t. n.rocks.get (n.rocks.put store (batch_key d id) []) t ≡ ok (some []))
              (same→eq _ _ e) (h.reads_back store (batch_key d id) []),
        )
        | inr e ↦ (v, h.apart store (batch_key d id) (batch_key k w) [] e ∙ known)
      ]

module _ (worker_bincode : WorkerBincode) (primary_bincode : PrimaryBincode) (worker_rocks : Rocks)
    (n : Node) (primary_address : SocketAddr) (id : WorkerId)
    (h : Assumed worker_bincode primary_bincode n.rocks) where
  -- The messages with the batches, each with whether the report for it arrives, and the batches of
  -- which it does.
  abbrev pub messages_of : List (Batch × Bool) → List (Bytes × Bool)
  messages_of = map (λ e. (worker_bincode.serialize (batch_message e.0), e.1))

  abbrev pub reached : List (Batch × Bool) → List Batch
  reached bs = map (λ e. e.0) (retain (λ e. e.1) bs)

  -- The digest of a batch under which its worker reports it.
  abbrev pub digest_of : Batch → Digest
  digest_of b = batch_digest n.dalek (worker_bincode.serialize (batch_message b))

  abbrev After : List Batch → Store → Option (Store × Store) → Type 0
  After bs store none = ⊥
  After bs store (some (stored, next)) =
      All (λ b. Known n.rocks next (digest_of b, id)) bs
      × ((e : Digest × WorkerId) → Known n.rocks store e → Known n.rocks next e)

  abbrev delivered : Batch → Bool → Store → Store → Store × Store
  delivered b arrives worker_store store = (
    worker_rocks.put worker_store (digest_key (digest_of b))
        (worker_bincode.serialize (batch_message b)),
    if arrives then receive_payload n.rocks (digest_of b) id store else store,
  )

  accepted_parsed :
      (b : Batch) (arrives : Bool) (worker_store store : Store)
      → accepted worker_bincode primary_bincode worker_rocks n primary_address id worker_store store
          arrives
          (some (to_processor (worker_bincode.serialize (batch_message b))))
        ≡ some (delivered b arrives worker_store store)
  unfolding accepted process connect dispatch_worker reported
  accepted_parsed b true worker_store store =
      rw (h.parses_report (others_batch (digest_of b) id), accepted) refl
  accepted_parsed b false worker_store store = refl

  accepted_batch :
      (b : Batch) (arrives : Bool) (worker_store store : Store)
      → accepted worker_bincode primary_bincode worker_rocks n primary_address id worker_store store
          arrives
          (Handlers.dispatch_worker worker_bincode (worker_bincode.serialize (batch_message b)))
        ≡ some (delivered b arrives worker_store store)
  unfolding Handlers.dispatch_worker
  accepted_batch b arrives worker_store store =
      ap
        (λ m.
          accepted worker_bincode primary_bincode worker_rocks n primary_address id worker_store
            store arrives (Handlers.deliver (worker_bincode.serialize (batch_message b)) m))
        (h.parses b)
      ∙ accepted_parsed b arrives worker_store store

  receive_payload-Known :
      (b : Batch) (store : Store)
      → Known n.rocks (receive_payload n.rocks (digest_of b) id store) (digest_of b, id)
  unfolding receive_payload
  receive_payload-Known b store = ([], h.reads_back store (batch_key (digest_of b) id) [])

  -- One batch more, of which the report arrives or not.
  one_more :
      (b : Batch) (arrives : Bool) (bs : List (Batch × Bool)) (store : Store)
      (r : Option (Store × Store))
      → After
          (reached bs)
          (if arrives then receive_payload n.rocks (digest_of b) id store else store)
          r
      → After (reached ((b, arrives) ∷ bs)) store r
  one_more b arrives bs store none a = a
  one_more b true bs store (some (stored, next)) (all, keeps) = (
    (keeps (digest_of b, id) (receive_payload-Known b store), all),
    λ e k. keeps e (receive-Known n h e (digest_of b) id store k),
  )
  one_more b false bs store (some (stored, next)) a = a

  accept-After :
      (bs : List (Batch × Bool)) (worker_store store : Store)
      → After (reached bs) store (
          accept_all worker_bincode primary_bincode worker_rocks n primary_address id
            (messages_of bs)
            worker_store
            store)
  unfolding accept_all
  accept-After [] worker_store store = (tt, λ e k. k)
  accept-After ((b, arrives) ∷ bs) worker_store store =
      subst
        (λ r. After (reached ((b, arrives) ∷ bs)) store (elim r [
          | none ↦ none
          | some x ↦
              accept_all worker_bincode primary_bincode worker_rocks n primary_address id
                (messages_of bs) x.0 x.1
        ]))
        (sym (accepted_batch b arrives worker_store store))
        (one_more b arrives bs store
          (accept_all worker_bincode primary_bincode worker_rocks n primary_address id
            (messages_of bs) _ _)
          (accept-After bs _ _))

  at_digest :
      {store : Store} (bs : List Batch)
      → All (λ b. Known n.rocks store (digest_of b, id)) bs
      → (d : Digest) (w : WorkerId) → contains d (map digest_of bs) ≡ true
      → w ≡ id
      → Known n.rocks store (d, w)
  at_digest [] known d w c e = cc
  at_digest {store} (b ∷ bs) (k, known) d w c e = elim (Bool-cases (d == digest_of b)) [
    | inl f ↦
        subst (Known n.rocks store)
          (sym (ap (λ t. (t, w)) ((==_iff d (digest_of b)).0 f) ∙ ap (λ t. (digest_of b, t)) e)) k
    | inr f ↦ at_digest bs known d w (rw f at c) e
  ]

  Known-all :
      (bs : List Batch) (payload : List (Digest × WorkerId)) (store : Store)
      → All (λ b. Known n.rocks store (digest_of b, id)) bs
      → All (λ e. (contains e.0 (map digest_of bs) ≡ true) × (e.1 ≡ id)) payload
      → All (Known n.rocks store) payload
  Known-all bs payload store known =
      All-mono _ _ payload (λ e p. at_digest bs known e.0 e.1 p.0 p.1)

  -- Whatever batches other workers send to a worker, and whichever of its reports to its primary arrive, no message is refused on the way, and afterwards the primary does not ask for the payload of a header that refers, at this worker, only to batches of which the report arrived. bincode parses what it serialized; RocksDB reads back what was written last under a key and keeps the other keys.
  pub accepted_payload :
      (bs : List (Batch × Bool)) (worker_store store : Store) (header : Header) (s : Core)
      → All (λ e. (contains e.0 (map digest_of (reached bs)) ≡ true) × (e.1 ≡ id)) header.payload
      → (stored : Store) × (next : Store) × (accept_all worker_bincode primary_bincode worker_rocks
            n primary_address id
            (messages_of bs)
            worker_store
            store
          ≡ some (stored, next))
        × (missing_payload n header (record s { store = next })
            ≡ returns (record s { store = next }) (ok false))
  accepted_payload bs worker_store store header s refers =
      result
        (accept_all worker_bincode primary_bincode worker_rocks n primary_address id
          (messages_of bs) worker_store store)
        refl (accept-After bs worker_store store)
    where
      result :
          (r : Option (Store × Store))
          → accept_all worker_bincode primary_bincode worker_rocks n primary_address id
              (messages_of bs)
              worker_store
              store
            ≡ r
          → After (reached bs) store r
          → (stored : Store) × (next : Store) × (accept_all worker_bincode primary_bincode
                worker_rocks n primary_address id
                (messages_of bs)
                worker_store
                store
              ≡ some (stored, next))
            × (missing_payload n header (record s { store = next })
                ≡ returns (record s { store = next }) (ok false))
      result none e a = absurd a
      result (some (stored, next)) e a = (
        stored,
        next,
        e,
        payload-Known n header (record s { store = next })
            (Known-all (reached bs) header.payload next a.0 refers),
      )
