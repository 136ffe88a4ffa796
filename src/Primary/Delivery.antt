-- ===== src/Primary/Delivery.antt =====
-- A certificate that primary/src/certificate_waiter.rs gives back has all its parents, when the store
-- answers its reads.
use bullshark_ubuntu.Base.{
  ℕ, ◌≡◌, refl, subst, ◌==◌, any, Bool, true, false, Option, none, some, List, [], ◌∷◌, map, All,
  All-mono, Result, ok, err, inl, inr, Bool-cases,
}
use bullshark_ubuntu.Crypto.{Digest}
use bullshark_ubuntu.Messages.Certificate.{Certificate}
use bullshark_ubuntu.Core.State.{
  Bytes, Store, Rocks, Node, Core, returns, and_then, ◌>>=◌, pure, read, digest_key,
}
use bullshark_ubuntu.Core.Synchronizer.{genesis_digests, deliver, deliver_certificate}
use bullshark_ubuntu.Store
use bullshark_ubuntu.Store.{
  Sender, StoreCommand, Reply, to_read, to_notify_read, same, Obligations, queue, push_back, remove,
  Actor, notify, handle, run,
}
use bullshark_ubuntu.Primary.{Waiting, Polled, held, poll, notify_reads, suspend, joined, release}
use bullshark_ubuntu.Primary.Answered.{
  Has, Keeps, MadeFor, Sound, handle-Sound, joined-Has, notify_reads-keys, run-Has,
}

module _ (rocks : Rocks) (key_of : Sender → Bytes) where
  -- The store and the pool of the waiter in any run. Commands for the store come from all tasks.
  pub data Reachable : Actor → Waiting → Type 0 where
    starts : (db : Store) → Reachable (Store.new db) []
    suspends :
        (next : Sender) (x : Certificate) (a : Actor) (w : Waiting)
        → All (λ e. key_of e.1 ≡ e.0) (notify_reads next (map digest_key x.header.parents))
        → Reachable a w
        → Reachable a (suspend next x w)
    handles :
        (command : StoreCommand) (a : Actor) (w : Waiting)
        → MadeFor rocks key_of command
        → Reachable a w
        → Reachable (handle rocks command a) w
    releases :
        (a : Actor) (w : Waiting) (released : Option Certificate) (rest : Waiting)
        → Reachable a w
        → release a.replies w ≡ ok (released, rest)
        → Reachable a rest

  -- Each future waits for all parents of its certificate.
  abbrev WaitsForParents : List (Bytes × Sender) × Certificate → Type 0
  WaitsForParents (es, x) =
      All (λ e. key_of e.1 ≡ e.0) es × (map (λ e. e.0) es ≡ map digest_key x.header.parents)

  -- The others wait as before, and what is released has its parents.
  abbrev Released : Store → Polled → Type 0
  Released db (err e) = Unit
  Released db (ok (none, rest)) = All WaitsForParents rest
  Released db (ok (some x, rest)) =
      All WaitsForParents rest × All (Has rocks db) (map digest_key x.header.parents)

  held-Released :
      (db : Store) (entry : List (Bytes × Sender) × Certificate) (r : Polled)
      → WaitsForParents entry
      → Released db r
      → Released db (held entry r)
  held-Released db entry (err e) w h = tt
  held-Released db entry (ok (none, rest)) w h = (w, h)
  held-Released db entry (ok (some x, rest)) w h = ((w, h.0), h.1)

  poll-Released :
      (a : Actor) (es : List (Bytes × Sender)) (x : Certificate) (w : Waiting) (later : Polled)
      (r : Result ℕ Bool)
      → Sound rocks key_of a
      → joined a.replies es ≡ r
      → WaitsForParents (es, x)
      → All WaitsForParents w
      → Released a.db later
      → Released a.db (poll (es, x) w later r)
  poll-Released a es x w later (err e) i f k all h = tt
  poll-Released a es x w later (ok true) i f k all h =
      (all, subst (All (Has rocks a.db)) k.1 (joined-Has rocks key_of a es i k.0 f))
  poll-Released a es x w later (ok false) i f k all h = held-Released a.db (es, x) later k h

  release-Released :
      (a : Actor) (w : Waiting)
      → Sound rocks key_of a
      → All WaitsForParents w
      → Released a.db (release a.replies w)
  unfolding release
  release-Released a [] i all = tt
  release-Released a ((es, x) ∷ w) i (k, all) =
      poll-Released a es x w (release a.replies w) (joined a.replies es) i refl k all
        (release-Released a w i all)

  rest-waits :
      (a : Actor) (released : Option Certificate) (rest : Waiting)
      → Released a.db (ok (released, rest))
      → All WaitsForParents rest
  rest-waits a none rest h = h
  rest-waits a (some x) rest h = h.0

  Reachable-Sound :
      {a : Actor} {w : Waiting}
      → Keeps rocks
      → Reachable a w
      → Sound rocks key_of a × All WaitsForParents w
  unfolding suspend
  Reachable-Sound h (starts db) = (record { backed = tt; queued = tt }, tt)
  Reachable-Sound h (suspends next x a w made r) =
      let (i, all) = Reachable-Sound h r in
      (i, ((made, notify_reads-keys next (map digest_key x.header.parents)), all))
  Reachable-Sound h (handles command a w made r) =
      let (i, all) = Reachable-Sound h r in (handle-Sound rocks key_of command a h made i, all)
  Reachable-Sound h (releases a w released rest r e) =
      let (i, all) = Reachable-Sound h r in
      (i, rest-waits a released rest (subst (Released a.db) e (release-Released a w i all)))

module _ (n : Node) where
  deliver-Stored :
      (x : Certificate) (ds : List Digest) (s : Core)
      → All (Has n.rocks s.store) (map digest_key ds)
      → deliver n x ds s ≡ returns s (ok true)
  unfolding deliver read pure ◌>>=◌ and_then
  deliver-Stored x [] s a = refl
  deliver-Stored x (d ∷ ds) s ((v, e), a) =
      elim (Bool-cases (any (λ g. g.0 == d) (genesis_digests n))) [
        | inl f ↦ rw f (deliver-Stored x ds s a)
        | inr f ↦ rw (f, e) (deliver-Stored x ds s a)
      ]

  -- A certificate that the waiter releases has all its parents: whatever commands the store has handled when, and handles later, the core then delivers it and does not give it to the waiter again. Each one-shot channel is made for one key; in RocksDB a write succeeds, is read back, and changes no other key.
  pub released_delivers :
      (key_of : Sender → Bytes) (a : Actor) (w : Waiting) (x : Certificate) (rest : Waiting)
      (later : List StoreCommand) (s : Core)
      → Keeps n.rocks
      → Reachable n.rocks key_of a w
      → release a.replies w ≡ ok (some x, rest)
      → s.store ≡ (run n.rocks later a).db
      → deliver_certificate n x s ≡ returns s (ok true)
  unfolding deliver_certificate
  released_delivers key_of a w x rest later s h r e same =
      let (i, all) = Reachable-Sound n.rocks key_of h r in
      let (_, stored) =
        subst (Released n.rocks key_of a.db) e (release-Released n.rocks key_of a w i all) in
      deliver-Stored x x.header.parents s (
        rw same (
          All-mono (Has n.rocks a.db) (Has n.rocks (run n.rocks later a).db)
            (map digest_key x.header.parents) (λ k. run-Has n.rocks later a k h) stored))
