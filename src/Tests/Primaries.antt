-- ===== src/Tests/Primaries.antt =====
-- Runs of the certificate waiter with the store, and of a worker with its primary.
use bullshark_ubuntu.Base.{
  be_bytes, ◌≡◌, refl, ◌==◌, if◌then◌else◌, All, Bool, true, false, none, some, List, [], ◌∷◌, ◌++◌,
  ok,
}
use bullshark_ubuntu.Messages.Header.{Header}
use bullshark_ubuntu.Messages.Certificate.{Certificate}
use bullshark_ubuntu.Core.State.{Bytes, Store, Node, Core, new, returns, digest_key}
use bullshark_ubuntu.Core.Synchronizer.{missing_payload, deliver_certificate}
use bullshark_ubuntu.Worker.Messages.{Batch}
use bullshark_ubuntu.Store
use bullshark_ubuntu.Store.{Sender, StoreCommand, Actor}
use bullshark_ubuntu.Primary.{notify_reads, suspend, release, joined, Waiting}
use bullshark_ubuntu.Primary.Released.{Releases, parents_release}
use bullshark_ubuntu.Primary.Answered.{Keeps, MadeFor}
use bullshark_ubuntu.Primary.Delivery.{Reachable, starts, suspends, handles, released_delivers}
use bullshark_ubuntu.Primary.Available.{accept_all, messages_of, accepted_payload}
use bullshark_ubuntu.Tests.{four, toy, cert}
use bullshark_ubuntu.Tests.Storages.{memory, memory_reads_back, memory_apart}
use bullshark_ubuntu.Tests.Workers.{worker_bincode, primary_bincode, assumed}

abbrev primary_node : Node
primary_node = record {
  name = 4;
  committee = four;
  gc_depth = 50;
  dalek = toy;
  rocks = memory;
  bincode = record {
    serialize_header = λ h. [];
    serialize_certificate = λ x. [];
    deserialize_certificate = λ b. none;
  };
}

abbrev orphan : Certificate
orphan = cert 2 1 (11 ∷ 12 ∷ 13 ∷ [])

-- The channels 1, 2 and 3 are for the three parents.
abbrev channel_key : Sender → Bytes
channel_key s = if s == 1 then digest_key 11 else if s == 2 then digest_key 12 else digest_key 13

-- One read waits for its key, the others come after the writes.
abbrev store_commands : List StoreCommand
store_commands =
    Store.notify_read (digest_key 11) 1
    ∷ Store.write (digest_key 12) (7 ∷ [])
    ∷ Store.write (digest_key 13) (8 ∷ [])
    ∷ Store.notify_read (digest_key 12) 2
    ∷ Store.notify_read (digest_key 13) 3
    ∷ Store.write (digest_key 11) (9 ∷ [])
    ∷ []

run-Reachable :
    (cs : List StoreCommand) {a : Actor} {w : Waiting}
    → All (MadeFor memory channel_key) cs
    → Reachable memory channel_key a w
    → Reachable memory channel_key (Store.run memory cs a) w
unfolding Store.run
run-Reachable [] m r = r
run-Reachable (c ∷ cs) {a} {w} m r = run-Reachable cs m.1 (handles c a w m.0 r)

abbrev answered : Actor
answered = Store.run memory store_commands (Store.new [])

abbrev pool : Waiting
pool = suspend 1 orphan []

abbrev informed : Core
informed = new answered.db

memory-Keeps : Keeps memory
memory-Keeps = record { reads_back = memory_reads_back; apart = memory_apart }

answered-Reachable : Reachable memory channel_key answered pool
unfolding notify_reads be_bytes
answered-Reachable =
    run-Reachable store_commands (refl, (tt, (tt, (refl, (refl, (tt, tt))))))
      (suspends 1 orphan (Store.new []) [] (refl, (refl, (refl, tt))) (starts []))

released_delivers_example :
    deliver_certificate primary_node orphan informed ≡ returns informed (ok true)
unfolding suspend release joined be_bytes Store.run
released_delivers_example =
    released_delivers primary_node channel_key answered pool orphan [] [] informed
      (record { reads_back = memory_reads_back; apart = memory_apart }) answered-Reachable refl refl

stored_11 : memory.get answered.db (digest_key 11) ≡ ok (some (9 ∷ []))
unfolding Store.run be_bytes
stored_11 = refl

stored_12 : memory.get answered.db (digest_key 12) ≡ ok (some (7 ∷ []))
unfolding Store.run be_bytes
stored_12 = refl

stored_13 : memory.get answered.db (digest_key 13) ≡ ok (some (8 ∷ []))
unfolding Store.run be_bytes
stored_13 = refl

parents_release_example :
    Releases (release answered.replies (suspend 4 (cert 2 2 (14 ∷ [])) [] ++ suspend 1 orphan []))
unfolding suspend notify_reads be_bytes
parents_release_example =
    parents_release memory (λ db k e h. cc) store_commands [] 1 orphan
      (suspend 4 (cert 2 2 (14 ∷ [])) []) [] memory-Keeps (refl, (refl, (refl, tt)))
      ((9 ∷ [], stored_11), ((7 ∷ [], stored_12), ((8 ∷ [], stored_13), tt)))

-- The report for the first batch is lost.
abbrev sent_batches : List (Batch × Bool)
sent_batches = ((1 ∷ 2 ∷ []) ∷ [], false) ∷ ((3 ∷ []) ∷ (4 ∷ []) ∷ [], true) ∷ []

-- Refers to the second batch, whose digest is the sum of 4, 0, 5 and 0.
abbrev referring : Header
referring = record {
  author = 1;
  round = 1;
  payload = (9, 0) ∷ [];
  parents = [];
  id = 0;
  signature = 0;
}

accepted_payload_example :
    (stored : Store) × (next : Store) × (accept_all worker_bincode primary_bincode memory
        primary_node 99 0
        (messages_of worker_bincode primary_bincode memory primary_node 99 0 assumed sent_batches)
        []
        []
      ≡ some (stored, next))
    × (missing_payload primary_node referring (record (new []) { store = next })
        ≡ returns (record (new []) { store = next }) (ok false))
accepted_payload_example =
    accepted_payload worker_bincode primary_bincode memory primary_node 99 0 assumed sent_batches []
      [] referring (new []) ((refl, refl), tt)
