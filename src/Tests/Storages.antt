-- ===== src/Tests/Storages.antt =====
-- Runs of the store of store/src/lib.rs and of a connection of network/src/reliable_sender.rs.
use bullshark_ubuntu.Base.{
  ◌≡◌, refl, min, ◌*◌, ◌^◌, true, false, Option, none, some, List, [], ◌∷◌, if◌then◌else◌, ok, map,
  lookup, contains, arith,
}
use bullshark_ubuntu.Network.Broadcast.{Connections, connection, broadcast, broadcast_lem}
use bullshark_ubuntu.Core.State.{Bytes, Store, Rocks}
use bullshark_ubuntu.Store.{StoreCommand, write, read, notify_read, same, new, run}
use bullshark_ubuntu.Store.Refine.{Agrees, perform_all, blank, store_refines}
use bullshark_ubuntu.Store.Answers.{Attended, notify_read_answered}
use bullshark_ubuntu.Store.Queues.{same_refl}
use bullshark_ubuntu.Network.ReliableSender
use bullshark_ubuntu.Network.ReliableSender.{
  Event, sends, cancels, connects, expires, receives, writes, responds, retry_delay,
}
use bullshark_ubuntu.Network.ReliableSender.Order.{Lined, messages_kept}
use bullshark_ubuntu.Network.ReliableSender.Delay.{delay_doubles}

-- The value last written under a key.
abbrev pub value : Bytes → Store → Option Bytes
value k [] = none
value k ((j, v) ∷ db) = if same j k then some v else value k db

abbrev pub memory : Rocks
memory = record { put = λ db k v. (k, v) ∷ db; get = λ db k. ok (value k db) }

pub memory_reads_back : (db : Store) (k v : Bytes) → memory.get (memory.put db k v) k ≡ ok (some v)
memory_reads_back db k v = rw (same_refl k) refl

pub memory_apart :
    (db : Store) (j k v : Bytes)
    → same j k ≡ false
    → memory.get (memory.put db j v) k ≡ memory.get db k
memory_apart db j k v e = rw e refl

-- Two reads wait, of which a write answers one.
abbrev commands : List StoreCommand
commands =
    notify_read (1 ∷ []) 10
    ∷ notify_read (2 ∷ []) 20
    ∷ read (1 ∷ []) 30
    ∷ write (1 ∷ []) (7 ∷ [])
    ∷ notify_read (1 ∷ []) 40
    ∷ []

store_refines_example :
    Agrees (run memory commands (new [])) (perform_all memory commands (blank []))
store_refines_example = store_refines memory [] commands

notify_read_answered_example : Attended memory (1 ∷ []) 10 (run memory commands (new []))
notify_read_answered_example = notify_read_answered memory memory_apart (1 ∷ []) 10 commands [] refl

-- Two messages, one lost connection in which both were sent, and one reply in the next.
abbrev events : List Event
events =
    sends (5 ∷ [])
    ∷ connects false
    ∷ receives
    ∷ expires
    ∷ sends (6 ∷ [])
    ∷ connects true
    ∷ writes true
    ∷ writes true
    ∷ receives
    ∷ writes true
    ∷ writes true
    ∷ responds none
    ∷ connects true
    ∷ writes true
    ∷ writes true
    ∷ writes true
    ∷ responds (some (9 ∷ []))
    ∷ []

messages_kept_example : Lined (ReliableSender.run events ReliableSender.new)
messages_kept_example = messages_kept events

delay_doubles_example :
    (ReliableSender.run events ReliableSender.new).delay
    ≡ min (retry_delay * 2 ^ (ReliableSender.run events ReliableSender.new).retry) 60000
delay_doubles_example = delay_doubles events (omega arith)

-- The first message got its reply, the second waits for one.
after_events :
    ((ReliableSender.run events ReliableSender.new).acked ≡ (0, 9 ∷ []) ∷ [])
    × ((ReliableSender.run events ReliableSender.new).pending_replies ≡ (6 ∷ [], 1) ∷ [])
unfolding ReliableSender.run
after_events = (refl, refl)

abbrev links : Connections
links = (30, ReliableSender.step (sends (5 ∷ [])) ReliableSender.new) ∷ []

broadcast_lem_example :
    (map (λ h. h.0) (broadcast (20 ∷ 30 ∷ []) (7 ∷ []) links).1 ≡ 20 ∷ 30 ∷ [])
    × (lookup 30 (broadcast (20 ∷ 30 ∷ []) (7 ∷ []) links).0 ≡ (
        if contains 30 (20 ∷ 30 ∷ [])
        then some (ReliableSender.step (sends (7 ∷ [])) (connection 30 links))
        else lookup 30 links))
broadcast_lem_example = broadcast_lem (20 ∷ 30 ∷ []) (7 ∷ []) links 30 (refl, (refl, tt))
