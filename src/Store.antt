-- ===== src/Store.antt =====
-- store/src/lib.rs: the task that owns the database, and the reads that wait for a key to be written.
pub mod Queues
pub mod Refine
pub mod Answers
use bullshark_ubuntu.Base.{
  ℕ, ◌==◌, ◌&&◌, not, if◌then◌else◌, Bool, true, false, Option, none, some, List, [], ◌∷◌, ◌++◌,
  map, retain, Result, ok, err,
}
use bullshark_ubuntu.Core.State.{Bytes, Store, Rocks}

-- A one-shot channel to whoever sent the command.
abbrev pub Sender : Type 0
Sender = ℕ

pub data StoreCommand : Type 0 where
  write : Bytes → Bytes → StoreCommand
  read : Bytes → Sender → StoreCommand
  notify_read : Bytes → Sender → StoreCommand

pub data Reply : Type 0 where
  to_read : Sender → Result ℕ (Option Bytes) → Reply
  to_notify_read : Sender → Result ℕ Bytes → Reply

-- The equality of keys.
abbrev pub same : Bytes → Bytes → Bool
same [] [] = true
same [] (y ∷ ys) = false
same (x ∷ xs) [] = false
same (x ∷ xs) (y ∷ ys) = x == y && same xs ys

-- A `HashMap` from keys to queues: what stands under a key, `entry(key).or_insert_with(VecDeque::new)`
-- with `push_back`, and `remove`.
abbrev pub Obligations : Type 0
Obligations = List (Bytes × List Sender)

abbrev pub queue : Bytes → Obligations → List Sender
queue k [] = []
queue k ((j, senders) ∷ m) = if same j k then senders else queue k m

unfoldable pub push_back : Bytes → Sender → Obligations → Obligations
push_back k s [] = (k, s ∷ []) ∷ []
push_back k s ((j, senders) ∷ m) =
    if same j k then (j, senders ++ s ∷ []) ∷ m else (j, senders) ∷ push_back k s m

unfoldable pub remove : Bytes → Obligations → Obligations
remove k m = retain (λ e. not (same e.0 k)) m

-- The database, who waits for which key, and the replies, oldest first.
pub record Actor : Type 0 where
  pub db : Store
  pub obligations : Obligations
  pub replies : List Reply

abbrev pub new : Store → Actor
new db = record { db = db; obligations = []; replies = [] }

module _ (rocks : Rocks) where
  -- `NotifyRead`, by what the database has.
  unfoldable pub notify : Bytes → Sender → Result ℕ (Option Bytes) → Actor → Actor
  unfolding push_back
  notify k s (ok none) a = record a { obligations = push_back k s a.obligations }
  notify k s (ok (some v)) a = record a { replies = a.replies ++ to_notify_read s (ok v) ∷ [] }
  notify k s (err e) a = record a { replies = a.replies ++ to_notify_read s (err e) ∷ [] }

  unfoldable pub handle : StoreCommand → Actor → Actor
  unfolding remove notify
  handle (write k v) a = record a {
    db = rocks.put a.db k v;
    obligations = remove k a.obligations;
    replies = a.replies ++ map (λ s. to_notify_read s (ok v)) (queue k a.obligations);
  }
  handle (read k s) a = record a { replies = a.replies ++ to_read s (rocks.get a.db k) ∷ [] }
  handle (notify_read k s) a = notify k s (rocks.get a.db k) a

  unfoldable pub run : List StoreCommand → Actor → Actor
  unfolding handle
  run [] a = a
  run (command ∷ commands) a = run commands (handle command a)
