-- ===== src/Primary/Answered.antt =====
-- The answers of store/src/lib.rs to the reads of primary/src/certificate_waiter.rs: what they say
-- of the database.
use bullshark_ubuntu.Base.{
  ℕ, ◌≡◌, refl, ap, suc, sym, ◌∙◌, subst, ◌==◌, ==_iff, not, Bool, true, false, Option, none, some,
  List, [], ◌∷◌, ◌++◌, map, All, All-append, All-mono, All-retain, if_elim, Result, ok, err, inl,
  inr, Bool-cases,
}
use bullshark_ubuntu.Core.State.{Bytes, Store, Rocks}
use bullshark_ubuntu.Store
use bullshark_ubuntu.Store.{
  Sender, StoreCommand, Reply, to_read, to_notify_read, same, Obligations, queue, push_back, remove,
  Actor, notify, handle, run,
}
use bullshark_ubuntu.Store.Queues.{same→eq}
use bullshark_ubuntu.Primary.{notify_reads, reply_to, join, joined}

abbrev pub Has : Rocks → Store → Bytes → Type 0
Has rocks db k = (v : Bytes) × (rocks.get db k ≡ ok (some v))

-- What RocksDB does: a write succeeds and is read back, and changes no other key.
pub record Keeps (rocks : Rocks) : Type 0 where
  pub reads_back : (db : Store) (k v : Bytes) → rocks.get (rocks.put db k v) k ≡ ok (some v)
  pub apart :
      (db : Store) (j k v : Bytes)
      → same j k ≡ false
      → rocks.get (rocks.put db j v) k ≡ rocks.get db k

put-Has :
    (rocks : Rocks) (db : Store) (j k v : Bytes)
    → Keeps rocks
    → Has rocks db k
    → Has rocks (rocks.put db j v) k
put-Has rocks db j k v h (w, e) = elim (Bool-cases (same j k)) [
  | inl s ↦ (
    v,
    subst (λ t. rocks.get (rocks.put db j v) t ≡ ok (some v)) (same→eq j k s) (h.reads_back db j v),
  )
  | inr s ↦ (w, h.apart db j k v s ∙ e)
]

-- `key_of` is the key for which each one-shot channel was made.
module _ (rocks : Rocks) (key_of : Sender → Bytes) where
  abbrev pub MadeFor : StoreCommand → Type 0
  MadeFor (Store.write k v) = Unit
  MadeFor (Store.read k s) = Unit
  MadeFor (Store.notify_read k s) = key_of s ≡ k

  -- An answer with a value was given when the key was stored.
  abbrev pub Backed : Store → Reply → Type 0
  Backed db (to_read s r) = Unit
  Backed db (to_notify_read s (ok v)) = Has rocks db (key_of s)
  Backed db (to_notify_read s (err e)) = Unit

  abbrev pub QueuedFor : Bytes × List Sender → Type 0
  QueuedFor (k, senders) = All (λ s. key_of s ≡ k) senders

  pub record Sound (a : Actor) : Type 0 where
    pub backed : All (Backed a.db) a.replies
    pub queued : All QueuedFor a.obligations

  put-Backed :
      (db : Store) (k v : Bytes) (r : Reply)
      → Keeps rocks
      → Backed db r
      → Backed (rocks.put db k v) r
  put-Backed db k v (to_read s r) h b = tt
  put-Backed db k v (to_notify_read s (ok w)) h b = put-Has rocks db k (key_of s) v h b
  put-Backed db k v (to_notify_read s (err e)) h b = tt

  push_back-Queued :
      (k : Bytes) (s : Sender) (m : Obligations)
      → key_of s ≡ k
      → All QueuedFor m
      → All QueuedFor (push_back k s m)
  unfolding push_back
  push_back-Queued k s [] e h = ((e, tt), tt)
  push_back-Queued k s ((j, q) ∷ m) e h =
      if_elim (All QueuedFor) (same j k) ((j, q ++ s ∷ []) ∷ m) ((j, q) ∷ push_back k s m)
        (λ f. (All-append (λ t. key_of t ≡ j) q (s ∷ []) h.0 (e ∙ sym (same→eq j k f), tt), h.1))
        (λ f. (h.0, push_back-Queued k s m e h.1))

  queue-Queued :
      (k : Bytes) (m : Obligations) → All QueuedFor m → All (λ s. key_of s ≡ k) (queue k m)
  queue-Queued k [] h = tt
  queue-Queued k ((j, q) ∷ m) h =
      if_elim (All (λ s. key_of s ≡ k)) (same j k) q (queue k m)
        (λ f. subst (λ t. All (λ s. key_of s ≡ t) q) (same→eq j k f) h.0)
        (λ f. queue-Queued k m h.1)

  answers-Backed :
      (db : Store) (k v : Bytes) (q : List Sender)
      → Has rocks db k
      → All (λ s. key_of s ≡ k) q
      → All (Backed db) (map (λ s. to_notify_read s (ok v)) q)
  answers-Backed db k v [] h a = tt
  answers-Backed db k v (s ∷ q) h a =
      (subst (Has rocks db) (sym a.0) h, answers-Backed db k v q h a.1)

  notify-Sound :
      (k : Bytes) (s : Sender) (r : Result ℕ (Option Bytes)) (a : Actor)
      → rocks.get a.db k ≡ r
      → key_of s ≡ k
      → Sound a
      → Sound (notify rocks k s r a)
  unfolding notify
  notify-Sound k s (ok none) a f e i = record {
    backed = i.backed;
    queued = push_back-Queued k s a.obligations e i.queued;
  }
  notify-Sound k s (ok (some v)) a f e i = record {
    backed =
        All-append (Backed a.db) a.replies (to_notify_read s (ok v) ∷ []) i.backed
          (subst (Has rocks a.db) (sym e) (v, f), tt);
    queued = i.queued;
  }
  notify-Sound k s (err x) a f e i = record {
    backed = All-append (Backed a.db) a.replies (to_notify_read s (err x) ∷ []) i.backed (tt, tt);
    queued = i.queued;
  }

  pub handle-Sound :
      (command : StoreCommand) (a : Actor)
      → Keeps rocks
      → MadeFor command
      → Sound a
      → Sound (handle rocks command a)
  unfolding handle remove
  handle-Sound (Store.write k v) a h m i = record {
    backed =
        All-append (Backed (rocks.put a.db k v)) a.replies
          (map (λ s. to_notify_read s (ok v)) (queue k a.obligations))
          (All-mono (Backed a.db) (Backed (rocks.put a.db k v)) a.replies
            (λ r b. put-Backed a.db k v r h b) i.backed)
          (answers-Backed (rocks.put a.db k v) k v (queue k a.obligations)
            (v, h.reads_back a.db k v) (queue-Queued k a.obligations i.queued));
    queued = All-retain (λ e. not (same e.0 k)) QueuedFor a.obligations i.queued;
  }
  handle-Sound (Store.read k s) a h m i = record {
    backed =
        All-append (Backed a.db) a.replies (to_read s (rocks.get a.db k) ∷ []) i.backed (tt, tt);
    queued = i.queued;
  }
  handle-Sound (Store.notify_read k s) a h m i = notify-Sound k s (rocks.get a.db k) a refl m i

  reply_to-Has :
      (db : Store) (s : Sender) (v : Bytes) (rs : List Reply)
      → All (Backed db) rs
      → reply_to s rs ≡ some (ok v)
      → Has rocks db (key_of s)
  reply_to-Has db s v [] b e = cc
  reply_to-Has db s v (to_read t r ∷ rs) b e = reply_to-Has db s v rs b.1 e
  reply_to-Has db s v (to_notify_read t (ok w) ∷ rs) b e = elim (Bool-cases (t == s)) [
    | inl f ↦ subst (λ u. Has rocks db (key_of u)) ((==_iff t s).0 f) b.0
    | inr f ↦ reply_to-Has db s v rs b.1 (rw f at e)
  ]
  reply_to-Has db s v (to_notify_read t (err x) ∷ rs) b e = elim (Bool-cases (t == s)) [
    | inl f ↦ cc (rw f at e)
    | inr f ↦ reply_to-Has db s v rs b.1 (rw f at e)
  ]

  join_done :
      (r : Option (Result ℕ Bytes)) (later : Result ℕ Bool)
      → join r later ≡ ok true
      → ((v : Bytes) × (r ≡ some (ok v))) × (later ≡ ok true)
  join_done (some (err e)) later h = cc
  join_done (some (ok v)) later h = ((v, refl), h)
  join_done none (err e) h = cc
  join_done none (ok b) h = cc

  pub joined-Has :
      (a : Actor) (es : List (Bytes × Sender))
      → Sound a
      → All (λ e. key_of e.1 ≡ e.0) es
      → joined a.replies es ≡ ok true
      → All (Has rocks a.db) (map (λ e. e.0) es)
  unfolding joined
  joined-Has a [] i k h = tt
  joined-Has a ((key, s) ∷ es) i (k, ks) h =
      let ((v, e), later) = join_done (reply_to s a.replies) (joined a.replies es) h in
      (
        subst (Has rocks a.db) k (reply_to-Has a.db s v a.replies i.backed e),
        joined-Has a es i ks later,
      )

handle-Has :
    (rocks : Rocks) (command : StoreCommand) (a : Actor) (k : Bytes)
    → Keeps rocks
    → Has rocks a.db k
    → Has rocks (handle rocks command a).db k
unfolding handle
handle-Has rocks (Store.write j v) a k h e = put-Has rocks a.db j k v h e
handle-Has rocks (Store.read j s) a k h e = e
handle-Has rocks (Store.notify_read j s) a k h e = notified (rocks.get a.db j)
  where
    notified : (r : Result ℕ (Option Bytes)) → Has rocks (notify rocks j s r a).db k
    notified (ok none) = e
    notified (ok (some v)) = e
    notified (err x) = e

pub run-Has :
    (rocks : Rocks) (commands : List StoreCommand) (a : Actor) (k : Bytes)
    → Keeps rocks
    → Has rocks a.db k
    → Has rocks (run rocks commands a).db k
unfolding run
run-Has rocks [] a k h e = e
run-Has rocks (c ∷ cs) a k h e =
    run-Has rocks cs (handle rocks c a) k h (handle-Has rocks c a k h e)

pub notify_reads-keys :
    (next : Sender) (ks : List Bytes) → map (λ e. e.0) (notify_reads next ks) ≡ ks
unfolding notify_reads
notify_reads-keys next [] = refl
notify_reads-keys next (k ∷ ks) = ap (◌∷◌ k) (notify_reads-keys (suc next) ks)
