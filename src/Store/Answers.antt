-- ===== src/Store/Answers.antt =====
-- No read that waits in store/src/lib.rs is forgotten.
use bullshark_ubuntu.Base.{
  ℕ, ◌≡◌, refl, ap, ◌∙◌, ◌==◌, ◌&&◌, ◌||◌, Bool, true, false, Option, none, some, List, [], ◌∷◌,
  ◌++◌, map, inl, inr, ◌⊎◌, Bool-cases, Result, ok, err, contains, contains-append, ==_iff, ==_refl,
  arith,
}
use bullshark_ubuntu.Core.State.{Bytes, Store, Rocks}
use bullshark_ubuntu.Store.{
  Sender, StoreCommand, write, read, notify_read, Reply, to_read, to_notify_read, same, queue,
  Actor, new, notify, handle, run,
}
use bullshark_ubuntu.Store.Queues.{same→eq, same_refl, queue-push_back, queue-remove}

-- A sender got the reply to its `notify_read`.
abbrev pub notified : Sender → List Reply → Bool
notified s [] = false
notified s (to_read t r ∷ replies) = notified s replies
notified s (to_notify_read t r ∷ replies) = s == t || notified s replies

-- The sender asked to be notified of the key.
abbrev pub asked : Bytes → Sender → List StoreCommand → Bool
asked k s [] = false
asked k s (write j v ∷ cs) = asked k s cs
asked k s (read j t ∷ cs) = asked k s cs
asked k s (notify_read j t ∷ cs) = (same j k && (s == t)) || asked k s cs

notified-append :
    (s : Sender) (xs ys : List Reply) → notified s (xs ++ ys) ≡ (notified s xs || notified s ys)
notified-append s [] ys = refl
notified-append s (to_read t r ∷ xs) ys = notified-append s xs ys
notified-append s (to_notify_read t r ∷ xs) ys = ground (arith, notified-append s xs ys)

notified-map :
    (s : Sender) (v : Bytes) (q : List Sender)
    → notified s (map (λ t. to_notify_read t (ok v)) q) ≡ contains s q
notified-map s v [] = refl
notified-map s v (t ∷ q) = ground (arith, notified-map s v q)

-- The sender has its reply, or it waits for the key and the database has nothing under it.
abbrev pub Attended : Rocks → Bytes → Sender → Actor → Type 0
Attended rocks k s a =
    (notified s a.replies ≡ true)
    ⊎ ((contains s (queue k a.obligations) ≡ true) × (rocks.get a.db k ≡ ok none))

module _ (rocks : Rocks)
    (apart : (db : Store) (j k v : Bytes)
      → same j k ≡ false
      → rocks.get (rocks.put db j v) k ≡ rocks.get db k) where
  notify-Attended :
      (k j : Bytes) (s t : Sender) (r : Result ℕ (Option Bytes)) (a : Actor)
      → Attended rocks k s a
      → Attended rocks k s (notify rocks j t r a)
  unfolding notify
  notify-Attended k j s t (ok none) a (inl h) = inl h
  notify-Attended k j s t (ok none) a (inr h) = inr (
    ground (
      arith,
      queue-push_back k j t a.obligations,
      contains-append s (queue k a.obligations) (t ∷ []),
    ),
    h.1,
  )
  notify-Attended k j s t (ok (some v)) a (inl h) =
      inl (ground (arith, notified-append s a.replies (to_notify_read t (ok v) ∷ [])))
  notify-Attended k j s t (ok (some v)) a (inr h) = inr h
  notify-Attended k j s t (err e) a (inl h) =
      inl (ground (arith, notified-append s a.replies (to_notify_read t (err e) ∷ [])))
  notify-Attended k j s t (err e) a (inr h) = inr h

  handle-Attended :
      (k : Bytes) (s : Sender) (c : StoreCommand) (a : Actor)
      → Attended rocks k s a
      → Attended rocks k s (handle rocks c a)
  unfolding handle
  handle-Attended k s (write j v) a (inl h) = inl (
      ground (
        arith,
        notified-append s a.replies (map (λ t. to_notify_read t (ok v)) (queue j a.obligations)),
      ))
  handle-Attended k s (write j v) a (inr h) = elim (Bool-cases (same j k)) [
    | inl e ↦ inl (
        ground (
          arith,
          notified-append s a.replies (map (λ t. to_notify_read t (ok v)) (queue j a.obligations)),
          notified-map s v (queue j a.obligations),
          ap (λ x. contains s (queue x a.obligations)) (same→eq j k e),
        ))
    | inr e ↦ inr (ground (arith, queue-remove k j a.obligations), apart a.db j k v e ∙ h.1)
  ]
  handle-Attended k s (read j t) a (inl h) =
      inl (ground (arith, notified-append s a.replies (to_read t (rocks.get a.db j) ∷ [])))
  handle-Attended k s (read j t) a (inr h) = inr h
  handle-Attended k s (notify_read j t) a h = notify-Attended k j s t (rocks.get a.db j) a h

  notify_asked :
      (k : Bytes) (s : Sender) (r : Result ℕ (Option Bytes)) (a : Actor)
      → rocks.get a.db k ≡ r
      → Attended rocks k s (notify rocks k s r a)
  unfolding notify
  notify_asked k s (ok none) a e = inr (
    ground (
      arith,
      same_refl k,
      ==_refl s,
      queue-push_back k k s a.obligations,
      contains-append s (queue k a.obligations) (s ∷ []),
    ),
    e,
  )
  notify_asked k s (ok (some v)) a e =
      inl (ground (arith, ==_refl s, notified-append s a.replies (to_notify_read s (ok v) ∷ [])))
  notify_asked k s (err x) a e =
      inl (ground (arith, ==_refl s, notified-append s a.replies (to_notify_read s (err x) ∷ [])))

  run-Attended :
      (k : Bytes) (s : Sender) (cs : List StoreCommand) (a : Actor)
      → Attended rocks k s a
      → Attended rocks k s (run rocks cs a)
  unfolding run
  run-Attended k s [] a h = h
  run-Attended k s (c ∷ cs) a h = run-Attended k s cs (handle rocks c a) (handle-Attended k s c a h)

  asked-Attended :
      (k : Bytes) (s : Sender) (cs : List StoreCommand) (a : Actor)
      → asked k s cs ≡ true
      → Attended rocks k s (run rocks cs a)
  unfolding run handle
  asked-Attended k s [] a h = cc
  asked-Attended k s (write j v ∷ cs) a h = asked-Attended k s cs (handle rocks (write j v) a) h
  asked-Attended k s (read j t ∷ cs) a h = asked-Attended k s cs (handle rocks (read j t) a) h
  asked-Attended k s (notify_read j t ∷ cs) a h = elim (Bool-cases (same j k && (s == t))) [
    | inr e ↦ asked-Attended k s cs (handle rocks (notify_read j t) a) (ground arith)
    | inl e ↦
        run-Attended k s cs (handle rocks (notify_read j t) a)
          (at_once (same→eq j k (ground arith)) ((==_iff s t).0 (ground arith)))
  ]
    where
      at_once : j ≡ k → s ≡ t → Attended rocks k s (notify rocks j t (rocks.get a.db j) a)
      at_once e f = rw (e, ← f) (notify_asked k s (rocks.get a.db k) a refl)

  -- Whoever asked at any time to be notified of a key has its reply, or it waits in the key's queue and the database has nothing under the key: once there is something, or the read fails, none waits any more. A write to one key does not change what the database has under another.
  pub notify_read_answered :
      (k : Bytes) (s : Sender) (cs : List StoreCommand) (db : Store)
      → asked k s cs ≡ true
      → Attended rocks k s (run rocks cs (new db))
  notify_read_answered k s cs db h = asked-Attended k s cs (new db) h
