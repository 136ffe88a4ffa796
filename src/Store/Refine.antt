-- ===== src/Store/Refine.antt =====
-- What the task of store/src/lib.rs promises: a map, and a list of the reads that wait.
use bullshark_ubuntu.Base.{
  ℕ, ◌≡◌, refl, ap, sym, ◌∙◌, subst, not, if◌then◌else◌, Option, none, some, List, [], ◌∷◌, ◌++◌,
  map, retain, inl, inr, Bool-cases, Result, ok, err, arith,
}
use bullshark_ubuntu.Core.State.{Bytes, Store, Rocks}
use bullshark_ubuntu.Store.{
  Sender, StoreCommand, write, read, notify_read, Reply, to_read, to_notify_read, same, queue,
  Actor, new, notify, handle, run,
}
use bullshark_ubuntu.Store.Queues.{same→eq, same_join, queue-push_back, queue-remove}

-- One list for all keys, in order of arrival.
pub record Board : Type 0 where
  pub contents : Store
  pub waiting : List (Bytes × Sender)
  pub answers : List Reply

abbrev pub waiting_for : Bytes → List (Bytes × Sender) → List Sender
waiting_for k [] = []
waiting_for k ((j, s) ∷ w) = if same j k then s ∷ waiting_for k w else waiting_for k w

abbrev pub blank : Store → Board
blank db = record { contents = db; waiting = []; answers = [] }

module _ (rocks : Rocks) where
  abbrev pub ask : Bytes → Sender → Result ℕ (Option Bytes) → Board → Board
  ask k s (ok none) b = record b { waiting = b.waiting ++ (k, s) ∷ [] }
  ask k s (ok (some v)) b = record b { answers = b.answers ++ to_notify_read s (ok v) ∷ [] }
  ask k s (err e) b = record b { answers = b.answers ++ to_notify_read s (err e) ∷ [] }

  abbrev pub perform : StoreCommand → Board → Board
  perform (write k v) b = record {
    contents = rocks.put b.contents k v;
    waiting = retain (λ e. not (same e.0 k)) b.waiting;
    answers = b.answers ++ map (λ s. to_notify_read s (ok v)) (waiting_for k b.waiting);
  }
  perform (read k s) b = record b { answers = b.answers ++ to_read s (rocks.get b.contents k) ∷ [] }
  perform (notify_read k s) b = ask k s (rocks.get b.contents k) b

  abbrev pub perform_all : List StoreCommand → Board → Board
  perform_all [] b = b
  perform_all (c ∷ cs) b = perform_all cs (perform c b)

waiting_for-snoc :
    (j k : Bytes) (s : Sender) (w : List (Bytes × Sender))
    → waiting_for j (w ++ (k, s) ∷ [])
      ≡ (if same k j then waiting_for j w ++ s ∷ [] else waiting_for j w)
waiting_for-snoc j k s [] = refl
waiting_for-snoc j k s ((i, t) ∷ w) = ground (arith, waiting_for-snoc j k s w)

waiting_for-retain :
    (j k : Bytes) (w : List (Bytes × Sender))
    → waiting_for j (retain (λ e. not (same e.0 k)) w) ≡ (if same k j then [] else waiting_for j w)
waiting_for-retain j k [] = ground arith
waiting_for-retain j k ((i, t) ∷ w) = elim (Bool-cases (same i k)) [
  | inl e ↦ rw e (ground (arith, waiting_for-retain j k w, ap (λ x. same x j) (same→eq i k e)))
  | inr n ↦ rw n (ground (arith, waiting_for-retain j k w, same_join i j k))
]

-- The same contents and answers, and for each key the same senders in the same order.
abbrev pub Agrees : Actor → Board → Type 0
Agrees a b =
    (a.db ≡ b.contents)
    × (a.replies ≡ b.answers)
    × ((j : Bytes) → queue j a.obligations ≡ waiting_for j b.waiting)

module _ (rocks : Rocks) where
  notify-Agrees :
      (k : Bytes) (s : Sender) (r : Result ℕ (Option Bytes)) (a : Actor) (b : Board)
      → Agrees a b
      → Agrees (notify rocks k s r a) (ask rocks k s r b)
  unfolding notify
  notify-Agrees k s (ok none) a b (d, r, q) = (
    d,
    r,
    λ j.
        queue-push_back j k s a.obligations
        ∙ ap (λ t. if same k j then t ++ s ∷ [] else t) (q j)
        ∙ sym (waiting_for-snoc j k s b.waiting),
  )
  notify-Agrees k s (ok (some v)) a b (d, r, q) =
      (d, ap (λ t. t ++ to_notify_read s (ok v) ∷ []) r, q)
  notify-Agrees k s (err e) a b (d, r, q) = (d, ap (λ t. t ++ to_notify_read s (err e) ∷ []) r, q)

  handle-Agrees :
      (c : StoreCommand) (a : Actor) (b : Board)
      → Agrees a b
      → Agrees (handle rocks c a) (perform rocks c b)
  unfolding handle
  handle-Agrees (write k v) a b (d, r, q) = (
    ap (λ t. rocks.put t k v) d,
    ap (λ t. t ++ map (λ s. to_notify_read s (ok v)) (queue k a.obligations)) r
        ∙ ap (λ t. b.answers ++ map (λ s. to_notify_read s (ok v)) t) (q k),
    λ j.
        queue-remove j k a.obligations
        ∙ ap (λ t. if same k j then [] else t) (q j)
        ∙ sym (waiting_for-retain j k b.waiting),
  )
  handle-Agrees (read k s) a b (d, r, q) = (
    d,
    ap (λ t. t ++ to_read s (rocks.get a.db k) ∷ []) r
        ∙ ap (λ t. b.answers ++ to_read s (rocks.get t k) ∷ []) d,
    q,
  )
  handle-Agrees (notify_read k s) a b (d, r, q) =
      subst (λ t. Agrees (notify rocks k s (rocks.get a.db k) a) (ask rocks k s (rocks.get t k) b))
        d (notify-Agrees k s (rocks.get a.db k) a b (d, r, q))

  run-Agrees :
      (cs : List StoreCommand) (a : Actor) (b : Board)
      → Agrees a b
      → Agrees (run rocks cs a) (perform_all rocks cs b)
  unfolding run
  run-Agrees [] a b h = h
  run-Agrees (c ∷ cs) a b h =
      run-Agrees cs (handle rocks c a) (perform rocks c b) (handle-Agrees c a b h)

  -- Whatever commands the task of the store gets, its contents, its replies and their order are those of a map with one list of all waiting reads, which a write to a key answers in their order of arrival; each queue holds the senders of that list for its key.
  pub store_refines :
      (db : Store) (cs : List StoreCommand)
      → Agrees (run rocks cs (new db)) (perform_all rocks cs (blank db))
  store_refines db cs = run-Agrees cs (new db) (blank db) (refl, refl, λ j. refl)
