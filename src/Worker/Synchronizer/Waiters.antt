-- ===== src/Worker/Synchronizer/Waiters.antt =====
-- The digests that are pending in worker/src/synchronizer.rs and their waiters.
use bullshark_ubuntu.Base.{
  ℕ, ◌-◌, ◌≡◌, refl, ap, ◌==◌, ==_iff, ltb, ◌&&◌, not, if_elim, Bool, false, Option, none, some,
  List, [], ◌∷◌, keys, keys-insert, Distinct-keys-insert, Distinct-keys-retain, keys-retain, retain,
  contains, contains-retain, Distinct, All, Result, ok, err, ◌∙◌, arith,
}
use bullshark_ubuntu.Crypto.{Digest}
use bullshark_ubuntu.Messages.Header.{Round}
use bullshark_ubuntu.Core.State.{Bytes, Store, digest_key}
use bullshark_ubuntu.Worker.Messages.{PrimaryWorkerMessage, synchronize, cleanup, batch_silent}
use bullshark_ubuntu.Worker.Synchronizer.{
  Settings, Synchronizer, new, Scan, visit, scan, command, retry, drop_one, Event, from_primary,
  found, found_late, was_cancelled, storage_failed, failed_late, timer, forget, turn, run,
}

abbrev Pending : Type 0
Pending = List (Digest × (Round × ℕ))

-- No digest is pending twice, none has two waiters that are not cancelled, and those that have one
-- are the pending ones.
abbrev pub Watched : Pending → List Digest → Type 0
Watched pending waiting =
    Distinct (keys pending)
    × Distinct waiting
    × ((d : Digest) → contains d waiting ≡ contains d (keys pending))

keys-forget :
    (d e : Digest) (m : Pending)
    → contains d (keys (forget e m)) ≡ (not (d == e) && contains d (keys m))
keys-forget d e [] = ground arith
keys-forget d e ((k, v) ∷ m) = ground (arith, keys-forget d e m, ==_iff d e, ==_iff k e, ==_iff d k)

contains-drop_one :
    (d e : Digest) (xs : List Digest)
    → Distinct xs
    → contains d (drop_one e xs) ≡ (not (d == e) && contains d xs)
contains-drop_one d e [] u = ground arith
contains-drop_one d e (x ∷ xs) u = ground (
  arith,
  contains-drop_one d e xs u.1,
  ==_iff x e,
  ==_iff d x,
  ==_iff d e,
  ap (λ t. contains t xs) ((==_iff d x).0 _),
)

Distinct-drop_one : (e : Digest) (xs : List Digest) → Distinct xs → Distinct (drop_one e xs)
Distinct-drop_one e [] u = tt
Distinct-drop_one e (x ∷ xs) u =
    ground (arith, Distinct-drop_one e xs u.1, contains-drop_one x e xs u.1)

keys_apart :
    (p : Digest × (Round × ℕ) → Bool) (d : Digest) (m : Pending)
    → Distinct (keys m)
    → contains d (keys (retain p m))
      ≡ (contains d (keys m) && not (contains d (keys (retain (λ e. not (p e)) m))))
keys_apart p d [] u = refl
keys_apart p d ((k, v) ∷ m) u = ground (
  arith,
  keys_apart p d m u.1,
  ap (λ t. contains t (keys m)) ((==_iff d k).0 _),
  keys-retain p d m,
  keys-retain (λ e. not (p e)) d m,
)

Distinct-retain : (p : Digest → Bool) (xs : List Digest) → Distinct xs → Distinct (retain p xs)
Distinct-retain p [] u = tt
Distinct-retain p (x ∷ xs) u = ground (arith, Distinct-retain p xs u.1, contains-retain x p xs)

forget-Watched :
    (e : Digest) (m : Pending) (ws : List Digest)
    → Watched m ws
    → Watched (forget e m) (drop_one e ws)
forget-Watched e m ws (u, v, w) = (
  Distinct-keys-retain (λ x. not (x.0 == e)) m u,
  Distinct-drop_one e ws v,
  λ d. ground (arith, w d, keys-forget d e m, contains-drop_one d e ws v),
)

module _ (c : Settings) where
  abbrev WatchedScan : Scan → Type 0
  WatchedScan s = Watched s.known s.waiters

  visit-Watched :
      (r : Round) (now : ℕ) (e : Digest) (x : Result ℕ (Option Bytes)) (s : Scan)
      → contains e (keys s.known) ≡ false
      → WatchedScan s
      → WatchedScan (visit c r now e x s)
  unfolding visit
  visit-Watched r now e (ok none) s new (u, v, w) = (
    Distinct-keys-insert e (r, now) s.known u,
    (w e ∙ new, v),
    λ d. ground (arith, w d, keys-insert e d (r, now) s.known),
  )
  visit-Watched r now e (ok (some x)) s new (u, v, w) = (
    Distinct-keys-insert e (r, now) s.known u,
    (w e ∙ new, v),
    λ d. ground (arith, w d, keys-insert e d (r, now) s.known),
  )
  visit-Watched r now e (err x) s new h = h

  scan-Watched :
      (store : Store) (r : Round) (now : ℕ) (ds : List Digest) (s : Scan)
      → WatchedScan s
      → WatchedScan (scan c store r now ds s)
  unfolding scan
  scan-Watched store r now [] s h = h
  scan-Watched store r now (e ∷ ds) s h = scan-Watched store r now ds _ (
      if_elim WatchedScan (contains e (keys s.known)) s
        (visit c r now e (c.rocks.get store (digest_key e)) s) (λ _. h)
        (λ new. visit-Watched r now e (c.rocks.get store (digest_key e)) s new h))

  cleaned-Watched :
      (gc_round : Round) (m : Pending) (ws : List Digest)
      → Watched m ws
      → Watched
          (retain (λ e. ltb gc_round e.1.0) m)
          (retain (λ d. not (contains d (keys (retain (λ e. not (ltb gc_round e.1.0)) m)))) ws)
  cleaned-Watched gc_round m ws (u, v, w) = (
    Distinct-keys-retain (λ e. ltb gc_round e.1.0) m u,
    Distinct-retain _ ws v,
    λ d.
        let old = keys (retain (λ e. not (ltb gc_round e.1.0)) m) in
        ground (
          arith,
          w d,
          keys_apart (λ e. ltb gc_round e.1.0) d m u,
          contains-retain d (λ d. not (contains d old)) ws,
        ),
  )

  abbrev WatchedBy : Synchronizer → Type 0
  WatchedBy w = Watched w.pending w.waiting

  command-Watched :
      (store : Store) (now : ℕ) (message : PrimaryWorkerMessage) (w : Synchronizer)
      → WatchedBy w
      → WatchedBy (command c store now message w)
  unfolding command
  command-Watched store now (synchronize digests target) w h =
      scan-Watched store w.round now digests
        (record { known = w.pending; waiters = w.waiting; missing = [] }) h
  command-Watched store now (cleanup round) w h =
      if_elim WatchedBy (ltb round c.gc_depth) (record w { round = round }) _ (λ _. h)
        (λ _. cleaned-Watched (round - c.gc_depth) w.pending w.waiting h)
  command-Watched store now (batch_silent round silent) w h = h

  retry-Watched : (now : ℕ) (w : Synchronizer) → WatchedBy w → WatchedBy (retry c now w)
  unfolding retry
  retry-Watched now w h = if_elim WatchedBy _ w _ (λ _. h) (λ _. h)

  -- Not the failure of a waiter's read.
  abbrev pub NoFailure : Event c → Type 0
  NoFailure (from_primary message) = Unit
  NoFailure (found d) = Unit
  NoFailure (found_late d) = Unit
  NoFailure (was_cancelled d) = Unit
  NoFailure (storage_failed d) = ⊥
  NoFailure (failed_late d) = Unit
  NoFailure timer = Unit

  turn-Watched :
      (store : Store) (now : ℕ) (e : Event c) (w : Synchronizer)
      → NoFailure e
      → WatchedBy w
      → WatchedBy (turn c store now e w)
  unfolding turn
  turn-Watched store now (from_primary message) w n h = command-Watched store now message w h
  turn-Watched store now (found d) w n h = forget-Watched d w.pending w.waiting h
  turn-Watched store now (found_late d) w n h = forget-Watched d w.pending w.waiting h
  turn-Watched store now (was_cancelled d) w n h = h
  turn-Watched store now (storage_failed d) w n h = absurd n
  turn-Watched store now (failed_late d) w n h = h
  turn-Watched store now timer w n h = retry-Watched now w h

  run-Watched :
      (es : List (Store × ℕ × Event c)) (w : Synchronizer)
      → All (λ e. NoFailure e.2) es
      → WatchedBy w
      → WatchedBy (run c es w)
  unfolding run
  run-Watched [] w n h = h
  run-Watched ((store, now, e) ∷ es) w n h =
      run-Watched es (turn c store now e w) n.1 (turn-Watched store now e w n.0 h)

  -- Whatever the primary commands, whatever the storage then has and however the waiters end, unless the read of a waiter that is not cancelled fails: no digest is pending twice, none has two waiters that are not cancelled, and the digests that have such a waiter are exactly the pending ones.
  pub pending-Watched :
      (es : List (Store × ℕ × Event c))
      → All (λ e. NoFailure e.2) es
      → Watched (run c es new).pending (run c es new).waiting
  pending-Watched es n = run-Watched es new n (tt, tt, λ d. refl)
