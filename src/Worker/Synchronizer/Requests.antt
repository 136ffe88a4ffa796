-- ===== src/Worker/Synchronizer/Requests.antt =====
-- What worker/src/synchronizer.rs asks for on a command to synchronize.
use bullshark_ubuntu.Base.{
  ℕ, ◌≡◌, refl, subst, ◌==◌, ==_iff, ==_refl, ◌&&◌, ◌||◌, not, if◌then◌else◌, Bool, true, false,
  Option, none, some, List, [], ◌∷◌, ◌++◌, keys, keys-insert, contains, contains-append, Distinct,
  Result, ok, err, inl, inr, Bool-cases, if_elim, append-nil, arith,
}
use bullshark_ubuntu.Crypto.{Digest}
use bullshark_ubuntu.Messages.Header.{Round}
use bullshark_ubuntu.Core.State.{Bytes, Store, digest_key}
use bullshark_ubuntu.Config.{PublicKey, ConfigError, WorkerAddresses, worker}
use bullshark_ubuntu.Worker.Messages.{batch_request, synchronize}
use bullshark_ubuntu.Worker.Synchronizer.{
  Settings, Effect, sends, Synchronizer, Scan, visit, scan, request, command,
}

abbrev pub absent : Result ℕ (Option Bytes) → Bool
absent (ok none) = true
absent (ok (some v)) = false
absent (err e) = false

abbrev pub readable : Result ℕ (Option Bytes) → Bool
readable (ok v) = true
readable (err e) = false

Distinct-snoc :
    (x : ℕ) (xs : List ℕ) → Distinct xs → contains x xs ≡ false → Distinct (xs ++ x ∷ [])
Distinct-snoc x [] d h = (refl, tt)
Distinct-snoc x (y ∷ xs) d h = (
  ground (arith, contains-append y xs (x ∷ []), ==_iff y x, ==_refl y),
  Distinct-snoc x xs d.1 (ground arith),
)

module _ (c : Settings) (store : Store) (round : Round) (now : ℕ) where
  abbrev pub lookup_of : Digest → Result ℕ (Option Bytes)
  lookup_of d = c.rocks.get store (digest_key d)

  -- A digest after the visit of another or of itself.
  visit_lem :
      (d e : Digest) (r : Result ℕ (Option Bytes)) (s : Scan)
      → (contains d (visit c round now e r s).missing
          ≡ (contains d s.missing || ((d == e) && absent r)))
        × (contains d (keys (visit c round now e r s).known)
            ≡ (contains d (keys s.known) || ((d == e) && readable r)))
  unfolding visit
  visit_lem d e (ok none) s = (
    ground (arith, contains-append d s.missing (e ∷ [])),
    ground (arith, keys-insert e d (round, now) s.known),
  )
  visit_lem d e (ok (some v)) s =
      (ground arith, ground (arith, keys-insert e d (round, now) s.known))
  visit_lem d e (err x) s = (ground arith, ground arith)

  -- Among the missing are only known ones, each once.
  abbrev Fresh : Scan → Type 0
  Fresh s =
      Distinct s.missing
      × ((d : Digest) → contains d s.missing ≡ true → contains d (keys s.known) ≡ true)

  visit-Fresh :
      (e : Digest) (r : Result ℕ (Option Bytes)) (s : Scan)
      → contains e (keys s.known) ≡ false
      → Fresh s
      → Fresh (visit c round now e r s)
  unfolding visit
  visit-Fresh e (ok none) s new (d, k) = (
    Distinct-snoc e s.missing d (ground (arith, k e)),
    λ x h.
        ground
          (arith, k x, contains-append x s.missing (e ∷ []), keys-insert e x (round, now) s.known),
  )
  visit-Fresh e (ok (some v)) s new (d, k) =
      (d, λ x h. ground (arith, k x, keys-insert e x (round, now) s.known))
  visit-Fresh e (err x) s new f = f

  abbrev look : Digest → Scan → Scan
  look e s = if contains e (keys s.known) then s else visit c round now e (lookup_of e) s

  look-Fresh : (e : Digest) (s : Scan) → Fresh s → Fresh (look e s)
  look-Fresh e s f =
      if_elim Fresh (contains e (keys s.known)) s (visit c round now e (lookup_of e) s) (λ _. f)
        (λ new. visit-Fresh e (lookup_of e) s new f)

  -- What one digest of the command changes for any digest.
  abbrev Looked : Digest → Digest → Scan → Scan → Type 0
  Looked d e s t =
      (contains d t.missing ≡ (
        contains d s.missing
        || ((d == e) && (not (contains d (keys s.known)) && absent (lookup_of d)))))
      × (contains d (keys t.known)
          ≡ (contains d (keys s.known) || ((d == e) && readable (lookup_of d))))

  look_lem : (d e : Digest) (s : Scan) → Looked d e s (look e s)
  look_lem d e s = elim (Bool-cases (d == e)) [
    | inl h ↦ subst (λ x. Looked d x s (look x s)) ((==_iff d e).0 h) same
    | inr h ↦
        if_elim (Looked d e s) (contains e (keys s.known)) s (visit c round now e (lookup_of e) s)
          (λ known. ground arith) (λ known. ground (arith, visit_lem d e (lookup_of e) s))
  ]
    where
      same : Looked d d s (look d s)
      same =
          if_elim (Looked d d s) (contains d (keys s.known)) s (visit c round now d (lookup_of d) s)
            (λ known. ground (arith, ==_refl d))
            (λ known. ground (arith, ==_refl d, visit_lem d d (lookup_of d) s))

  absent-readable : (r : Result ℕ (Option Bytes)) → absent r ≡ true → readable r ≡ true
  absent-readable (ok v) h = refl
  absent-readable (err e) h = cc

  abbrev pub Scanned : List Digest → Digest → Scan → Scan → Type 0
  Scanned ds d s t =
      Distinct t.missing
      × (contains d t.missing ≡ (
          contains d s.missing
          || (contains d ds && (not (contains d (keys s.known)) && absent (lookup_of d)))))
      × (contains d (keys t.known)
          ≡ (contains d (keys s.known) || (contains d ds && readable (lookup_of d))))

  scan-Scanned :
      (ds : List Digest) (s : Scan) (d : Digest)
      → Fresh s
      → Scanned ds d s (scan c store round now ds s)
  unfolding scan
  scan-Scanned [] s d f = (f.0, ground arith, ground arith)
  scan-Scanned (e ∷ ds) s d f = ground (
    arith,
    scan-Scanned ds (look e s) d (look-Fresh e s f),
    look_lem d e s,
    absent-readable (lookup_of d),
  )

  abbrev begun : Synchronizer → Scan
  begun w = record { known = w.pending; waiters = w.waiting; missing = [] }

  -- What is asked of the target, by its addresses: one request, or none of an unknown target.
  abbrev pub Sent :
      Result ConfigError WorkerAddresses → List Digest → List Effect → List Effect → Type 0
  Sent (err e) missing before after = after ≡ before
  Sent (ok a) missing before after =
      after ≡ before ++ sends a.worker_to_worker (c.serialize (batch_request missing c.name)) ∷ []

  pub record Asked (ds : List Digest) (target : PublicKey) (w t : Synchronizer) : Type 0 where
    pub missing : List Digest
    pub once : Distinct missing
    pub exactly :
        (d : Digest)
        → contains d missing
          ≡ (contains d ds && (not (contains d (keys w.pending)) && absent (lookup_of d)))
    pub sent : Sent (worker c.committee target c.id) missing w.effects t.effects
    pub pending :
        (d : Digest)
        → contains d (keys t.pending)
          ≡ (contains d (keys w.pending) || (contains d ds && readable (lookup_of d)))

  request-Sent :
      (r : Result ConfigError WorkerAddresses) (missing : List Digest) (effects : List Effect)
      → Sent r missing effects (
          effects ++ (elim r [
            | err _ ↦ []
            | ok a ↦ sends a.worker_to_worker (c.serialize (batch_request missing c.name)) ∷ []
          ]))
  request-Sent (err e) missing effects = append-nil effects
  request-Sent (ok a) missing effects = refl

module _ (c : Settings) where
  -- A command to synchronize sends the target's worker of this id one request, which has each digest once and exactly those of the command that are not pending and that a read of the storage, without failing, does not find; a target that has no such worker is sent nothing. After the command exactly those digests are pending that were, and those of the command that the storage could read.
  pub command_asks :
      (store : Store) (now : ℕ) (ds : List Digest) (target : PublicKey) (w : Synchronizer)
      → Asked c store w.round now ds target w (command c store now (synchronize ds target) w)
  unfolding command request
  command_asks store now ds target w =
      let scanned = λ (d : Digest).
        scan-Scanned c store w.round now ds (begun c store w.round now w) d (tt, λ x h. cc) in
      record {
        missing = (scan c store w.round now ds (begun c store w.round now w)).missing;
        once = (scanned 0).0;
        exactly = λ d. (scanned d).1;
        sent = request-Sent c store w.round now (worker c.committee target c.id) _ w.effects;
        pending = λ d. (scanned d).2;
      }
