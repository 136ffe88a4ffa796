-- ===== src/Proposer/Digests.antt =====
-- The batches that primary/src/proposer.rs puts into its headers.
use bullshark_ubuntu.Base.{
  ℕ, ◌≡◌, refl, ap, subst, inl, inr, ◌==◌, ◌&&◌, ◌||◌, not, leb, ltb, is_empty, if_elim, Bool, true,
  false, some, List, [], ◌∷◌, ◌++◌, keys, contains, contains-append, map-append, add_u64, arith,
  Bool-cases, Option-cases, unwrap_some,
}
use bullshark_ubuntu.Config.{WorkerId}
use bullshark_ubuntu.Crypto.{Digest}
use bullshark_ubuntu.Messages.Header
use bullshark_ubuntu.Messages.Header.{Header, Round}
use bullshark_ubuntu.Proposer.{
  Settings, Proposer, Effect, to_core, batch_silent, tree_insert, to_tree, Event, from_core,
  from_workers, from_timer, compute_silence, prepared, prepare_round, next_round, enter,
  make_header, update_leader, update_advance, propose, receive, turns, run, new,
}

-- Whether some header has the digest in its payload.
abbrev pub included : Digest → List Effect → Bool
included d [] = false
included d (to_core h ∷ es) = contains d (keys h.payload) || included d es
included d (batch_silent a r b ∷ es) = included d es

included-append :
    (d : Digest) (es fs : List Effect) → included d (es ++ fs) ≡ (included d es || included d fs)
included-append d [] fs = refl
included-append d (to_core h ∷ es) fs = ground (arith, included-append d es fs)
included-append d (batch_silent a r b ∷ es) fs = included-append d es fs

keys-tree_insert :
    (d k v : ℕ) (m : List (ℕ × ℕ))
    → contains d (keys (tree_insert k v m)) ≡ (d == k || contains d (keys m))
unfolding tree_insert
keys-tree_insert d k v [] = refl
keys-tree_insert d k v ((j, w) ∷ m) = ground (arith, keys-tree_insert d k v m)

keys-to_tree :
    (d : ℕ) (m xs : List (ℕ × ℕ))
    → contains d (keys (to_tree m xs)) ≡ (contains d (keys m) || contains d (keys xs))
unfolding to_tree
keys-to_tree d m [] = ground arith
keys-to_tree d m ((k, v) ∷ xs) =
    ground (arith, keys-to_tree d (tree_insert k v m) xs, keys-tree_insert d k v m)

-- In a header, or waiting to be put into the next one.
abbrev pub carried : Digest → Proposer → Bool
carried d p = included d p.effects || contains d (keys p.digests)

module _ (c : Settings) (d : Digest) where
  abbrev Same : Proposer → Proposer → Type 0
  Same p q = (q.digests ≡ p.digests) × (included d q.effects ≡ included d p.effects)

  abbrev Carries : Proposer → Type 0
  Carries p = carried d p ≡ true

  Same-Carries : (p q : Proposer) → Same p q → Carries p → Carries q
  Same-Carries p q s h = ground (arith, s.1, ap (λ t. contains d (keys t)) s.0)

  prepared-Same : (r : Round) (silent : Bool) (p : Proposer) → Same p (prepared c r silent p)
  prepared-Same r silent p = elim (Bool-cases (c.adversary_faults == 0)) [
    | inl e ↦ rw e (refl, refl)
    | inr e ↦ rw e (
      refl,
      ground (
        arith,
        included-append d p.effects
            (batch_silent c.worker_addresses r (silent && c.pause_batches_during_silence) ∷ []),
      ),
    )
  ]

  prepare_round-Same : (r : Round) (p q : Proposer) → prepare_round c r p ≡ some q → Same p q
  unfolding prepare_round
  prepare_round-Same r p q h = elim (Option-cases (compute_silence c r)) [
    | inl e ↦ cc (rw (e, prepare_round) at h)
    | inr (silent, e) ↦
        subst (Same p) (unwrap_some (rw (e, prepare_round) at h)) (prepared-Same r silent p)
  ]

  update_leader-Same : (p q : Proposer) → update_leader c p ≡ some q → Same p q
  unfolding update_leader
  update_leader-Same p q h = ground arith

  update_advance-Same : (p q : Proposer) → update_advance c p ≡ some q → Same p q
  unfolding update_advance
  update_advance-Same p q h = ground (arith, update_leader-Same p q)

  next_round-Same : (p q : Proposer) → next_round c p ≡ some q → Same p q
  unfolding next_round
  next_round-Same p q h =
      ground
        (arith, prepare_round-Same (add_u64 p.round 1) (record p { round = add_u64 p.round 1 }) q)

  emits_header :
      (es : List Effect) (h : Header) (digests : List (Digest × WorkerId))
      → h.payload ≡ to_tree [] digests
      → (included d es || contains d (keys digests)) ≡ true
      → (included d (es ++ to_core h ∷ []) || false) ≡ true
  emits_header es h digests e k = ground (
    arith,
    included-append d es (to_core h ∷ []),
    keys-to_tree d [] digests,
    ap (λ t. contains d (keys t)) e,
  )

  make_header-Carries :
      (p : Proposer) → Carries p → Carries (record (make_header c p) { payload_size = 0 })
  unfolding make_header Header.new
  make_header-Carries p h = emits_header p.effects _ p.digests refl h

  enter-Carries : (p : Proposer) → Carries p → Carries (enter c p)
  unfolding enter
  enter-Carries p h = if_elim Carries p.silent _ _ (λ _. h) (λ _. make_header-Carries p h)

  propose-Carries : (b : Bool) (p q : Proposer) → propose c b p ≡ some q → Carries p → Carries q
  unfolding propose
  propose-Carries b p q e h =
      elim (Bool-cases
        ((b || (leb c.header_size p.payload_size && p.advance)) && not (is_empty p.last_parents))) [
          | inr f ↦ subst Carries (unwrap_some (rw f at e)) h
          | inl f ↦ elim (Option-cases (next_round c p)) [
            | inl g ↦ cc (rw g at (rw f at e))
            | inr (m, g) ↦
                subst Carries (unwrap_some (rw g at (rw f at e)))
                  (enter-Carries m (Same-Carries p m (next_round-Same p m g) h))
          ]
        ]

  receive-Carries : (e : Event c) (p q : Proposer) → receive c e p ≡ some q → Carries p → Carries q
  unfolding receive
  receive-Carries (from_core parents r) p q e h = elim (Bool-cases (ltb p.round r)) [
    | inl f ↦
        elim (Option-cases (prepare_round c r (record p { round = r; last_parents = parents }))) [
          | inl g ↦ cc (rw g at (rw f at e))
          | inr (m, g) ↦
              let first =
                prepare_round-Same r (record p { round = r; last_parents = parents }) m g in
              Same-Carries m q (update_advance-Same m q (rw g at (rw f at e)))
                (Same-Carries p m first h)
        ]
    | inr f ↦ elim (Bool-cases (ltb r p.round)) [
      | inl g ↦ Same-Carries p q (update_advance-Same p q (rw g at (rw f at e))) h
      | inr g ↦
          Same-Carries p q
            (update_advance-Same (record p { last_parents = p.last_parents ++ parents }) q
              (rw g at (rw f at e)))
            h
    ]
  ]
  receive-Carries (from_workers x w) p q e h = subst Carries (unwrap_some e) (
      ground (
        arith,
        map-append (λ t. t.0) p.digests ((x, w) ∷ []),
        contains-append d (keys p.digests) (x ∷ []),
      ))
  receive-Carries from_timer p q e h = subst Carries (unwrap_some e) h

  -- The digest is among those that the workers report.
  abbrev pub reported : List (Bool × Event c) → Bool
  reported [] = false
  reported ((b, from_core parents r) ∷ events) = reported events
  reported ((b, from_workers x w) ∷ events) = d == x || reported events
  reported ((b, from_timer) ∷ events) = reported events

  from_workers-Carries :
      (x : Digest) (w : WorkerId) (p q : Proposer)
      → receive c (from_workers x w) p ≡ some q
      → (d == x) ≡ true
      → Carries q
  unfolding receive
  from_workers-Carries x w p q e h = subst Carries (unwrap_some e) (
      ground (
        arith,
        map-append (λ t. t.0) p.digests ((x, w) ∷ []),
        contains-append d (keys p.digests) (x ∷ []),
      ))

  turn-Carries :
      (b : Bool) (event : Event c) (rest : List (Bool × Event c)) (p m q : Proposer)
      → propose c b p ≡ some m
      → receive c event m ≡ some q
      → (carried d p || reported ((b, event) ∷ rest)) ≡ true
      → (carried d q || reported rest) ≡ true
  turn-Carries b (from_core parents r) rest p m q f g h =
      ground (arith, propose-Carries b p m f, receive-Carries (from_core parents r) m q g)
  turn-Carries b (from_workers x w) rest p m q f g h = ground (
    arith,
    propose-Carries b p m f,
    receive-Carries (from_workers x w) m q g,
    from_workers-Carries x w m q g,
  )
  turn-Carries b from_timer rest p m q f g h =
      ground (arith, propose-Carries b p m f, receive-Carries from_timer m q g)

  turns-Carries :
      (events : List (Bool × Event c)) (p q : Proposer)
      → turns c p events ≡ some q
      → (carried d p || reported events) ≡ true
      → Carries q
  unfolding turns
  turns-Carries [] p q e h = subst Carries (unwrap_some e) (ground arith)
  turns-Carries ((b, event) ∷ rest) p q e h = elim (Option-cases (propose c b p)) [
    | inl f ↦ cc (rw (f, turns) at e)
    | inr (m, f) ↦ elim (Option-cases (receive c event m)) [
      | inl g ↦ cc (rw (g, turns) at (rw (f, turns) at e))
      | inr (next, g) ↦
          turns-Carries rest next q (rw (g, turns) at (rw (f, turns) at e))
            (turn-Carries b event rest p m next f g h)
    ]
  ]

  -- Each digest that a worker reports is in the payload of a header of the proposer or waits to be put into the next one, whatever rounds it is silent in and however it jumps ahead, if no turn panics.
  pub digests_carried :
      (events : List (Bool × Event c)) (q : Proposer)
      → run c events ≡ some q
      → reported events ≡ true
      → carried d q ≡ true
  unfolding run
  digests_carried events q e h =
      elim (Option-cases (prepare_round c (add_u64 (new c).round 1) (new c))) [
        | inl f ↦ cc (rw (f, run) at e)
        | inr (p, f) ↦ turns-Carries events p q (rw (f, run) at e) (ground arith)
      ]
