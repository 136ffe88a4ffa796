-- ===== src/Proposer/Rounds.antt =====
-- The rounds of the headers that primary/src/proposer.rs makes.
use bullshark_ubuntu.Base.{
  ◌+◌, ◌≤◌, ◌<◌, ◌≡◌, refl, ap, ◌∙◌, subst, ◌⊎◌, inl, inr, ◌==◌, ◌&&◌, ◌||◌, not, leb, ltb,
  is_empty, Bool, some, List, [], ◌∷◌, ◌++◌, append-nil, All, All-mono, length, add_u64, u64_mod,
  arith, Bool-cases, Option-cases, if_elim, unwrap_some,
}
use bullshark_ubuntu.Messages.Header
use bullshark_ubuntu.Messages.Header.{Header, Round}
use bullshark_ubuntu.Proposer.{
  Settings, Proposer, Effect, to_core, batch_silent, Event, from_core, from_workers, from_timer,
  compute_silence, prepared, prepare_round, next_round, enter, make_header, update_leader,
  update_advance, propose, receive, turns, run, new,
}

abbrev pub header_rounds : List Effect → List Round
header_rounds [] = []
header_rounds (to_core h ∷ es) = h.round ∷ header_rounds es
header_rounds (batch_silent a r b ∷ es) = header_rounds es

-- From above the first to at most the last, each above the one before.
abbrev pub Ascends : Round → List Round → Round → Type 0
Ascends low [] high = low ≤ high
Ascends low (r ∷ rs) high = (low < r) × Ascends r rs high

header_rounds-append :
    (es fs : List Effect) → header_rounds (es ++ fs) ≡ header_rounds es ++ header_rounds fs
header_rounds-append [] fs = refl
header_rounds-append (to_core h ∷ es) fs = ap (◌∷◌ h.round) (header_rounds-append es fs)
header_rounds-append (batch_silent a r b ∷ es) fs = header_rounds-append es fs

Ascends-mono :
    (low high more : Round) (rs : List Round)
    → high ≤ more
    → Ascends low rs high
    → Ascends low rs more
Ascends-mono low high more [] h a = omega arith
Ascends-mono low high more (r ∷ rs) h a = (a.0, Ascends-mono r high more rs h a.1)

Ascends-snoc :
    (low high r : Round) (rs : List Round)
    → high < r
    → Ascends low rs high
    → Ascends low (rs ++ r ∷ []) r
Ascends-snoc low high r [] h a = (omega arith, omega arith)
Ascends-snoc low high r (s ∷ rs) h a = (a.0, Ascends-snoc s high r rs h a.1)

module _ (c : Settings) where
  -- Neither the round nor the headers made change.
  abbrev Same : Proposer → Proposer → Type 0
  Same p q = (q.round ≡ p.round) × (header_rounds q.effects ≡ header_rounds p.effects)

  prepared-Same :
      (r : Round) (silent : Bool) (p : Proposer)
      → Same
          (record p { silence_round = r; silent = silent; round = p.round })
          (prepared c r silent p)
  prepared-Same r silent p = elim (Bool-cases (c.adversary_faults == 0)) [
    | inl e ↦ rw e (refl, refl)
    | inr e ↦ rw e (refl, header_rounds-append p.effects _ ∙ append-nil (header_rounds p.effects))
  ]

  prepare_round-Same : (r : Round) (p q : Proposer) → prepare_round c r p ≡ some q → Same p q
  unfolding prepare_round
  prepare_round-Same r p q h = elim (Option-cases (compute_silence c r)) [
    | inl e ↦ cc (rw (e, prepare_round) at h)
    | inr (silent, e) ↦
        subst (Same p) (unwrap_some (rw (e, prepare_round) at h)) (prepared-Same r silent p)
  ]

  update_leader-Same : (p q : Proposer) → update_leader c p ≡ some q → Same p q
  unfolding update_leader
  update_leader-Same p q h = ground arith

  update_advance-Same : (p q : Proposer) → update_advance c p ≡ some q → Same p q
  unfolding update_advance
  update_advance-Same p q h = ground (arith, update_leader-Same p q)

  -- A turn's first half moves on by one round at most, and makes a header of the new round at most.
  abbrev Proposed : Proposer → Proposer → Type 0
  Proposed p q =
      Same p q
      ⊎ ((q.round ≡ p.round + 1)
          × ((header_rounds q.effects ≡ header_rounds p.effects)
              ⊎ (header_rounds q.effects ≡ header_rounds p.effects ++ (p.round + 1) ∷ [])))

  make_header-rounds :
      (p : Proposer)
      → header_rounds (make_header c p).effects ≡ header_rounds p.effects ++ p.round ∷ []
  unfolding make_header Header.new
  make_header-rounds p = header_rounds-append p.effects _

  make_header-round : (p : Proposer) → (make_header c p).round ≡ p.round
  unfolding make_header
  make_header-round p = refl

  next_round-round :
      (p q : Proposer)
      → p.round + 1 < u64_mod
      → next_round c p ≡ some q
      → (q.round ≡ p.round + 1) × (header_rounds q.effects ≡ header_rounds p.effects)
  unfolding next_round
  next_round-round p q fits h =
      ground
        (arith, prepare_round-Same (add_u64 p.round 1) (record p { round = add_u64 p.round 1 }) q)

  abbrev Entered : Proposer → Proposer → Type 0
  Entered q r =
      (r.round ≡ q.round)
      × ((header_rounds r.effects ≡ header_rounds q.effects)
          ⊎ (header_rounds r.effects ≡ header_rounds q.effects ++ q.round ∷ []))

  enter-Entered : (q : Proposer) → Entered q (enter c q)
  unfolding enter
  enter-Entered q =
      if_elim (Entered q) q.silent _ _ (λ e. (refl, inl refl))
        (λ e. (make_header-round q, inr (make_header-rounds q)))

  propose-Proposed :
      (b : Bool) (p q : Proposer) → p.round + 1 < u64_mod → propose c b p ≡ some q → Proposed p q
  unfolding propose
  propose-Proposed b p q fits h =
      elim (Bool-cases
        ((b || (leb c.header_size p.payload_size && p.advance)) && not (is_empty p.last_parents))) [
          | inr e ↦ inl (subst (Same p) (unwrap_some (rw e at h)) (refl, refl))
          | inl e ↦ elim (Option-cases (next_round c p)) [
            | inl f ↦ cc (rw f at (rw e at h))
            | inr (m, f) ↦
                let (moved, kept) = next_round-round p m fits f in
                let (stays, made) = enter-Entered m in
                subst (Proposed p) (unwrap_some (rw f at (rw e at h)))
                  (inr (stays ∙ moved, rw (← kept, ← moved) made))
          ]
        ]

  -- The round that the core announces with an event.
  abbrev pub announced : Event c → Round
  announced (from_core parents r) = r
  announced (from_workers d w) = 0
  announced from_timer = 0

  -- An event makes no header and never goes back.
  abbrev Received : Event c → Proposer → Proposer → Type 0
  Received e p q =
      (header_rounds q.effects ≡ header_rounds p.effects)
      × (p.round ≤ q.round)
      × ((q.round ≤ p.round) ⊎ (q.round ≤ announced e))

  receive-Received : (e : Event c) (p q : Proposer) → receive c e p ≡ some q → Received e p q
  unfolding receive
  receive-Received (from_core parents r) p q h = elim (Bool-cases (ltb p.round r)) [
    | inl e ↦
        elim (Option-cases (prepare_round c r (record p { round = r; last_parents = parents }))) [
          | inl f ↦ cc (rw f at (rw e at h))
          | inr (m, f) ↦ ground (
            arith,
            prepare_round-Same r (record p { round = r; last_parents = parents }) m f,
            update_advance-Same m q (rw f at (rw e at h)),
          )
        ]
    | inr e ↦ elim (Bool-cases (ltb r p.round)) [
      | inl f ↦ ground (arith, update_advance-Same p q (rw f at (rw e at h)))
      | inr f ↦ ground (
        arith,
        update_advance-Same (record p { last_parents = p.last_parents ++ parents }) q
            (rw f at (rw e at h)),
      )
    ]
  ]
  receive-Received (from_workers d w) p q h = ground arith
  receive-Received from_timer p q h = ground arith

  Proposed-Ascends :
      (top : Round) (p m : Proposer)
      → p.round ≤ top
      → Ascends 0 (header_rounds p.effects) p.round
      → Proposed p m
      → (m.round ≤ top + 1) × Ascends 0 (header_rounds m.effects) m.round
  Proposed-Ascends top p m at_most rising (inl (e, f)) = rw (e, f) (omega arith, rising)
  Proposed-Ascends top p m at_most rising (inr (e, inl f)) =
      rw (e, f)
        (
          omega arith,
          Ascends-mono 0 p.round (p.round + 1) (header_rounds p.effects) (omega arith) rising,
        )
  Proposed-Ascends top p m at_most rising (inr (e, inr f)) =
      rw (e, f)
        (
          omega arith,
          Ascends-snoc 0 p.round (p.round + 1) (header_rounds p.effects) (omega arith) rising,
        )

  Received-Ascends :
      (e : Event c) (top : Round) (m q : Proposer)
      → announced e ≤ top
      → m.round ≤ top
      → Ascends 0 (header_rounds m.effects) m.round
      → Received e m q
      → (q.round ≤ top) × Ascends 0 (header_rounds q.effects) q.round
  Received-Ascends e top m q low at_most rising (same, grows, bound) = (
    ground arith,
    rw same (Ascends-mono 0 m.round q.round (header_rounds m.effects) grows rising),
  )

  turns-Ascends :
      (events : List (Bool × Event c)) (top : Round) (p q : Proposer)
      → top + length events < u64_mod
      → All (λ e. announced e.1 ≤ top) events
      → p.round ≤ top
      → Ascends 0 (header_rounds p.effects) p.round
      → turns c p events ≡ some q
      → Ascends 0 (header_rounds q.effects) q.round
  unfolding turns
  turns-Ascends [] top p q fits low at_most rising h =
      subst (λ x. Ascends 0 (header_rounds x.effects) x.round) (unwrap_some h) rising
  turns-Ascends ((b, e) ∷ rest) top p q fits low at_most rising h =
      elim (Option-cases (propose c b p)) [
        | inl f ↦ cc (rw (f, turns) at h)
        | inr (m, f) ↦ elim (Option-cases (receive c e m)) [
          | inl g ↦ cc (rw (g, turns) at (rw (f, turns) at h))
          | inr (n, g) ↦
              let (m_most, m_rises) =
                Proposed-Ascends top p m at_most rising (propose-Proposed b p m (omega arith) f) in
              let (n_most, n_rises) =
                Received-Ascends e (top + 1) m n (omega arith) m_most m_rises
                  (receive-Received e m n g) in
              turns-Ascends rest (top + 1) n q (omega arith)
                (All-mono _ _ rest (λ x l. omega arith) low.1) n_most n_rises
                (rw (g, turns) at (rw (f, turns) at h))
        ]
      ]

  -- Whatever the core, the workers and the timer bring, a proposer that does not panic makes headers of strictly rising rounds, so one a round at most, none of round 0 and none above its round: the rounds that the core announces and the number of turns together are below 2^64.
  pub headers_rise :
      (events : List (Bool × Event c)) (top : Round) (q : Proposer)
      → top + length events < u64_mod
      → All (λ e. announced e.1 ≤ top) events
      → run c events ≡ some q
      → Ascends 0 (header_rounds q.effects) q.round
  unfolding run new
  headers_rise events top q fits low h =
      elim (Option-cases (prepare_round c (add_u64 (new c).round 1) (new c))) [
        | inl f ↦ cc (rw (f, run) at h)
        | inr (p, f) ↦
            let (e, g) = prepare_round-Same (add_u64 (new c).round 1) (new c) p f in
            turns-Ascends events top p q fits low (omega arith) (rw (e, g) (omega arith))
              (rw (f, run) at h)
      ]
