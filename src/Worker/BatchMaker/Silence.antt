-- ===== src/Worker/BatchMaker/Silence.antt =====
-- When worker/src/batch_maker.rs seals: not while it is silenced, and at last when it is not.
use bullshark_ubuntu.Base.{
  ℕ, zero, suc, ◌≤◌, ◌<◌, ◌≡◌, refl, ◌∙◌, subst, ◌⊎◌, inl, inr, leb, if◌then◌else◌, is_empty, true,
  false, List, [], ◌∷◌, ◌++◌, All, length, add_u64, sym, arith, List-cases, if_elim, ap, map,
  append-nil, u64_mod,
}
use bullshark_ubuntu.Messages.Header.{Round}
use bullshark_ubuntu.Worker.Messages.{Transaction, Batch, batch_message}
use bullshark_ubuntu.Worker.BatchMaker.{
  Settings, BatchMaker, new, arrive, dispatch_silent, seal, receive, select, turn, Move, arrives,
  dispatches, turns, move, run,
}
use bullshark_ubuntu.Worker.BatchMaker.Sealed.{
  total, flatten, delivered, broadcast, arrived, Sound, run-Sound, batches_complete,
}

cons_tail : {x y : Transaction} {xs ys : List Transaction} → x ∷ xs ≡ y ∷ ys → xs ≡ ys
cons_tail e = cc

module _ (c : Settings) where
  -- Of an older round than `r`, or silent.
  abbrev pub KeepsSilence : Round → Move c → Type 0
  KeepsSilence r (arrives tx) = Unit
  KeepsSilence r (dispatches round silent) = (round < r) ⊎ (silent ≡ true)
  KeepsSilence r (turns expired) = Unit

  abbrev pub Idle : BatchMaker → BatchMaker → Type 0
  Idle s t =
      (t.batch_silent.1 ≡ true)
      × (s.batch_silent.0 ≤ t.batch_silent.0)
      × (t.effects ≡ s.effects)
      × (t.current_batch ≡ s.current_batch)

  move-Idle :
      (r : Round) (m : Move c) (s : BatchMaker)
      → KeepsSilence r m
      → r ≤ s.batch_silent.0
      → s.batch_silent.1 ≡ true
      → Idle s (move c m s)
  unfolding move arrive dispatch_silent turn
  move-Idle r (arrives tx) s k low h = (h, omega arith, refl, refl)
  move-Idle r (dispatches round silent) s k low h = ground arith
  move-Idle r (turns expired) s k low h =
      if_elim (Idle s) s.batch_silent.1 (record s { changed = false }) (select c expired s)
        (λ _. (h, omega arith, refl, refl)) (λ e. cc)

  -- While the worker is silenced, and the primary sends no command to resume that is not of an older round than the silence, nothing is sealed: nothing is sent, the batch under way stays, and the worker stays silenced.
  pub silence_kept :
      (ms : List (Move c)) (r : Round) (s : BatchMaker)
      → r ≤ s.batch_silent.0
      → s.batch_silent.1 ≡ true
      → All (KeepsSilence r) ms
      → Idle s (run c ms s)
  unfolding run
  silence_kept [] r s low h k = (h, omega arith, refl, refl)
  silence_kept (m ∷ ms) r s low h k =
      let (silent, later, same, kept) = move-Idle r m s k.0 low h in
      let (silent', later', same', kept') =
        silence_kept ms r (move c m s) (omega arith) silent k.1 in
      (silent', omega arith, same' ∙ same, kept' ∙ kept)

  -- Turns of the loop in each of which the timer has expired.
  abbrev pub expirations : ℕ → List (Move c)
  expirations zero = []
  expirations (suc n) = turns true ∷ expirations n

  abbrev Active : BatchMaker → Type 0
  Active s = (s.batch_silent.1 ≡ false) × (s.changed ≡ false)

  seal-Active : (s : BatchMaker) → Active s → Active (seal c s)
  unfolding seal
  seal-Active s a = a

  seal_empty :
      (s : BatchMaker)
      → ((seal c s).current_batch ≡ []) × ((seal c s).transactions ≡ s.transactions)
  unfolding seal
  seal_empty s = (refl, refl)

  abbrev Took : List Transaction → BatchMaker → Type 0
  Took rest s = Active s × (s.transactions ≡ rest)

  abbrev pushed : Transaction → BatchMaker → BatchMaker
  pushed tx s = record s {
    current_batch_size = add_u64 s.current_batch_size (length tx);
    current_batch = s.current_batch ++ tx ∷ [];
  }

  receive-Took :
      (tx : Transaction) (s : BatchMaker) → Active s → Took s.transactions (receive c tx s)
  unfolding receive
  receive-Took tx s a =
      let t = pushed tx s in
      if_elim (Took s.transactions) (leb c.batch_size t.current_batch_size) (seal c t) t
        (λ _. (seal-Active t a, (seal_empty t).1)) (λ _. (a, refl))

  -- A turn is a `select`, and not one that sees a change.
  turn_active :
      (s : BatchMaker) (P : BatchMaker → Type 0)
      → Active s
      → ((tx : Transaction) (rest : List Transaction)
          → s.transactions ≡ tx ∷ rest
          → P (receive c tx (record s { transactions = rest })))
      → (s.transactions ≡ [] → P (if is_empty s.current_batch then s else seal c s))
      → P (turn c true s)
  unfolding turn select
  turn_active s P a busy idle =
      if_elim P s.batch_silent.1 (record s { changed = false }) (select c true s) (λ e. cc)
        (λ _.
          if_elim P s.changed (record s { changed = false }) _ (λ e. cc)
            (λ _. elim (List-cases s.transactions) [
              | inr (tx, rest, f) ↦ rw f (busy tx rest f)
              | inl f ↦ rw f (idle f)
            ]))

  turn-Took :
      (tx : Transaction) (rest : List Transaction) (s : BatchMaker)
      → Active s
      → s.transactions ≡ tx ∷ rest
      → Took rest (turn c true s)
  turn-Took tx rest s a e =
      turn_active s (Took rest) a
        (λ x more f.
          subst (λ t. Took t (receive c x (record s { transactions = more })))
            (cons_tail (sym f ∙ e)) (receive-Took x (record s { transactions = more }) a))
        (λ f. cc)

  abbrev pub Drained : BatchMaker → Type 0
  Drained s = (s.current_batch ≡ []) × (s.transactions ≡ [])

  turn-Drained : (s : BatchMaker) → Active s → s.transactions ≡ [] → Drained (turn c true s)
  turn-Drained s a e =
      turn_active s Drained a (λ x more f. cc)
        (λ f.
          if_elim Drained (is_empty s.current_batch) s (seal c s)
            (λ g. elim (List-cases s.current_batch) [
              | inl h ↦ (h, f)
              | inr (x, xs, h) ↦ cc (rw h at g)
            ])
            (λ _. ((seal_empty s).0, (seal_empty s).1 ∙ f)))

  expirations-Drained :
      (txs : List Transaction) (s : BatchMaker)
      → Active s
      → s.transactions ≡ txs
      → Drained (run c (expirations (suc (length txs))) s)
  unfolding run move
  expirations-Drained [] s a e = turn-Drained s a e
  expirations-Drained (tx ∷ txs) s a e =
      let t = turn-Took tx txs s a e in expirations-Drained txs (turn c true s) t.0 t.1

  expirations-arrived : (n : ℕ) → arrived c (expirations n) ≡ []
  expirations-arrived zero = refl
  expirations-arrived (suc n) = expirations-arrived n

  -- All transactions are in batches that the quorum waiter got and that were broadcast.
  pub record AllSealed (txs : List Transaction) (s : BatchMaker) : Type 0 where
    pub batches : List Batch
    pub outputs : delivered s.effects ≡ map (λ b. c.serialize (batch_message b)) batches
    pub sent : broadcast s.effects ≡ map (λ b. c.serialize (batch_message b)) batches
    pub complete : flatten batches ≡ txs
    pub drained : Drained s

  Sound-AllSealed :
      (txs : List Transaction) (s : BatchMaker) → Sound c txs s → Drained s → AllSealed txs s
  Sound-AllSealed txs s (o, u) d = record {
    batches = o.batches;
    outputs = o.outputs;
    sent = o.sent;
    complete =
        sym (append-nil (flatten o.batches))
        ∙ subst (λ t. flatten o.batches ++ t ≡ txs) (ap (λ t. t ++ s.transactions) d.0 ∙ d.1)
            o.order;
    drained = d;
  }

  -- Whatever happened to a worker, when it is not silenced and has seen every change of that, one turn for each transaction in the channel and one more, with the timer expired, leave every transaction that ever arrived, in the order of arrival, in the batches that were broadcast and given to the quorum waiter, and none in the channel nor in the batch under way. The sizes of the transactions together are below 2^64.
  pub turns_drain :
      (ms : List (Move c))
      → total (arrived c ms) < u64_mod
      → (run c ms new).batch_silent.1 ≡ false
      → (run c ms new).changed ≡ false
      → AllSealed
          (arrived c ms)
          (run c (expirations (suc (length (run c ms new).transactions))) (run c ms new))
  turns_drain ms fits h k =
      let s = run c ms new in
      let turned = suc (length s.transactions) in
      Sound-AllSealed (arrived c ms) (run c (expirations turned) s)
        (subst (λ t. Sound c t (run c (expirations turned) s))
          (ap (◌++◌ (arrived c ms)) (expirations-arrived turned) ∙ append-nil (arrived c ms))
          (run-Sound c (expirations turned) (arrived c ms) s
            (ground (arith, ap total (expirations-arrived turned))) (batches_complete c ms fits)))
        (expirations-Drained s.transactions s (h, k) refl)
