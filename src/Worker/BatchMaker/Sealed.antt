-- ===== src/Worker/BatchMaker/Sealed.antt =====
-- What the batches of worker/src/batch_maker.rs hold.
use bullshark_ubuntu.Base.{
  ℕ, ◌+◌, ◌<◌, ◌≡◌, refl, sym, ap, ◌∙◌, subst, ◌⊎◌, inl, inr, leb, if◌then◌else◌, is_empty, Bool,
  true, false, List, [], ◌∷◌, ◌++◌, map, append-nil, append_assoc, append-middle, append-snoc,
  map-append, All, All-append, length, add_u64, u64_mod, arith, List-cases, if_elim,
}
use bullshark_ubuntu.Core.State.{Bytes}
use bullshark_ubuntu.Worker.Messages.{Transaction, Batch, batch_message}
use bullshark_ubuntu.Worker.BatchMaker.{
  Settings, Effect, broadcasts, to_quorum_waiter, BatchMaker, new, arrive, dispatch_silent, seal,
  receive, select, turn, Move, arrives, dispatches, turns, move, run,
}

abbrev pub total : Batch → ℕ
total [] = 0
total (tx ∷ txs) = length tx + total txs

abbrev pub flatten : List Batch → List Transaction
flatten [] = []
flatten (b ∷ bs) = b ++ flatten bs

-- The batches handed to the quorum waiter, and those broadcast.
abbrev pub delivered : List Effect → List Bytes
delivered [] = []
delivered (broadcasts addresses bytes ∷ es) = delivered es
delivered (to_quorum_waiter bytes names ∷ es) = bytes ∷ delivered es

abbrev pub broadcast : List Effect → List Bytes
broadcast [] = []
broadcast (broadcasts addresses bytes ∷ es) = bytes ∷ broadcast es
broadcast (to_quorum_waiter bytes names ∷ es) = broadcast es

delivered-append : (es fs : List Effect) → delivered (es ++ fs) ≡ delivered es ++ delivered fs
delivered-append [] fs = refl
delivered-append (broadcasts addresses bytes ∷ es) fs = delivered-append es fs
delivered-append (to_quorum_waiter bytes names ∷ es) fs = ap (◌∷◌ bytes) (delivered-append es fs)

broadcast-append : (es fs : List Effect) → broadcast (es ++ fs) ≡ broadcast es ++ broadcast fs
broadcast-append [] fs = refl
broadcast-append (broadcasts addresses bytes ∷ es) fs = ap (◌∷◌ bytes) (broadcast-append es fs)
broadcast-append (to_quorum_waiter bytes names ∷ es) fs = broadcast-append es fs

total-append : (xs ys : Batch) → total (xs ++ ys) ≡ total xs + total ys
total-append [] ys = omega arith
total-append (x ∷ xs) ys = omega (arith, total-append xs ys)

flatten-snoc :
    (bs : List Batch) (b : Batch) (txs : List Transaction)
    → flatten (bs ++ b ∷ []) ++ txs ≡ flatten bs ++ (b ++ txs)
flatten-snoc [] b txs = ap (λ t. t ++ txs) (append-nil b)
flatten-snoc (x ∷ bs) b txs =
    append_assoc x (flatten (bs ++ b ∷ [])) txs
    ∙ ap (◌++◌ x) (flatten-snoc bs b txs)
    ∙ sym (append_assoc x (flatten bs) (b ++ txs))

module _ (c : Settings) where
  abbrev pub arrived : List (Move c) → List Transaction
  arrived [] = []
  arrived (arrives tx ∷ ms) = tx ∷ arrived ms
  arrived (dispatches round silent ∷ ms) = arrived ms
  arrived (turns expired ∷ ms) = arrived ms

  -- Not empty, and below the preferred size without its last transaction, if it has another.
  abbrev pub Filled : Batch → Type 0
  Filled b =
      (front : Batch) × (last : Transaction) × (b ≡ front ++ last ∷ [])
      × ((front ≡ []) ⊎ (total front < c.batch_size))

  -- The batches that were sealed, with the batch under way and the channel, are the transactions.
  pub record Ordered (txs : List Transaction) (effects : List Effect) (current : Batch) (size : ℕ)
      (channel : List Transaction) : Type 0 where
    pub batches : List Batch
    pub outputs : delivered effects ≡ map (λ b. c.serialize (batch_message b)) batches
    pub sent : broadcast effects ≡ map (λ b. c.serialize (batch_message b)) batches
    pub order : flatten batches ++ (current ++ channel) ≡ txs
    pub filled : All Filled batches
    pub counted : size ≡ total current

  abbrev OrderedBy : List Transaction → BatchMaker → Type 0
  OrderedBy txs s = Ordered txs s.effects s.current_batch s.current_batch_size s.transactions

  abbrev pub UnderWay : BatchMaker → Type 0
  UnderWay s =
      (s.current_batch ≡ []) ⊎ (Filled s.current_batch × (s.current_batch_size < c.batch_size))

  abbrev pub Sound : List Transaction → BatchMaker → Type 0
  Sound txs s = OrderedBy txs s × UnderWay s

  arrive-Sound :
      (tx : Transaction) (txs : List Transaction) (s : BatchMaker)
      → Sound txs s
      → Sound (txs ++ tx ∷ []) (arrive tx s)
  unfolding arrive
  arrive-Sound tx txs s (i, u) = (
    record {
      batches = i.batches;
      outputs = i.outputs;
      sent = i.sent;
      order =
          append-snoc (flatten i.batches) s.current_batch s.transactions tx
          ∙ ap (λ t. t ++ tx ∷ []) i.order;
      filled = i.filled;
      counted = i.counted;
    },
    u,
  )

  dispatch_silent-Sound :
      (r : ℕ) (b : Bool) (txs : List Transaction) (s : BatchMaker)
      → Sound txs s
      → Sound txs (dispatch_silent r b s)
  unfolding dispatch_silent
  dispatch_silent-Sound r b txs s i =
      if_elim (Sound txs) (leb s.batch_silent.0 r)
        (record s { batch_silent = (r, b); changed = true }) s (λ e. i) (λ e. i)

  seal-Sound :
      (txs : List Transaction) (s : BatchMaker)
      → OrderedBy txs s
      → Filled s.current_batch
      → Sound txs (seal c s)
  unfolding seal
  seal-Sound txs s i full = (
    record {
      batches = i.batches ++ s.current_batch ∷ [];
      outputs =
          delivered-append s.effects _
          ∙ ap (λ t. t ++ c.serialize (batch_message s.current_batch) ∷ []) i.outputs
          ∙ sym (map-append (λ b. c.serialize (batch_message b)) i.batches (s.current_batch ∷ []));
      sent =
          broadcast-append s.effects _
          ∙ ap (λ t. t ++ c.serialize (batch_message s.current_batch) ∷ []) i.sent
          ∙ sym (map-append (λ b. c.serialize (batch_message b)) i.batches (s.current_batch ∷ []));
      order = flatten-snoc i.batches s.current_batch s.transactions ∙ i.order;
      filled = All-append Filled i.batches (s.current_batch ∷ []) i.filled (full, tt);
      counted = refl;
    },
    inl refl,
  )

  abbrev pushed : Transaction → List Transaction → BatchMaker → BatchMaker
  pushed tx rest s = record s {
    transactions = rest;
    current_batch_size = add_u64 s.current_batch_size (length tx);
    current_batch = s.current_batch ++ tx ∷ [];
  }

  pushed-Ordered :
      (tx : Transaction) (rest : List Transaction) (txs : List Transaction) (s : BatchMaker)
      → total s.current_batch + length tx < u64_mod
      → s.transactions ≡ tx ∷ rest
      → OrderedBy txs s
      → OrderedBy txs (pushed tx rest s)
  pushed-Ordered tx rest txs s fits e i = record {
    batches = i.batches;
    outputs = i.outputs;
    sent = i.sent;
    order =
        ap (λ t. flatten i.batches ++ t)
          (append-middle s.current_batch tx rest ∙ ap (λ t. s.current_batch ++ t) (sym e))
        ∙ i.order;
    filled = i.filled;
    counted = ground (arith, total-append s.current_batch (tx ∷ []), i.counted);
  }

  pushed-Filled :
      (tx : Transaction) (rest : List Transaction) (s : BatchMaker)
      → s.current_batch_size ≡ total s.current_batch
      → UnderWay s
      → Filled (pushed tx rest s).current_batch
  pushed-Filled tx rest s e (inl u) = (s.current_batch, tx, refl, inl u)
  pushed-Filled tx rest s e (inr (f, small)) =
      (s.current_batch, tx, refl, inr (subst (λ t. t < c.batch_size) e small))

  receive-Sound :
      (tx : Transaction) (rest : List Transaction) (txs : List Transaction) (s : BatchMaker)
      → total s.current_batch + length tx < u64_mod
      → s.transactions ≡ tx ∷ rest
      → Sound txs s
      → Sound txs (receive c tx (record s { transactions = rest }))
  unfolding receive
  receive-Sound tx rest txs s fits e (i, u) =
      let t = pushed tx rest s in
      let o = pushed-Ordered tx rest txs s fits e i in
      let full = pushed-Filled tx rest s i.counted u in
      if_elim (Sound txs) (leb c.batch_size t.current_batch_size) (seal c t) t
        (λ b. seal-Sound txs t o full) (λ b. (o, inr (full, ground arith)))

  -- The channel's next transaction fits, since all that arrived does.
  fits_next :
      (tx : Transaction) (rest : List Transaction) (txs : List Transaction) (s : BatchMaker)
      → total txs < u64_mod
      → s.transactions ≡ tx ∷ rest
      → OrderedBy txs s
      → total s.current_batch + length tx < u64_mod
  fits_next tx rest txs s fits e i = ground (
    arith,
    ap total i.order,
    ap total e,
    total-append (flatten i.batches) (s.current_batch ++ s.transactions),
    total-append s.current_batch s.transactions,
  )

  select-Sound :
      (expired : Bool) (txs : List Transaction) (s : BatchMaker)
      → total txs < u64_mod
      → Sound txs s
      → Sound txs (select c expired s)
  unfolding select
  select-Sound expired txs s fits i =
      if_elim (Sound txs) s.changed (record s { changed = false }) _ (λ e. i)
        (λ e. elim (List-cases s.transactions) [
          | inr (tx, rest, f) ↦
              rw f (receive-Sound tx rest txs s (fits_next tx rest txs s fits f i.0) f i)
          | inl f ↦ rw f (
              if_elim (Sound txs) expired (if is_empty s.current_batch then s else seal c s) s
                (λ _.
                  if_elim (Sound txs) (is_empty s.current_batch) s (seal c s) (λ _. i)
                    (λ g. elim i.1 [ inl h ↦ cc (rw h at g) | inr h ↦ seal-Sound txs s i.0 h.0 ]))
                (λ _. i))
        ])

  turn-Sound :
      (expired : Bool) (txs : List Transaction) (s : BatchMaker)
      → total txs < u64_mod
      → Sound txs s
      → Sound txs (turn c expired s)
  unfolding turn
  turn-Sound expired txs s fits i =
      if_elim (Sound txs) s.batch_silent.1 (record s { changed = false }) (select c expired s)
        (λ _. i) (λ _. select-Sound expired txs s fits i)

  pub run-Sound :
      (ms : List (Move c)) (txs : List Transaction) (s : BatchMaker)
      → total txs + total (arrived ms) < u64_mod
      → Sound txs s
      → Sound (txs ++ arrived ms) (run c ms s)
  unfolding run move
  run-Sound [] txs s fits i = rw (append-nil txs) i
  run-Sound (arrives tx ∷ ms) txs s fits i =
      subst (λ t. Sound t (run c ms (arrive tx s))) (append-middle txs tx (arrived ms))
        (run-Sound ms (txs ++ tx ∷ []) (arrive tx s) (omega (arith, total-append txs (tx ∷ [])))
          (arrive-Sound tx txs s i))
  run-Sound (dispatches r b ∷ ms) txs s fits i =
      run-Sound ms txs (dispatch_silent r b s) fits (dispatch_silent-Sound r b txs s i)
  run-Sound (turns expired ∷ ms) txs s fits i =
      run-Sound ms txs (turn c expired s) fits (turn-Sound expired txs s (omega arith) i)

  -- Whatever transactions arrive, whenever the primary silences the worker and however the timer goes, the batches that the quorum waiter gets are those that are broadcast, and together with the batch under way and the channel they are the transactions in their order; each batch has a transaction and without its last one, unless that is its only one, it is below the preferred size; the counted size is that of the batch under way. The sizes of the transactions together are below 2^64.
  pub batches_complete :
      (ms : List (Move c)) → total (arrived ms) < u64_mod → Sound (arrived ms) (run c ms new)
  batches_complete ms fits = run-Sound ms [] new (omega arith) (
    record { batches = []; outputs = refl; sent = refl; order = refl; filled = tt; counted = refl },
    inl refl,
  )
