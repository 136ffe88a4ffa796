-- ===== src/Core/Causal/Run.antt =====
-- Over the main loop of primary/src/core.rs, what goes to consensus has its parents in the storage.
use bullshark_ubuntu.Base.{
  ℕ, ◌≡◌, refl, subst, inl, inr, if◌then◌else◌, not, ltb, Bool, true, false, Option, none, some,
  List, [], ◌∷◌, All, All-mono, Bool-cases, Result, ok, err,
}
use bullshark_ubuntu.Config.{ConfigError, PrimaryAddresses, primary}
use bullshark_ubuntu.Error.{DagResult}
use bullshark_ubuntu.Messages.Header.{Header, Round}
use bullshark_ubuntu.Messages.Vote
use bullshark_ubuntu.Messages.Vote.{Vote}
use bullshark_ubuntu.Messages.Certificate
use bullshark_ubuntu.Messages.Certificate.{Certificate, round}
use bullshark_ubuntu.Core.State.{
  Node, Core, Action, Outcome, returns, panics, out_of_fuel, and_then, ◌>>=◌, ◌>>◌, pure, modify,
  emit, write, map_or_else, digest_key, Effect, sends, to_proposer, to_consensus, vote_message,
  Bytes, Store, new,
}
use bullshark_ubuntu.Core.Synchronizer.{deliver, deliver_certificate}
use bullshark_ubuntu.Core.Process.{
  keep_handlers, append_to_round, process_vote_with, send_vote, vote_for,
}
use bullshark_ubuntu.Core.Run.{Input, cleanup, run}
use bullshark_ubuntu.Core.Steady.{
  Reaches, Steady, emitted, Steady-bind, Steady-seq, Steady-pure, Steady-gets, Steady-modify,
  Steady-expect, Steady-if, deliver_certificate-Steady,
}
use bullshark_ubuntu.Core.Steady.Process.{certify, Steps, run-Steady, keep_handlers-Steady}
use bullshark_ubuntu.Core.Causal.{
  Keeping, There, Founded, Complete, Grows, Causal, Found, There-Grows, Causal-emitted,
  Causal-stored, Causal-next, Causal-Steadiness, deliver-Found,
}

module _ (n : Node) (rocks : Keeping n) where
  put-Grows : (store : Store) (key value : Bytes) → Grows n store (n.rocks.put store key value)
  put-Grows store key value other (v, h) = rocks.keeps store key value other v h

  write-Steady : (key value : Bytes) → Steady (Causal n) (write n key value)
  unfolding Steady Reaches write modify
  write-Steady key value s =
      Causal-stored n s (record s { store = n.rocks.put s.store key value }) refl
        (put-Grows s.store key value)

  -- The emissions of a certificate that has its parents, after what the aggregator says.
  announce-Reaches :
      (x : Certificate) (s t : Core) (result : DagResult (Option (List Certificate)))
      → (Causal n) s t
      → Founded n t.store (to_consensus x)
      → Reaches (Causal n) s (
          and_then (returns t result) (λ parents. do
            map_or_else
                (pure tt)
                (λ certificates. emit (to_proposer certificates (round x)))
                parents
            emit (to_consensus x)))
  unfolding Reaches and_then ◌>>◌ pure emit modify
  announce-Reaches x s t (err e) c f = c
  announce-Reaches x s t (ok none) c f =
      Causal-next n s t (emitted (to_consensus x) t) c (Causal-emitted n (to_consensus x) t f)
  announce-Reaches x s t (ok (some xs)) c f =
      let u = emitted (to_proposer xs (round x)) t in
      Causal-next n s t (emitted (to_consensus x) u) c (
        Causal-next n t u (emitted (to_consensus x) u)
          (Causal-emitted n (to_proposer xs (round x)) t tt)
          (Causal-emitted n (to_consensus x) u f))

  -- The storage after a certificate is written.
  abbrev kept : Certificate → Core → Core
  kept x s = record s {
    store =
        n.rocks.put s.store (digest_key (Certificate.digest n.dalek x))
          (n.bincode.serialize_certificate x);
  }

  kept-Causal : (x : Certificate) (s : Core) → (Causal n) s (kept x s)
  kept-Causal x s = Causal-stored n s (kept x s) refl (put-Grows s.store _ _)

  kept-Founded :
      (x : Certificate) (s : Core)
      → All (There n s.store) x.header.parents
      → Founded n (kept x s).store (to_consensus x)
  kept-Founded x s h = (
    All-mono _ _ x.header.parents
        (λ d. There-Grows n s.store (kept x s).store d (put-Grows s.store _ _)) h,
    (n.bincode.serialize_certificate x, rocks.reads_back s.store _ _),
  )

  append-Reaches :
      (x : Certificate) (s t : Core)
      → (Causal n) s t
      → Founded n t.store (to_consensus x)
      → Reaches (Causal n) s (
          and_then (append_to_round n x t) (λ parents. do
            map_or_else
                (pure tt)
                (λ certificates. emit (to_proposer certificates (round x)))
                parents
            emit (to_consensus x)))
  unfolding append_to_round
  append-Reaches x s t c f = announce-Reaches x s _ _ c f

  store-Reaches :
      (x : Certificate) (s : Core)
      → All (There n s.store) x.header.parents
      → Reaches (Causal n) s (
          (do
            write n (digest_key (Certificate.digest n.dalek x)) (n.bincode.serialize_certificate x)
            parents ← append_to_round n x
            map_or_else
                (pure tt)
                (λ certificates. emit (to_proposer certificates (round x)))
                parents
            emit (to_consensus x))
            s)
  unfolding ◌>>◌ ◌>>=◌ write modify and_then
  store-Reaches x s h = append-Reaches x s (kept x s) (kept-Causal x s) (kept-Founded x s h)

  certify-Reaches :
      (x : Certificate) (s : Core) (o : Outcome Bool)
      → Reaches (Causal n) s o
      → Found n s x.header.parents o
      → Reaches (Causal n) s (
          and_then o (λ delivered. if not delivered then pure tt else do
            write n (digest_key (Certificate.digest n.dalek x)) (n.bincode.serialize_certificate x)
            parents ← append_to_round n x
            map_or_else
                (pure tt)
                (λ certificates. emit (to_proposer certificates (round x)))
                parents
            emit (to_consensus x)))
  unfolding Reaches Found and_then pure
  certify-Reaches x s (returns t (ok true)) c (e, f) = at_start e
    where
      at_start :
          t ≡ s
          → Reaches (Causal n) s (
              (do
                write n
                    (digest_key (Certificate.digest n.dalek x))
                    (n.bincode.serialize_certificate x)
                parents ← append_to_round n x
                map_or_else
                    (pure tt)
                    (λ certificates. emit (to_proposer certificates (round x)))
                    parents
                emit (to_consensus x))
                t)
      at_start e = rw e (store-Reaches x s f)
  certify-Reaches x s (returns t (ok false)) c f = c
  certify-Reaches x s (returns t (err e)) c f = c
  certify-Reaches x s panics c f = tt
  certify-Reaches x s out_of_fuel c f = tt

  certify-Steady : (x : Certificate) → Steady (Causal n) (certify n x)
  unfolding Steady ◌>>=◌ deliver_certificate
  certify-Steady x s =
      certify-Reaches x s (deliver n x x.header.parents s)
        (deliver_certificate-Steady (Causal n) (Causal-Steadiness n) n x s)
        (deliver-Found n x x.header.parents s)

  sent-Steady : (e : Effect) → ((store : Store) → Founded n store e) → Steady (Causal n) (emit e)
  unfolding Steady Reaches emit modify
  sent-Steady e f s = Causal-emitted n e s (f s.store)

  stops-Steady : Steady (Causal n) {A = Unit {0}} (λ s. panics)
  unfolding Steady Reaches
  stops-Steady s = tt

  post-Steady :
      (h : Header) (o : Result ConfigError PrimaryAddresses)
      → Steady (Causal n) {A = Unit {0}} (elim o [
        | err _ ↦ λ s. panics
        | ok addresses ↦ do
          emit (sends addresses.primary_to_primary (vote_message (Vote.new n.dalek h n.name)))
          keep_handlers n h.round
              ((addresses.primary_to_primary, vote_message (Vote.new n.dalek h n.name)) ∷ [])
      ])
  post-Steady h (err e) = stops-Steady
  post-Steady h (ok addresses) =
      Steady-seq (Causal n) (Causal-Steadiness n) _ _
        (sent-Steady (sends addresses.primary_to_primary (vote_message (Vote.new n.dalek h n.name)))
          (λ store. tt))
        (keep_handlers-Steady (Causal n) (Causal-Steadiness n) n _ _)

  send_vote-Steady :
      (process : Header → Action (Unit {0})) (h : Header)
      → ((v : Vote) → Steady (Causal n) (process_vote_with n process v))
      → Steady (Causal n) (send_vote n process h)
  unfolding send_vote
  send_vote-Steady process h keeps =
      Steady-if (Causal n) (Causal-Steadiness n) _ _ _
        (Steady-expect (Causal n) (Causal-Steadiness n) _ (keeps _))
        (post-Steady h (primary n.committee h.author))

  vote_for-Steady :
      (process : Header → Action (Unit {0})) (h : Header)
      → ((v : Vote) → Steady (Causal n) (process_vote_with n process v))
      → Steady (Causal n) (vote_for n process h)
  unfolding vote_for
  vote_for-Steady process h keeps =
      Steady-bind (Causal n) (Causal-Steadiness n) _ _
        (Steady-gets (Causal n) (Causal-Steadiness n) _)
        (λ voted.
          Steady-seq (Causal n) (Causal-Steadiness n) _ _
            (Steady-modify (Causal n) (Causal-Steadiness n) _ (λ s. (λ key v. v, λ c. c)))
            (Steady-if (Causal n) (Causal-Steadiness n) voted _ _
              (Steady-pure (Causal n) (Causal-Steadiness n) tt) (send_vote-Steady process h keeps)))

  causal_steps : Steps (Causal n) (Causal-Steadiness n) n
  causal_steps = record {
    writes = write-Steady;
    certifies = certify-Steady;
    votes = vote_for-Steady;
  }

  cleanup-Causal : (r : Round) (s : Core) → (Causal n) s (cleanup n r s)
  unfolding cleanup
  cleanup-Causal r s = elim (Bool-cases (ltb n.gc_depth r)) [
    | inl e ↦ rw e (λ key h. h, λ c. c)
    | inr e ↦ rw e (λ key h. h, λ c. c)
  ]

  All_of : {A : Type 0} (P : A → Type 0) → ((a : A) → P a) → (xs : List A) → All P xs
  All_of P f [] = tt
  All_of P f (x ∷ xs) = (f x, All_of P f xs)

  -- Whatever the core handles, from whatever storage, each certificate that it has given to consensus when a run returns is in the storage, with each of its parents, unless that is a genesis certificate. RocksDB reads back what was written and loses no key by a write of another.
  pub causally-Complete :
      (fuel : ℕ) (inputs : List (Round × Input n)) (store : Store) (t : Core)
      (result : DagResult (Unit {0}))
      → run n fuel inputs (new store) ≡ returns t result
      → Complete n t
  unfolding Steady Reaches
  causally-Complete fuel inputs store t result e =
      (subst (λ o. Reaches (Causal n) (new store) o) e
          (run-Steady (Causal n) (Causal-Steadiness n) n causal_steps fuel inputs
            (All_of _ (λ i s. cleanup-Causal i.0 s) inputs) (new store))).1
        tt
