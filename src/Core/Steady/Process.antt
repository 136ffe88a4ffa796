-- ===== src/Core/Steady/Process.antt =====
-- What the methods of primary/src/core.rs keep, if votes and certificates do.
use bullshark_ubuntu.Base.{ℕ, zero, suc, refl, if◌then◌else◌, not, List, [], ◌∷◌, All, ok, err}
use bullshark_ubuntu.Error.{
  DagResult, invalid_signature, serialization_error, invalid_header_id, malformed_header,
  unknown_authority, authority_reuse, unexpected_vote, certificate_requires_quorum,
  header_requires_quorum, too_old, store_error,
}
use bullshark_ubuntu.Messages.Header.{Header, Round}
use bullshark_ubuntu.Messages.Vote.{Vote}
use bullshark_ubuntu.Messages.Certificate
use bullshark_ubuntu.Messages.Certificate.{Certificate, round}
use bullshark_ubuntu.Core.State.{
  Node, Core, Action, Outcome, returns, panics, out_of_fuel, ◌>>=◌, ◌>>◌, pure, emit, write,
  map_or_else, digest_key, to_proposer, to_consensus, PrimaryMessage, header_message, vote_message,
  certificate_message, certificates_request, CancelHandler, Bytes,
}
use bullshark_ubuntu.Core.Synchronizer.{deliver_certificate}
use bullshark_ubuntu.Core.Process.{
  keep_handlers, broadcast, append_to_round, append_own_vote, process_certificate_with,
  process_vote_with, vote_for, process_header_with, process_header, process_vote,
  process_certificate, process_own_header,
}
use bullshark_ubuntu.Core.Run.{
  Input, from_primary, from_header_waiter, from_certificate_waiter, from_proposer, handle, after,
  cleanup, turn, run,
}
use bullshark_ubuntu.Core.Steady.{
  Before, Steadiness, Reaches, Steady, Steady-bind, Steady-seq, Steady-pure, Steady-lift,
  Steady-gets, Steady-modify, Steady-emit, Steady-expect, Steady-if, Steady-option,
  missing_payload-Steady, get_parents-Steady,
}

module _ (n : Node) where
  -- The second half of `process_certificate`.
  abbrev pub certify : Certificate → Action (Unit {0})
  certify certificate = do
    delivered ← deliver_certificate n certificate
    if not delivered then pure tt else do
      write n (digest_key (Certificate.digest n.dalek certificate))
          (n.bincode.serialize_certificate certificate)
      parents ← append_to_round n certificate
      map_or_else (pure tt) (λ certificates. emit (to_proposer certificates (round certificate)))
          parents
      emit (to_consensus certificate)

module _ (R : Before) (k : Steadiness R) (n : Node) where
  pub keep_handlers-Steady :
      (r : Round) (handlers : List CancelHandler) → Steady R (keep_handlers n r handlers)
  unfolding keep_handlers
  keep_handlers-Steady r handlers = Steady-modify R k _ (λ s. k.aside s _ refl refl refl)

  pub broadcast-Steady : (r : Round) (message : PrimaryMessage) → Steady R (broadcast n r message)
  unfolding broadcast
  broadcast-Steady r message =
      Steady-seq R k _ _ (Steady-emit R k _ refl) (keep_handlers-Steady r _)

  append_own_vote-Steady : (v : Vote) → Steady R (append_own_vote n v)
  unfolding Steady Reaches append_own_vote
  append_own_vote-Steady v s = k.aside s _ refl refl refl

  -- What the elementary steps do that this relation is about.
  pub record Steps : Type 0 where
    pub writes : (key value : Bytes) → Steady R (write n key value)
    pub certifies : (x : Certificate) → Steady R (certify n x)
    pub votes :
        (process : Header → Action (Unit {0})) (h : Header)
        → ((v : Vote) → Steady R (process_vote_with n process v))
        → Steady R (vote_for n process h)

  module _ (steps : Steps) where
    module _ (process : Header → Action (Unit {0}))
        (keeps : (h : Header) → Steady R (process h)) where
      process_certificate_with-Steady :
          (x : Certificate) → Steady R (process_certificate_with n process x)
      unfolding process_certificate_with
      process_certificate_with-Steady x = Steady-bind R k _ _ (Steady-gets R k _) (λ seen.
          Steady-seq R k _ _ (Steady-if R k seen _ _ (Steady-pure R k tt) (keeps x.header))
            (steps.certifies x))

      process_vote_with-Steady : (v : Vote) → Steady R (process_vote_with n process v)
      unfolding process_vote_with
      process_vote_with-Steady v = Steady-bind R k _ _ (append_own_vote-Steady v) (λ assembled.
          Steady-option R k assembled _ _ (Steady-pure R k tt) (λ x.
            Steady-seq R k _ _ (broadcast-Steady _ _)
              (Steady-expect R k _ (process_certificate_with-Steady x))))

      process_header_with-Steady : (h : Header) → Steady R (process_header_with n process h)
      unfolding process_header_with
      process_header_with-Steady h =
          Steady-seq R k _ _ (Steady-modify R k _ (λ s. k.aside s _ refl refl refl)) (
            Steady-bind R k _ _ (get_parents-Steady R k n h) (λ parents.
              Steady-if R k _ _ _ (Steady-pure R k tt) (
                Steady-bind R k _ _ (Steady-lift R k _) (λ total.
                  Steady-seq R k _ _ (Steady-lift R k _) (
                    Steady-bind R k _ _ (missing_payload-Steady R k n h) (λ missing.
                      Steady-if R k missing _ _ (Steady-pure R k tt) (
                        Steady-seq R k _ _ (steps.writes _ _)
                          (steps.votes process h process_vote_with-Steady))))))))

    stuck-Steady : Steady R {A = Unit {0}} (λ s. out_of_fuel)
    unfolding Steady Reaches
    stuck-Steady s = tt

    process_header-Steady : (fuel : ℕ) (h : Header) → Steady R (process_header n fuel h)
    unfolding process_header
    process_header-Steady zero h = stuck-Steady
    process_header-Steady (suc fuel) h =
        process_header_with-Steady (process_header n fuel) (process_header-Steady fuel) h

    process_own_header-Steady : (fuel : ℕ) (h : Header) → Steady R (process_own_header n fuel h)
    unfolding process_own_header
    process_own_header-Steady fuel h =
        Steady-seq R k _ _ (Steady-modify R k _ (λ s. k.aside s _ refl refl refl))
          (Steady-seq R k _ _ (broadcast-Steady _ _) (process_header-Steady fuel h))

    process_vote-Steady : (fuel : ℕ) (v : Vote) → Steady R (process_vote n fuel v)
    unfolding process_vote
    process_vote-Steady fuel v =
        process_vote_with-Steady (process_header n fuel) (process_header-Steady fuel) v

    process_certificate-Steady :
        (fuel : ℕ) (x : Certificate) → Steady R (process_certificate n fuel x)
    unfolding process_certificate
    process_certificate-Steady fuel x =
        process_certificate_with-Steady (process_header n fuel) (process_header-Steady fuel) x

    Steady-at : {A : Type 0} (m : Action A) → Steady R m → (s : Core) → Reaches R s (m s)
    unfolding Steady
    Steady-at m h s = h s

    stops : (s : Core) → Reaches R {A = Unit {0}} s panics
    unfolding Reaches
    stops s = tt

    pub handle-Steady :
        (fuel : ℕ) (input : Input n) (s : Core) → Reaches R s (handle n fuel input s)
    unfolding handle
    handle-Steady fuel (from_primary (header_message h)) s =
        Steady-at _ (Steady-seq R k _ _ (Steady-lift R k _) (process_header-Steady fuel h)) s
    handle-Steady fuel (from_primary (vote_message v)) s =
        Steady-at _ (Steady-seq R k _ _ (Steady-lift R k _) (process_vote-Steady fuel v)) s
    handle-Steady fuel (from_primary (certificate_message x)) s =
        Steady-at _ (Steady-seq R k _ _ (Steady-lift R k _) (process_certificate-Steady fuel x)) s
    handle-Steady fuel (from_primary (certificates_request ds a)) s = stops s
    handle-Steady fuel (from_header_waiter h) s = Steady-at _ (process_header-Steady fuel h) s
    handle-Steady fuel (from_certificate_waiter x) s =
        Steady-at _ (process_certificate-Steady fuel x) s
    handle-Steady fuel (from_proposer h) s = Steady-at _ (process_own_header-Steady fuel h) s

    after-Reaches : (s : Core) (o : Outcome (Unit {0})) → Reaches R s o → Reaches R s (after n o)
    unfolding Reaches after
    after-Reaches s (returns t (ok a)) w = w
    after-Reaches s (returns t (err (store_error x))) w = tt
    after-Reaches s (returns t (err invalid_signature)) w = w
    after-Reaches s (returns t (err serialization_error)) w = w
    after-Reaches s (returns t (err invalid_header_id)) w = w
    after-Reaches s (returns t (err (malformed_header x))) w = w
    after-Reaches s (returns t (err (unknown_authority x))) w = w
    after-Reaches s (returns t (err (authority_reuse x))) w = w
    after-Reaches s (returns t (err (unexpected_vote x))) w = w
    after-Reaches s (returns t (err certificate_requires_quorum)) w = w
    after-Reaches s (returns t (err (header_requires_quorum x))) w = w
    after-Reaches s (returns t (err (too_old x y))) w = w
    after-Reaches s panics w = tt
    after-Reaches s out_of_fuel w = tt

    cleaned-Reaches :
        (s t : Core) (result : DagResult (Unit {0})) (r : Round)
        → R t (cleanup n r t)
        → Reaches R s (returns t result)
        → Reaches R s (returns (cleanup n r t) result)
    unfolding Reaches
    cleaned-Reaches s t result r c w = k.next s t (cleanup n r t) w c

    turn-Steady :
        (fuel : ℕ) (consensus_round : Round) (input : Input n)
        → ((s : Core) → R s (cleanup n consensus_round s))
        → Steady R (turn n fuel consensus_round input)
    unfolding Steady turn
    turn-Steady fuel r input cleans s =
        cleaned (after n (handle n fuel input s)) (after-Reaches s _ (handle-Steady fuel input s))
      where
        cleaned :
            (o : Outcome (Unit {0}))
            → Reaches R s o
            → Reaches R s (elim o [
              | returns t result ↦ returns (cleanup n r t) result
              | panics ↦ panics
              | out_of_fuel ↦ out_of_fuel
            ])
        cleaned (returns t result) w = cleaned-Reaches s t result r (cleans t) w
        cleaned panics w = w
        cleaned out_of_fuel w = w

    pub run-Steady :
        (fuel : ℕ) (inputs : List (Round × Input n))
        → All (λ e. (s : Core) → R s (cleanup n e.0 s)) inputs
        → Steady R (run n fuel inputs)
    unfolding run
    run-Steady fuel [] h = Steady-pure R k tt
    run-Steady fuel ((r, input) ∷ rest) h =
        Steady-seq R k _ _ (turn-Steady fuel r input h.0) (run-Steady fuel rest h.1)
