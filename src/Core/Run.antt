-- ===== src/Core/Run.antt =====
-- `sanitize` and the main loop of `Core` of primary/src/core.rs.
use bullshark_ubuntu.Base.{
  ℕ, ◌-◌, ◌==◌, ◌&&◌, if◌then◌else◌, leb, ltb, List, [], ◌∷◌, retain, ok, err,
}
use bullshark_ubuntu.Error.{DagError, DagResult, too_old, unexpected_vote, store_error, ensure}
use bullshark_ubuntu.Error
use bullshark_ubuntu.Messages.Header
use bullshark_ubuntu.Messages.Header.{Header, Round}
use bullshark_ubuntu.Messages.Vote
use bullshark_ubuntu.Messages.Vote.{Vote}
use bullshark_ubuntu.Messages.Certificate
use bullshark_ubuntu.Messages.Certificate.{Certificate, round}
use bullshark_ubuntu.Core.State.{
  Node, Core, Action, Outcome, returns, panics, out_of_fuel, ◌>>◌, lift, pure, PrimaryMessage,
  header_message, vote_message, certificate_message, certificates_request,
}
use bullshark_ubuntu.Core.Process.{
  process_header, process_vote, process_certificate, process_own_header,
}

module _ (n : Node) where
  unfoldable pub sanitize_header : Core → Header → DagResult (Unit {0})
  sanitize_header s header =
      Error.◌>>◌ (ensure (leb s.gc_round header.round) (too_old header.id header.round))
        (Header.verify n.dalek n.committee header)

  unfoldable pub sanitize_vote : Core → Vote → DagResult (Unit {0})
  sanitize_vote s vote =
      Error.◌>>◌
        (ensure (leb s.current_header.round vote.round)
          (too_old (Vote.digest n.dalek vote) vote.round))
        (Error.◌>>◌
          (ensure
            (vote.id == s.current_header.id
              && (vote.origin == s.current_header.author && vote.round == s.current_header.round))
            (unexpected_vote vote.id))
          (Vote.verify n.dalek n.committee vote))

  unfoldable pub sanitize_certificate : Core → Certificate → DagResult (Unit {0})
  sanitize_certificate s certificate =
      Error.◌>>◌
        (ensure (leb s.gc_round (round certificate))
          (too_old (Certificate.digest n.dalek certificate) (round certificate)))
        (Certificate.verify n.dalek n.committee certificate)

  -- The channels of the loop.
  pub data Input : Type 0 where
    from_primary : PrimaryMessage → Input
    from_header_waiter : Header → Input
    from_certificate_waiter : Certificate → Input
    from_proposer : Header → Input

  unfoldable pub handle : ℕ → Input → Action (Unit {0})
  unfolding sanitize_header sanitize_vote sanitize_certificate
  handle fuel (from_primary (header_message header)) s =
      (lift (sanitize_header s header) >> process_header n fuel header) s
  handle fuel (from_primary (vote_message vote)) s =
      (lift (sanitize_vote s vote) >> process_vote n fuel vote) s
  handle fuel (from_primary (certificate_message certificate)) s =
      (lift (sanitize_certificate s certificate) >> process_certificate n fuel certificate) s
  handle fuel (from_primary (certificates_request digests requestor)) s = panics
  handle fuel (from_header_waiter header) s = process_header n fuel header s
  handle fuel (from_certificate_waiter certificate) s = process_certificate n fuel certificate s
  handle fuel (from_proposer header) s = process_own_header n fuel header s

  -- A storage failure kills the node; other errors are logged.
  unfoldable pub after : Outcome (Unit {0}) → Outcome (Unit {0})
  after (returns s (err (store_error e))) = panics
  after (returns s result) = returns s (ok tt)
  after panics = panics
  after out_of_fuel = out_of_fuel

  unfoldable pub cleanup : Round → Core → Core
  cleanup consensus_round s =
      if ltb n.gc_depth consensus_round
      then (let gc_round = consensus_round - n.gc_depth in
          record s {
            last_voted = retain (λ e. leb gc_round e.0) s.last_voted;
            processing = retain (λ e. leb gc_round e.0) s.processing;
            certificates_aggregators = retain (λ e. leb gc_round e.0) s.certificates_aggregators;
            cancel_handlers = retain (λ e. leb gc_round e.0) s.cancel_handlers;
            gc_round = gc_round;
          })
      else s

  -- One turn of the loop, with the round that consensus reached.
  unfoldable pub turn : ℕ → Round → Input → Action (Unit {0})
  unfolding handle after cleanup
  turn fuel consensus_round input s = elim (after (handle fuel input s)) [
    | returns t result ↦ returns (cleanup consensus_round t) result
    | panics ↦ panics
    | out_of_fuel ↦ out_of_fuel
  ]

  -- The loop over some inputs, each with the round that consensus has reached after it.
  unfoldable pub run : ℕ → List (Round × Input) → Action (Unit {0})
  unfolding turn
  run fuel [] = pure tt
  run fuel ((consensus_round, input) ∷ rest) = do turn fuel consensus_round input; run fuel rest
