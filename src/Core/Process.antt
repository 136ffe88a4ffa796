-- ===== src/Core/Process.antt =====
-- The `process` methods of `Core` of primary/src/core.rs. They call each other: the fuel is
-- spent where a certificate's own header is processed.
use bullshark_ubuntu.Base.{
  ℕ, zero, suc, ◌==◌, if◌then◌else◌, is_empty, leb, not, Option, List, [], ◌∷◌, ◌++◌, map, lookup,
  insert, unwrap_or, ok, err, add_u32, add_u64,
}
use bullshark_ubuntu.Config.{SocketAddr, Stake, stake, quorum_threshold, primary, others_primaries}
use bullshark_ubuntu.Error.{DagResult, malformed_header, header_requires_quorum, ensure}
use bullshark_ubuntu.Messages.Header.{Header, Round}
use bullshark_ubuntu.Messages.Vote
use bullshark_ubuntu.Messages.Vote.{Vote}
use bullshark_ubuntu.Messages.Certificate
use bullshark_ubuntu.Messages.Certificate.{Certificate, round, origin}
use bullshark_ubuntu.Aggregators.{new_votes, new_certificates, append_vote, append_certificate}
use bullshark_ubuntu.Core.State.{
  Node, Action, returns, panics, out_of_fuel, ◌>>=◌, ◌>>◌, pure, lift, gets, modify, emit, expect,
  write, map_or_else, insert_in, holds, digest_key, PrimaryMessage, header_message, vote_message,
  certificate_message, sends, broadcasts, to_proposer, to_consensus,
}
use bullshark_ubuntu.Core.Synchronizer.{get_parents, missing_payload, deliver_certificate}

module _ (n : Node) where
  -- The stake of the parents, all of the previous round.
  unfoldable pub parents_stake : Header → List Certificate → Stake → DagResult Stake
  parents_stake header [] total = ok total
  parents_stake header (x ∷ xs) total =
      if add_u64 (round x) 1 == header.round
      then parents_stake header xs (add_u32 total (stake n.committee (origin x)))
      else err (malformed_header header.id)

  abbrev others : List SocketAddr
  others = map (λ e. e.1.primary_to_primary) (others_primaries n.committee n.name)

  -- Keep the handlers of messages that belong to a round.
  unfoldable pub keep_handlers : Round → List (SocketAddr × PrimaryMessage) → Action (Unit {0})
  keep_handlers r handlers = modify (λ s. record s {
    cancel_handlers =
        insert r (unwrap_or [] (lookup r s.cancel_handlers) ++ handlers) s.cancel_handlers;
  })

  unfoldable pub broadcast : Round → PrimaryMessage → Action (Unit {0})
  unfolding keep_handlers
  broadcast r message = do
    emit (broadcasts others message)
    keep_handlers r (map (λ a. (a, message)) others)

  unfoldable pub append_to_round : Certificate → Action (Option (List Certificate))
  append_to_round certificate s =
      let r = round certificate in
      let (aggregator, result) =
        append_certificate (unwrap_or new_certificates (lookup r s.certificates_aggregators))
          certificate n.committee in
      returns
        (record s { certificates_aggregators = insert r aggregator s.certificates_aggregators })
        result

  unfoldable pub append_own_vote : Vote → Action (Option Certificate)
  append_own_vote vote s =
      let (aggregator, result) = append_vote s.votes_aggregator vote n.committee s.current_header in
      returns (record s { votes_aggregator = aggregator }) result

  module _ (process_header : Header → Action (Unit {0})) where
    unfoldable pub process_certificate_with : Certificate → Action (Unit {0})
    unfolding append_to_round
    process_certificate_with certificate = do
      seen ← gets (λ s. holds certificate.header.round certificate.header.id s.processing)
      if seen then pure tt else process_header certificate.header
      delivered ← deliver_certificate n certificate
      if not delivered then pure tt else do
        write n (digest_key (Certificate.digest n.dalek certificate))
            (n.bincode.serialize_certificate certificate)
        parents ← append_to_round certificate
        map_or_else (pure tt) (λ certificates. emit (to_proposer certificates (round certificate)))
            parents
        emit (to_consensus certificate)

    unfoldable pub process_vote_with : Vote → Action (Unit {0})
    unfolding append_own_vote process_certificate_with broadcast
    process_vote_with vote = do
      assembled ← append_own_vote vote
      map_or_else (pure tt)
          (λ certificate. do
            broadcast (round certificate) (certificate_message certificate)
            expect (process_certificate_with certificate))
          assembled

    -- Our own vote is processed, and another goes to the header's author.
    unfoldable pub send_vote : Header → Action (Unit {0})
    unfolding process_vote_with keep_handlers
    send_vote header =
        let vote = Vote.new n.dalek header n.name in
        if header.author == n.name
        then expect (process_vote_with vote)
        else elim (primary n.committee header.author) [
          | err _ ↦ λ s. panics
          | ok addresses ↦ do
            emit (sends addresses.primary_to_primary (vote_message vote))
            keep_handlers header.round ((addresses.primary_to_primary, vote_message vote) ∷ [])
        ]

    -- The vote on a header whose author we did not vote for yet, in its round.
    unfoldable pub vote_for : Header → Action (Unit {0})
    unfolding send_vote
    vote_for header = do
      voted ← gets (λ s. holds header.round header.author s.last_voted)
      modify (λ s. record s { last_voted = insert_in header.round header.author s.last_voted })
      if voted then pure tt else send_vote header

    unfoldable pub process_header_with : Header → Action (Unit {0})
    unfolding parents_stake vote_for
    process_header_with header = do
      modify (λ s. record s { processing = insert_in header.round header.id s.processing })
      parents ← get_parents n header
      if is_empty parents then pure tt else do
        total ← lift (parents_stake header parents 0)
        lift (ensure (leb (quorum_threshold n.committee) total) (header_requires_quorum header.id))
        missing ← missing_payload n header
        if missing then pure tt else do
          write n (digest_key header.id) (n.bincode.serialize_header header)
          vote_for header

  unfoldable pub process_header : ℕ → Header → Action (Unit {0})
  unfolding process_header_with
  process_header zero header = λ s. out_of_fuel
  process_header (suc fuel) header = process_header_with (process_header fuel) header

  unfoldable pub process_vote : ℕ → Vote → Action (Unit {0})
  unfolding process_vote_with process_header
  process_vote fuel = process_vote_with (process_header fuel)

  unfoldable pub process_certificate : ℕ → Certificate → Action (Unit {0})
  unfolding process_certificate_with process_header
  process_certificate fuel = process_certificate_with (process_header fuel)

  unfoldable pub process_own_header : ℕ → Header → Action (Unit {0})
  unfolding process_header broadcast
  process_own_header fuel header = do
    modify (λ s. record s { current_header = header; votes_aggregator = new_votes })
    broadcast header.round (header_message header)
    process_header fuel header
