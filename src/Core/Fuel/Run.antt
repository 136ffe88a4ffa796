-- ===== src/Core/Fuel/Run.antt =====
-- The main loop of primary/src/core.rs with two units of fuel.
use bullshark_ubuntu.Base.{ℕ, suc, ◌≢◌, subst, List, [], ◌∷◌, ok, err}
use bullshark_ubuntu.Error.{
  invalid_signature, serialization_error, invalid_header_id, malformed_header, unknown_authority,
  authority_reuse, unexpected_vote, certificate_requires_quorum, header_requires_quorum, too_old,
  store_error,
}
use bullshark_ubuntu.Messages.Header.{Header, Round}
use bullshark_ubuntu.Core.State.{
  Node, Core, Action, Outcome, returns, panics, out_of_fuel, and_then, ◌>>◌, pure, modify,
  header_message, vote_message, certificate_message, certificates_request,
}
use bullshark_ubuntu.Core.Process.{process_own_header}
use bullshark_ubuntu.Core.Run.{
  Input, from_primary, from_header_waiter, from_certificate_waiter, from_proposer, handle, after,
  cleanup, turn, run,
}
use bullshark_ubuntu.Core.Fuel.{Ended, Ends, Ends-seq, Ends-lift}
use bullshark_ubuntu.Core.Fuel.Calls.{
  broadcast-Ends, process_header-Ends, process_vote-Ends, process_certificate-Ends,
}

-- A call that returns or panics.
abbrev IsDone : {A : Type 0} → Outcome A → Type 0
IsDone (returns s result) = Unit
IsDone panics = Unit
IsDone out_of_fuel = ⊥

Ended-IsDone : {A : Type 0} (s : Core) (o : Outcome A) → Ended s o → IsDone o
unfolding Ended
Ended-IsDone s (returns t result) e = tt
Ended-IsDone s panics e = tt
Ended-IsDone s out_of_fuel e = e

Ends-IsDone : {A : Type 0} (m : Action A) (s : Core) → Ends m s → IsDone (m s)
unfolding Ends
Ends-IsDone m s e = Ended-IsDone s (m s) e

then-IsDone :
    {A B : Type 0} (m : Action A) (k : Action B) (s : Core)
    → IsDone (m s)
    → ((t : Core) → IsDone (k t))
    → IsDone ((m >> k) s)
unfolding ◌>>◌ and_then
then-IsDone {A} {B} m k s d f = go (m s) d
  where
    go : (o : Outcome A) → IsDone o → IsDone (and_then o (λ _. k))
    go (returns t (ok a)) e = f t
    go (returns t (err x)) e = tt
    go panics e = tt
    go out_of_fuel e = e

module _ (n : Node) (fuel : ℕ) where
  modified : (f : Core → Core) (s : Core) → IsDone (modify f s)
  unfolding modify
  modified f s = tt

  own_header-IsDone : (h : Header) (s : Core) → IsDone (process_own_header n (suc (suc fuel)) h s)
  unfolding process_own_header
  own_header-IsDone h s = then-IsDone _ _ s (modified _ s) (λ t.
      Ends-IsDone _ t
        (Ends-seq _ _ t (broadcast-Ends n _ _ t) (λ u a. process_header-Ends n fuel h u)))

  handle-IsDone : (input : Input n) (s : Core) → IsDone (handle n (suc (suc fuel)) input s)
  unfolding handle
  handle-IsDone (from_primary (header_message h)) s =
      Ends-IsDone _ s (Ends-seq _ _ s (Ends-lift _ s) (λ t a. process_header-Ends n fuel h t))
  handle-IsDone (from_primary (vote_message v)) s =
      Ends-IsDone _ s (Ends-seq _ _ s (Ends-lift _ s) (λ t a. process_vote-Ends n fuel v t))
  handle-IsDone (from_primary (certificate_message x)) s =
      Ends-IsDone _ s (Ends-seq _ _ s (Ends-lift _ s) (λ t a. process_certificate-Ends n fuel x t))
  handle-IsDone (from_primary (certificates_request ds a)) s = tt
  handle-IsDone (from_header_waiter h) s = Ends-IsDone _ s (process_header-Ends n fuel h s)
  handle-IsDone (from_certificate_waiter x) s =
      Ends-IsDone _ s (process_certificate-Ends n fuel x s)
  handle-IsDone (from_proposer h) s = own_header-IsDone h s

  after-IsDone : (o : Outcome (Unit {0})) → IsDone o → IsDone (after n o)
  unfolding after
  after-IsDone (returns s (ok a)) d = tt
  after-IsDone (returns s (err (store_error x))) d = tt
  after-IsDone (returns s (err invalid_signature)) d = tt
  after-IsDone (returns s (err serialization_error)) d = tt
  after-IsDone (returns s (err invalid_header_id)) d = tt
  after-IsDone (returns s (err (malformed_header x))) d = tt
  after-IsDone (returns s (err (unknown_authority x))) d = tt
  after-IsDone (returns s (err (authority_reuse x))) d = tt
  after-IsDone (returns s (err (unexpected_vote x))) d = tt
  after-IsDone (returns s (err certificate_requires_quorum)) d = tt
  after-IsDone (returns s (err (header_requires_quorum x))) d = tt
  after-IsDone (returns s (err (too_old x y))) d = tt
  after-IsDone panics d = tt
  after-IsDone out_of_fuel d = d

  turn-IsDone :
      (consensus_round : Round) (input : Input n) (s : Core)
      → IsDone (turn n (suc (suc fuel)) consensus_round input s)
  unfolding turn
  turn-IsDone k input s =
      cleaned (after n (handle n (suc (suc fuel)) input s)) (after-IsDone _ (handle-IsDone input s))
    where
      cleaned :
          (o : Outcome (Unit {0}))
          → IsDone o
          → IsDone (elim o [
            | returns t result ↦ returns (cleanup n k t) result
            | panics ↦ panics
            | out_of_fuel ↦ out_of_fuel
          ])
      cleaned (returns t result) d = tt
      cleaned panics d = tt
      cleaned out_of_fuel d = d

  run-IsDone :
      (inputs : List (Round × Input n)) (s : Core) → IsDone (run n (suc (suc fuel)) inputs s)
  unfolding run pure
  run-IsDone [] s = tt
  run-IsDone ((k, input) ∷ rest) s = then-IsDone _ _ s (turn-IsDone k input s) (run-IsDone rest)

-- From any state and on any inputs, the main loop of the core with two units of fuel or more returns or panics: the fuel does not run out.
pub run_ends :
    (n : Node) (fuel : ℕ) (inputs : List (Round × Input n)) (s : Core)
    → run n (suc (suc fuel)) inputs s ≢ out_of_fuel
run_ends n fuel inputs s e = subst IsDone e (run-IsDone n fuel inputs s)
