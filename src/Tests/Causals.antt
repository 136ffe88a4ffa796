-- ===== src/Tests/Causals.antt =====
-- A run of the core of primary/src/core.rs in which a certificate is given to consensus.
use bullshark_ubuntu.Base.{
  ℕ, ◌≡◌, refl, ap, inl, inr, Bool, Bool-cases, Option, some, List, [], ◌∷◌, Result, length, retain,
  ok, false, true, le_bytes, be_bytes,
}
use bullshark_ubuntu.Config.{stake, quorum_threshold, primary}
use bullshark_ubuntu.Messages.Header.{Round}
use bullshark_ubuntu.Messages.Certificate
use bullshark_ubuntu.Messages.Certificate.{Certificate}
use bullshark_ubuntu.Messages.Vote
use bullshark_ubuntu.Aggregators
use bullshark_ubuntu.Core.State.{
  Node, Core, Outcome, returns, panics, out_of_fuel, ◌>>=◌, ◌>>◌, pure, lift, modify, gets, emit,
  expect, read, write, new, Effect, to_consensus,
}
use bullshark_ubuntu.Core.Synchronizer.{missing_payload, get_parents, deliver_certificate}
use bullshark_ubuntu.Core.Process.{process_header, process_certificate}
use bullshark_ubuntu.Core.Run.{Input, from_certificate_waiter, run}
use bullshark_ubuntu.Core.Causal.{Keeping, Complete}
use bullshark_ubuntu.Core.Causal.Run.{causally-Complete}
use bullshark_ubuntu.Tests.Storages.{memory, memory_reads_back, value}
use bullshark_ubuntu.Tests.{four, toy, cert}
use bullshark_ubuntu.Store.{same}

unwrap_ok :
    {v w : Option (List ℕ)} (r q : Result ℕ (Option (List ℕ))) → r ≡ q → r ≡ ok v → q ≡ ok w → v ≡ w
unwrap_ok r q e f g = cc

memory_keeps :
    (db : List (List ℕ × List ℕ)) (key v other found : List ℕ)
    → value other db ≡ some found
    → (later : List ℕ) × (value other ((key, v) ∷ db) ≡ some later)
memory_keeps db key v other found h = elim (Bool-cases (same key other)) [
  | inl e ↦ (v, rw e refl)
  | inr e ↦ (found, rw e h)
]

abbrev storing : Node
storing = record {
  name = 4;
  committee = four;
  gc_depth = 50;
  dalek = toy;
  rocks = memory;
  bincode = record {
    serialize_header = λ h. [];
    serialize_certificate = λ x. [];
    deserialize_certificate = λ b. some (cert 1 1 (1 ∷ 2 ∷ 3 ∷ []));
  };
}

keeping : Keeping storing
keeping = record {
  reads_back = memory_reads_back;
  keeps = λ db key v other found h.
      let (later, there) = memory_keeps db key v other found (unwrap_ok _ _ h refl refl) in
      (later, ap ok there);
}

-- Three certificates on the genesis, and one on these.
abbrev certificates : List (Round × Input storing)
certificates =
    (0, from_certificate_waiter (cert 1 1 (1 ∷ 2 ∷ 3 ∷ [])))
    ∷ (0, from_certificate_waiter (cert 1 2 (1 ∷ 2 ∷ 3 ∷ [])))
    ∷ (0, from_certificate_waiter (cert 1 3 (1 ∷ 2 ∷ 3 ∷ [])))
    ∷ (0, from_certificate_waiter (cert 2 1 (11 ∷ 12 ∷ 13 ∷ [])))
    ∷ []

abbrev state_of : Outcome (Unit {0}) → Core
state_of (returns s result) = s
state_of panics = new []
state_of out_of_fuel = new []

abbrev ending : Core
ending = state_of (run storing 2 certificates (new []))

causally-Complete_example : Complete storing ending
unfolding run ◌>>◌ process_certificate ◌>>=◌ gets modify get_parents Certificate.genesis
    Certificate.digest pure lift quorum_threshold stake missing_payload write primary emit expect
    read Vote.new process_header deliver_certificate be_bytes le_bytes Vote.hashed_bytes
    Aggregators.append_certificate
causally-Complete_example = causally-Complete storing keeping 2 certificates [] ending (ok tt) refl

abbrev goes_to_consensus : Effect → Bool
goes_to_consensus e = elim e [ to_consensus x ↦ true | _ ↦ false ]

four_delivered : length (retain goes_to_consensus ending.effects) ≡ 4
unfolding run ◌>>◌ process_certificate ◌>>=◌ gets modify get_parents Certificate.genesis
    Certificate.digest pure lift quorum_threshold stake missing_payload write primary emit expect
    read Vote.new process_header deliver_certificate be_bytes le_bytes Vote.hashed_bytes
    Aggregators.append_certificate
four_delivered = refl
