-- ===== src/Core/Votes.antt =====
-- The votes that the core of primary/src/core.rs sends: a bound that every call keeps.
pub mod Once
pub mod Run
use bullshark_ubuntu.Base.{
  ℕ, zero, suc, ◌+◌, ◌≤◌, ◌<◌, ◌≡◌, refl, ap, ◌==◌, ◌&&◌, not, is_empty, if◌then◌else◌, Bool, true,
  false, Option, none, some, List, [], ◌∷◌, ◌++◌, length, retain, any, lookup, map, arith, ok, err,
  ok_or, Bool-cases, Option-cases, inl, inr,
}
use bullshark_ubuntu.Config.{PublicKey, WorkerId}
use bullshark_ubuntu.Crypto.{Digest}
use bullshark_ubuntu.Error.{DagResult, serialization_error}
use bullshark_ubuntu.Messages.Header.{Header, Round}
use bullshark_ubuntu.Messages.Vote.{Vote}
use bullshark_ubuntu.Messages.Certificate.{Certificate}
use bullshark_ubuntu.Core.State.{
  Node, Core, Action, Outcome, returns, panics, out_of_fuel, and_then, ◌>>=◌, ◌>>◌, expect,
  expect_outcome, map_or_else, pure, gets, write, lift, read, Bytes, digest_key, emit, holds,
  Effect, sends, broadcasts, to_proposer, to_consensus, to_header_waiter, to_certificate_waiter,
  header_message, vote_message, certificate_message, certificates_request,
}
use bullshark_ubuntu.Core.Steady.{Steadiness, Reaches, Steady, is_plain, emitted}
use bullshark_ubuntu.Core.Synchronizer.{
  missing_batches, missing_payload, collect, get_parents, deliver, deliver_certificate,
  genesis_digests,
}

module _ (r : Round) (author : PublicKey) where
  abbrev pub is_vote : Effect → Bool
  is_vote (sends address (vote_message vote)) = vote.round == r && vote.origin == author
  is_vote (sends address (header_message x)) = false
  is_vote (sends address (certificate_message x)) = false
  is_vote (sends address (certificates_request x y)) = false
  is_vote (broadcasts addresses message) = false
  is_vote (to_proposer xs k) = false
  is_vote (to_consensus x) = false
  is_vote (to_header_waiter x) = false
  is_vote (to_certificate_waiter x) = false

  -- The votes sent for headers of the author in the round.
  abbrev pub votes_sent : List Effect → ℕ
  votes_sent es = length (retain is_vote es)

  -- The votes sent, and the one that may still be.
  abbrev pub votes_left : Core → ℕ
  votes_left s = votes_sent s.effects + (if holds r author s.last_voted then 0 else 1)

  pub votes_sent-emit :
      (e : Effect) (es : List Effect)
      → is_vote e ≡ false
      → votes_sent (es ++ e ∷ []) ≡ votes_sent es
  votes_sent-emit e [] h = rw h refl
  votes_sent-emit e (x ∷ es) h = ground (arith, votes_sent-emit e es h)

  pub votes_sent-emit_le :
      (e : Effect) (es : List Effect) → votes_sent (es ++ e ∷ []) ≤ votes_sent es + 1
  votes_sent-emit_le e [] = ground arith
  votes_sent-emit_le e (x ∷ es) = ground (arith, votes_sent-emit_le e es)

  unfoldable pub Within : {A : Type 0} → ℕ → Outcome A → Type 0
  Within b (returns s result) = votes_left s ≤ b
  Within b panics = Unit
  Within b out_of_fuel = Unit

  pub Within-le : {A : Type 0} (o : Outcome A) (b c : ℕ) → b ≤ c → Within b o → Within c o
  unfolding Within
  Within-le (returns s result) b c h w = omega arith
  Within-le panics b c h w = tt
  Within-le out_of_fuel b c h w = tt

  -- After which no more votes are sent or may be than before.
  abbrev pub NoMore : Core → Core → Type 0
  NoMore s t = votes_left t ≤ votes_left s

  pub Reaches-Within :
      {A : Type 0} (s : Core) (o : Outcome A) → Reaches NoMore s o → Within (votes_left s) o
  unfolding Within Reaches
  Reaches-Within s (returns t result) h = h
  Reaches-Within s panics h = tt
  Reaches-Within s out_of_fuel h = tt

  pub Within-Reaches :
      {A : Type 0} (s : Core) (o : Outcome A) → Within (votes_left s) o → Reaches NoMore s o
  unfolding Within Reaches
  Within-Reaches s (returns t result) h = h
  Within-Reaches s panics h = tt
  Within-Reaches s out_of_fuel h = tt

  plain_no_vote : (e : Effect) → is_plain e ≡ true → is_vote e ≡ false
  plain_no_vote (sends address message) h = cc
  plain_no_vote (broadcasts addresses message) h = refl
  plain_no_vote (to_proposer xs k) h = refl
  plain_no_vote (to_consensus x) h = refl
  plain_no_vote (to_header_waiter x) h = refl
  plain_no_vote (to_certificate_waiter x) h = refl

  aside_le :
      (s t : Core)
      → t.store ≡ s.store
      → t.effects ≡ s.effects
      → t.last_voted ≡ s.last_voted
      → NoMore s t
  aside_le s t e f g = ground (arith, ap votes_sent f, ap (holds r author) g)

  pub NoMore-Steadiness : Steadiness NoMore
  NoMore-Steadiness = record {
    same = λ s. omega arith;
    next = λ s t u h g. omega arith;
    plain = λ e s h. omega (arith, votes_sent-emit e s.effects (plain_no_vote e h));
    aside = aside_le;
  }
