-- ===== src/Proposer.antt =====
-- primary/src/proposer.rs: when a primary makes a new header, and from what. `none` is a panic.
pub mod Votes
pub mod Rounds
pub mod Digests
use bullshark_ubuntu.Base.{
  ℕ, zero, suc, ◌+◌, ◌%◌, ◌==◌, ◌&&◌, ◌||◌, not, leb, ltb, if◌then◌else◌, is_empty, Bool, true,
  false, Option, none, some, List, [], ◌∷◌, ◌++◌, map, keys, find, contains, add_u32, add_u64,
}
use bullshark_ubuntu.Config
use bullshark_ubuntu.Config.{
  Committee, PublicKey, Stake, WorkerId, SocketAddr, stake, quorum_threshold, validity_threshold,
}
use bullshark_ubuntu.Crypto.{Digest, Dalek}
use bullshark_ubuntu.Messages.Header
use bullshark_ubuntu.Messages.Header.{Header, Round}
use bullshark_ubuntu.Messages.Certificate
use bullshark_ubuntu.Messages.Certificate.{Certificate, origin, genesis}
use bullshark_ubuntu.Adversary.{selected}

-- The fields that never change.
pub record Settings : Type 0 where
  pub name : PublicKey
  pub committee : Committee
  pub adversary_faults : ℕ
  pub adversary_seed : ℕ
  pub pause_batches_during_silence : Bool
  pub worker_addresses : List SocketAddr
  pub header_size : ℕ
  pub dalek : Dalek

pub data Effect : Type 0 where
  to_core : Header → Effect
  batch_silent : List SocketAddr → Round → Bool → Effect

-- The fields that change, the local `advance` of the loop, and what was sent, oldest first.
pub record Proposer : Type 0 where
  pub silence_round : Round
  pub silent : Bool
  pub round : Round
  pub last_parents : List Certificate
  pub last_leader : Option Certificate
  pub digests : List (Digest × WorkerId)
  pub payload_size : ℕ
  pub advance : Bool
  pub effects : List Effect

-- Collecting into a `BTreeMap`: the last value of a key is kept.
unfoldable pub tree_insert : ℕ → ℕ → List (ℕ × ℕ) → List (ℕ × ℕ)
tree_insert k v [] = (k, v) ∷ []
tree_insert k v ((j, w) ∷ m) =
    if ltb k j
    then (k, v) ∷ (j, w) ∷ m
    else if k == j
    then (k, v) ∷ m
    else (j, w) ∷ tree_insert k v m

unfoldable pub to_tree : List (ℕ × ℕ) → List (ℕ × ℕ) → List (ℕ × ℕ)
unfolding tree_insert
to_tree m [] = m
to_tree m ((k, v) ∷ rest) = to_tree (tree_insert k v m) rest

-- Collecting into a `BTreeSet`.
unfoldable pub to_set : List ℕ → List ℕ
unfolding to_tree
to_set xs = keys (to_tree [] (map (λ x. (x, 0)) xs))

module _ (c : Settings) where
  unfoldable pub new : Proposer
  new = record {
    silence_round = 0;
    silent = false;
    round = 0;
    last_parents = genesis c.committee;
    last_leader = none;
    digests = [];
    payload_size = 0;
    advance = true;
    effects = [];
  }

  unfoldable pub compute_silence : Round → Option Bool
  compute_silence r = elim (Config.leader c.committee r) [
    | none ↦ none
    | some steady ↦ some (
        selected c.dalek c.name (keys c.committee.authorities) r c.adversary_faults c.adversary_seed
          steady)
  ]

  abbrev pub prepared : Round → Bool → Proposer → Proposer
  prepared r silent p =
      let q = record p { silence_round = r; silent = silent } in
      if c.adversary_faults == 0 then q else record q {
        effects =
            p.effects
            ++ batch_silent c.worker_addresses r (silent && c.pause_batches_during_silence) ∷ [];
      }

  unfoldable pub prepare_round : Round → Proposer → Option Proposer
  unfolding compute_silence
  prepare_round r p = elim (compute_silence r) [
    | none ↦ none
    | some silent ↦ some (prepared r silent p)
  ]

  unfoldable pub make_header : Proposer → Proposer
  unfolding to_tree to_set
  make_header p =
      let parents = to_set (map (Certificate.digest c.dalek) p.last_parents) in
      let header = Header.new c.dalek c.name p.round (to_tree [] p.digests) parents in
      record p { digests = []; last_parents = []; effects = p.effects ++ to_core header ∷ [] }

  -- The result is kept in `advance`.
  unfoldable pub update_leader : Proposer → Option Proposer
  update_leader p = elim (Config.leader c.committee p.round) [
    | none ↦ none
    | some leader_name ↦ some (record p {
      last_leader = find (λ x. origin x == leader_name) p.last_parents;
      advance = elim (find (λ x. origin x == leader_name) p.last_parents) [
        | none ↦ false
        | some _ ↦ true
      ];
    })
  ]

  -- The stake for the leader and the stake not for it.
  unfoldable pub count_votes : Digest → List Certificate → Stake → Stake → Stake × Stake
  count_votes leader [] votes_for_leader no_votes = (votes_for_leader, no_votes)
  count_votes leader (x ∷ xs) votes_for_leader no_votes =
      if contains leader x.header.parents
      then count_votes leader xs (add_u32 votes_for_leader (stake c.committee (origin x))) no_votes
      else count_votes leader xs votes_for_leader (add_u32 no_votes (stake c.committee (origin x)))

  unfoldable pub enough_votes : Proposer → Bool
  unfolding count_votes
  enough_votes p = elim p.last_leader [
    | none ↦ true
    | some x ↦
        let votes = count_votes (Certificate.digest c.dalek x) p.last_parents 0 0 in
        leb (quorum_threshold c.committee) votes.0 || leb (validity_threshold c.committee) votes.1
  ]

  -- The next round, with the decision whether to be silent in it.
  unfoldable pub next_round : Proposer → Option Proposer
  unfolding prepare_round
  next_round p =
      let moved = record p { round = add_u64 p.round 1 } in
      if moved.silence_round == moved.round then some moved else prepare_round moved.round moved

  unfoldable pub enter : Proposer → Proposer
  unfolding make_header
  enter q =
      if q.silent
      then record q { last_parents = []; last_leader = none }
      else record (make_header q) { payload_size = 0 }

  -- The first half of a turn of the loop: go to the next round, silently or with a header.
  unfoldable pub propose : Bool → Proposer → Option Proposer
  unfolding next_round enter
  propose timer_expired p =
      if (timer_expired || (leb c.header_size p.payload_size && p.advance))
        && not (is_empty p.last_parents)
      then elim (next_round p) [ none ↦ none | some q ↦ some (enter q) ]
      else some p

  pub data Event : Type 0 where
    from_core : List Certificate → Round → Event
    from_workers : Digest → WorkerId → Event
    from_timer : Event

  -- `advance`, by the parity of the round.
  unfoldable pub update_advance : Proposer → Option Proposer
  unfolding update_leader enough_votes
  update_advance p =
      if p.round % 2 == 0 then update_leader p else some (record p { advance = enough_votes p })

  -- The second half: one event.
  unfoldable pub receive : Event → Proposer → Option Proposer
  unfolding prepare_round update_advance
  receive (from_core parents r) p =
      let jumped = prepare_round r (record p { round = r; last_parents = parents }) in
      if ltb p.round r
      then elim jumped [ none ↦ none | some q ↦ update_advance q ]
      else if ltb r p.round
      then update_advance p
      else update_advance (record p { last_parents = p.last_parents ++ parents })
  receive (from_workers digest worker_id) p = some (record p {
    payload_size = add_u64 p.payload_size 32;
    digests = p.digests ++ (digest, worker_id) ∷ [];
  })
  receive from_timer p = some p

  -- Turns of the loop, each with whether the timer had expired.
  unfoldable pub turns : Proposer → List (Bool × Event) → Option Proposer
  unfolding propose receive
  turns p [] = some p
  turns p ((timer_expired, event) ∷ rest) = elim (propose timer_expired p) [
    | none ↦ none
    | some q ↦ elim (receive event q) [ none ↦ none | some next ↦ turns next rest ]
  ]

  unfoldable pub run : List (Bool × Event) → Option Proposer
  unfolding new prepare_round turns
  run events = elim (prepare_round (add_u64 new.round 1) new) [
    | none ↦ none
    | some p ↦ turns p events
  ]
