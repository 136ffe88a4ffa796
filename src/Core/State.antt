-- ===== src/Core/State.antt =====
-- The state of the core of a primary, what it sends, and the outcome of its methods.
-- RocksDB and bincode are arguments; a send on a channel is recorded as an effect.
use bullshark_ubuntu.Base.{
  ℕ, if◌then◌else◌, Bool, Option, none, some, List, [], ◌∷◌, ◌++◌, lookup, insert, unwrap_or,
  contains, Result, ok, err, be_bytes, le_bytes,
}
use bullshark_ubuntu.Config.{Committee, PublicKey, WorkerId, SocketAddr}
use bullshark_ubuntu.Crypto.{Digest, Dalek}
use bullshark_ubuntu.Error.{DagResult, store_error}
use bullshark_ubuntu.Messages.Header.{Header, Round, default}
use bullshark_ubuntu.Messages.Vote.{Vote}
use bullshark_ubuntu.Messages.Certificate.{Certificate}
use bullshark_ubuntu.Aggregators.{VotesAggregator, CertificatesAggregator, new_votes}

abbrev pub Bytes : Type 0
Bytes = List ℕ

abbrev pub Store : Type 0
Store = List (Bytes × Bytes)

-- What the store calls of RocksDB: a read may fail.
pub record Rocks : Type 0 where
  pub put : Store → Bytes → Bytes → Store
  pub get : Store → Bytes → Result ℕ (Option Bytes)

-- What the core calls of bincode.
pub record Bincode : Type 0 where
  pub serialize_header : Header → Bytes
  pub serialize_certificate : Certificate → Bytes
  pub deserialize_certificate : Bytes → Option Certificate

pub data PrimaryMessage : Type 0 where
  header_message : Header → PrimaryMessage
  vote_message : Vote → PrimaryMessage
  certificate_message : Certificate → PrimaryMessage
  certificates_request : List Digest → PublicKey → PrimaryMessage

pub data WaiterMessage : Type 0 where
  sync_batches : List (Digest × WorkerId) → Header → WaiterMessage
  sync_parents : List Digest → Header → WaiterMessage

-- A message handed to the reliable sender; its cancel handler keeps it being sent again.
abbrev pub CancelHandler : Type 0
CancelHandler = SocketAddr × PrimaryMessage

pub data Effect : Type 0 where
  sends : SocketAddr → PrimaryMessage → Effect
  broadcasts : List SocketAddr → PrimaryMessage → Effect
  to_proposer : List Certificate → Round → Effect
  to_consensus : Certificate → Effect
  to_header_waiter : WaiterMessage → Effect
  to_certificate_waiter : Certificate → Effect

-- The fields that never change.
pub record Node : Type 0 where
  pub name : PublicKey
  pub committee : Committee
  pub gc_depth : Round
  pub dalek : Dalek
  pub rocks : Rocks
  pub bincode : Bincode

-- The fields that change, the storage, and the effects so far, oldest first.
pub record Core : Type 0 where
  pub gc_round : Round
  pub last_voted : List (Round × List PublicKey)
  pub processing : List (Round × List Digest)
  pub current_header : Header
  pub votes_aggregator : VotesAggregator
  pub certificates_aggregators : List (Round × CertificatesAggregator)
  pub cancel_handlers : List (Round × List CancelHandler)
  pub store : Store
  pub effects : List Effect

abbrev pub new : Store → Core
new store = record {
  gc_round = 0;
  last_voted = [];
  processing = [];
  current_header = default;
  votes_aggregator = new_votes;
  certificates_aggregators = [];
  cancel_handlers = [];
  store = store;
  effects = [];
}

-- A call returns a result and leaves a state, also on an error; or it panics. The recursion of
-- the three `process` methods is on fuel.
pub data Outcome (A : Type 0) : Type 0 where
  returns : Core → DagResult A → Outcome A
  panics : Outcome A
  out_of_fuel : Outcome A

abbrev pub Action : Type 0 → Type 0
Action A = Core → Outcome A

unfoldable pub and_then : {A B : Type 0} → Outcome A → (A → Action B) → Outcome B
and_then (returns s (ok a)) f = f a s
and_then (returns s (err e)) f = returns s (err e)
and_then panics f = panics
and_then out_of_fuel f = out_of_fuel

-- `Option::map_or_else`, for a `match` on an option.
abbrev pub map_or_else : {A B : Type 0} → B → (A → B) → Option A → B
map_or_else d f none = d
map_or_else d f (some a) = f a

infixl 5 ◌>>=◌ ◌>>◌
unfoldable pub ◌>>=◌ : {A B : Type 0} → Action A → (A → Action B) → Action B
unfolding and_then
◌>>=◌ m f s = and_then (m s) f

unfoldable pub ◌>>◌ : {A B : Type 0} → Action A → Action B → Action B
unfolding and_then
◌>>◌ m k s = and_then (m s) (λ _. k)

unfoldable pub pure : {A : Type 0} → A → Action A
pure a s = returns s (ok a)

unfoldable pub lift : {A : Type 0} → DagResult A → Action A
lift r s = returns s r

unfoldable pub modify : (Core → Core) → Action (Unit {0})
modify f s = returns (f s) (ok tt)

unfoldable pub gets : {A : Type 0} → (Core → A) → Action A
gets f s = returns s (ok (f s))

unfoldable pub emit : Effect → Action (Unit {0})
unfolding modify
emit e = modify (λ s. record s { effects = s.effects ++ e ∷ [] })

-- `expect`
abbrev pub expect_outcome : {A : Type 0} → Outcome A → Outcome A
expect_outcome (returns s (ok a)) = returns s (ok a)
expect_outcome (returns s (err e)) = panics
expect_outcome panics = panics
expect_outcome out_of_fuel = out_of_fuel

unfoldable pub expect : {A : Type 0} → Action A → Action A
expect m s = expect_outcome (m s)

-- A `HashMap` from rounds to sets, with an insertion into the set of a round.
abbrev pub insert_in : Round → ℕ → List (Round × List ℕ) → List (Round × List ℕ)
insert_in r x m =
    let xs = unwrap_or [] (lookup r m) in
    if contains x xs then insert r xs m else insert r (x ∷ xs) m

abbrev pub holds : Round → ℕ → List (Round × List ℕ) → Bool
holds r x m = contains x (unwrap_or [] (lookup r m))

-- `Store::read` and `Store::write`; the result of a write is not looked at.
abbrev stored : Result ℕ (Option Bytes) → DagResult (Option Bytes)
stored (ok v) = ok v
stored (err e) = err (store_error e)

unfoldable pub read : Node → Bytes → Action (Option Bytes)
read n key s = returns s (stored (n.rocks.get s.store key))

unfoldable pub write : Node → Bytes → Bytes → Action (Unit {0})
unfolding modify
write n key value = modify (λ s. record s { store = n.rocks.put s.store key value })

-- `Digest::to_vec`, and the key of a batch: the digest and the worker's id.
abbrev pub digest_key : Digest → Bytes
digest_key d = be_bytes 32 d

abbrev pub batch_key : Digest → WorkerId → Bytes
batch_key d id = be_bytes 32 d ++ le_bytes 4 id
