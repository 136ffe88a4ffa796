-- ===== src/Core/Causal.antt =====
-- What the core of primary/src/core.rs gives to consensus is in the storage, with its parents.
pub mod Run
use bullshark_ubuntu.Base.{
  ℕ, zero, suc, ◌≡◌, refl, sym, ap, ◌∙◌, subst, ◌==◌, ◌⊎◌, inl, inr, if◌then◌else◌, not, ltb, any,
  Bool, true, false, Option, none, some, List, [], ◌∷◌, ◌++◌, All, All-mono, All-append, Bool-cases,
  Result, Result-cases, ok, err,
}
use bullshark_ubuntu.Config.{ConfigError, PrimaryAddresses, primary}
use bullshark_ubuntu.Crypto.{Digest}
use bullshark_ubuntu.Error.{DagResult}
use bullshark_ubuntu.Messages.Header.{Header, Round}
use bullshark_ubuntu.Messages.Vote
use bullshark_ubuntu.Messages.Vote.{Vote}
use bullshark_ubuntu.Messages.Certificate
use bullshark_ubuntu.Messages.Certificate.{Certificate, round}
use bullshark_ubuntu.Core.State.{
  Node, Core, Action, Outcome, returns, panics, out_of_fuel, and_then, ◌>>=◌, ◌>>◌, pure, modify,
  gets, emit, write, read, lift, expect, map_or_else, digest_key, Effect, sends, broadcasts,
  to_proposer, to_consensus, to_header_waiter, to_certificate_waiter, vote_message, Bytes, Store,
  new, insert_in,
}
use bullshark_ubuntu.Core.Synchronizer.{genesis_digests, deliver, deliver_certificate}
use bullshark_ubuntu.Core.Process.{
  keep_handlers, append_to_round, process_vote_with, send_vote, vote_for,
}
use bullshark_ubuntu.Core.Run.{Input, cleanup, run}
use bullshark_ubuntu.Core.Steady.{
  Steadiness, Reaches, Steady, is_plain, emitted, Steady-bind, Steady-seq, Steady-pure, Steady-gets,
  Steady-modify, Steady-expect, Steady-if, deliver_certificate-Steady,
}
use bullshark_ubuntu.Core.Steady.Process.{certify, Steps, run-Steady, keep_handlers-Steady}

-- What RocksDB does for the code: a write can be read, and it takes no other key away.
pub record Keeping (n : Node) : Type 0 where
  pub reads_back :
      (store : Store) (key value : Bytes)
      → n.rocks.get (n.rocks.put store key value) key ≡ ok (some value)
  pub keeps :
      (store : Store) (key value other found : Bytes)
      → n.rocks.get store other ≡ ok (some found)
      → (later : Bytes) × (n.rocks.get (n.rocks.put store key value) other ≡ ok (some later))

module _ (n : Node) where
  abbrev pub Has : Store → Bytes → Type 0
  Has store key = (v : Bytes) × (n.rocks.get store key ≡ ok (some v))

  -- A parent is a genesis certificate or in the storage.
  abbrev pub There : Store → Digest → Type 0
  There store d = (any (λ e. e.0 == d) (genesis_digests n) ≡ true) ⊎ Has store (digest_key d)

  abbrev pub Founded : Store → Effect → Type 0
  Founded store (to_consensus x) =
      All (There store) x.header.parents × Has store (digest_key (Certificate.digest n.dalek x))
  Founded store (sends address message) = Unit
  Founded store (broadcasts addresses message) = Unit
  Founded store (to_proposer xs r) = Unit
  Founded store (to_header_waiter m) = Unit
  Founded store (to_certificate_waiter x) = Unit

  abbrev pub Complete : Core → Type 0
  Complete s = All (Founded s.store) s.effects

  abbrev pub Grows : Store → Store → Type 0
  Grows a b = (key : Bytes) → Has a key → Has b key

  abbrev pub Causal : Core → Core → Type 0
  Causal s t = Grows s.store t.store × (Complete s → Complete t)

  pub There-Grows : (a b : Store) (d : Digest) → Grows a b → There a d → There b d
  There-Grows a b d g (inl h) = inl h
  There-Grows a b d g (inr h) = inr (g (digest_key d) h)

  Founded-Grows : (a b : Store) (e : Effect) → Grows a b → Founded a e → Founded b e
  Founded-Grows a b (to_consensus x) g (ps, own) =
      (All-mono _ _ x.header.parents (λ d. There-Grows a b d g) ps, g _ own)
  Founded-Grows a b (sends address message) g h = tt
  Founded-Grows a b (broadcasts addresses message) g h = tt
  Founded-Grows a b (to_proposer xs r) g h = tt
  Founded-Grows a b (to_header_waiter m) g h = tt
  Founded-Grows a b (to_certificate_waiter x) g h = tt

  -- Another storage with all that was there, and one more effect.
  pub Causal-emitted : (e : Effect) (s : Core) → Founded s.store e → Causal s (emitted e s)
  Causal-emitted e s f =
      (λ key h. h, λ c. All-append (Founded s.store) s.effects (e ∷ []) c (f, tt))

  pub Causal-stored : (s t : Core) → t.effects ≡ s.effects → Grows s.store t.store → Causal s t
  Causal-stored s t e g =
      (g, λ c. rw e (All-mono _ _ s.effects (λ x. Founded-Grows s.store t.store x g) c))

  pub Causal-next : (s t u : Core) → Causal s t → Causal t u → Causal s u
  Causal-next s t u (g, c) (h, d) = (λ key k. h key (g key k), λ k. d (c k))

  plain-Founded : (e : Effect) (store : Store) → is_plain e ≡ true → Founded store e
  plain-Founded (to_consensus x) store h = cc
  plain-Founded (sends address message) store h = tt
  plain-Founded (broadcasts addresses message) store h = tt
  plain-Founded (to_proposer xs r) store h = tt
  plain-Founded (to_header_waiter m) store h = tt
  plain-Founded (to_certificate_waiter x) store h = tt

  pub Causal-Steadiness : Steadiness Causal
  Causal-Steadiness = record {
    same = λ s. (λ key h. h, λ c. c);
    next = Causal-next;
    plain = λ e s h. Causal-emitted e s (plain-Founded e s.store h);
    aside = λ s t e f g. Causal-stored s t f (λ key h. rw e h);
  }

  -- What a delivery that succeeds has found.
  unfoldable pub Found : Core → List Digest → Outcome Bool → Type 0
  Found s ds (returns t (ok true)) = (t ≡ s) × All (There s.store) ds
  Found s ds (returns t (ok false)) = Unit
  Found s ds (returns t (err e)) = Unit
  Found s ds panics = Unit
  Found s ds out_of_fuel = Unit

  Found-cons :
      (s : Core) (d : Digest) (ds : List Digest) (o : Outcome Bool)
      → There s.store d
      → Found s ds o
      → Found s (d ∷ ds) o
  unfolding Found
  Found-cons s d ds (returns t (ok true)) h (e, f) = (e, (h, f))
  Found-cons s d ds (returns t (ok false)) h f = tt
  Found-cons s d ds (returns t (err e)) h f = tt
  Found-cons s d ds panics h f = tt
  Found-cons s d ds out_of_fuel h f = tt

  pub deliver-Found :
      (x : Certificate) (ds : List Digest) (s : Core) → Found s ds (deliver n x ds s)
  unfolding deliver read pure emit modify ◌>>=◌ ◌>>◌ and_then Found
  deliver-Found x [] s = (refl, tt)
  deliver-Found x (d ∷ ds) s = elim (Bool-cases (any (λ g. g.0 == d) (genesis_digests n))) [
    | inl f ↦ rw f (Found-cons s d ds (deliver n x ds s) (inl f) (deliver-Found x ds s))
    | inr f ↦ elim (Result-cases (n.rocks.get s.store (digest_key d))) [
      | inl (e, g) ↦ rw (f, g) tt
      | inr (inl g) ↦ rw (f, g) tt
      | inr (inr (v, g)) ↦
          rw (f, g) (Found-cons s d ds (deliver n x ds s) (inr (v, g)) (deliver-Found x ds s))
    ]
  ]
