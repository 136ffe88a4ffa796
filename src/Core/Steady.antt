-- ===== src/Core/Steady.antt =====
-- Relations between the states before and after a call of primary/src/core.rs, in any outcome: what
-- every call of the synchronizer and of the core keeps, if the elementary steps do.
pub mod Process
use bullshark_ubuntu.Base.{
  ◌≡◌, refl, if◌then◌else◌, Bool, true, false, Option, none, some, List, [], ◌∷◌, ◌++◌, ok, err,
}
use bullshark_ubuntu.Config.{WorkerId}
use bullshark_ubuntu.Crypto.{Digest}
use bullshark_ubuntu.Error.{DagResult}
use bullshark_ubuntu.Messages.Header.{Header, Round}
use bullshark_ubuntu.Messages.Certificate.{Certificate}
use bullshark_ubuntu.Core.State.{
  Node, Core, Action, Outcome, returns, panics, out_of_fuel, and_then, ◌>>=◌, ◌>>◌, expect,
  expect_outcome, map_or_else, pure, gets, modify, write, lift, read, Bytes, digest_key, emit,
  Effect, sends, broadcasts, to_proposer, to_consensus, to_header_waiter, to_certificate_waiter,
  PrimaryMessage, WaiterMessage, Store,
}
use bullshark_ubuntu.Core.Synchronizer.{
  missing_batches, missing_payload, collect, get_parents, deliver, deliver_certificate,
}

abbrev pub Before : Type 1
Before = Core → Core → Type 0

-- What is sent to others than consensus, and is no vote to another primary.
abbrev pub is_plain : Effect → Bool
is_plain (sends address message) = false
is_plain (to_consensus x) = false
is_plain (broadcasts addresses message) = true
is_plain (to_proposer xs k) = true
is_plain (to_header_waiter x) = true
is_plain (to_certificate_waiter x) = true

abbrev pub emitted : Effect → Core → Core
emitted e s = record s { effects = s.effects ++ e ∷ [] }

-- A preorder that the emission of plain effects keeps, and the other fields of the state do not
-- matter to.
pub record Steadiness (R : Before) : Type 0 where
  pub same : (s : Core) → R s s
  pub next : (s t u : Core) → R s t → R t u → R s u
  pub plain : (e : Effect) (s : Core) → is_plain e ≡ true → R s (emitted e s)
  pub aside :
      (s t : Core) → t.store ≡ s.store → t.effects ≡ s.effects → t.last_voted ≡ s.last_voted → R s t

module _ (R : Before) where
  unfoldable pub Reaches : {A : Type 0} → Core → Outcome A → Type 0
  Reaches s (returns t result) = R s t
  Reaches s panics = Unit
  Reaches s out_of_fuel = Unit

  unfoldable pub Steady : {A : Type 0} → Action A → Type 0
  unfolding Reaches
  Steady m = (s : Core) → Reaches s (m s)

module _ (R : Before) (k : Steadiness R) where
  Reaches-next : {A : Type 0} (s t : Core) (o : Outcome A) → R s t → Reaches R t o → Reaches R s o
  unfolding Reaches
  Reaches-next s t (returns u result) h w = k.next s t u h w
  Reaches-next s t panics h w = tt
  Reaches-next s t out_of_fuel h w = tt

  pub Reaches-then :
      {A B : Type 0} (s : Core) (o : Outcome A) (f : A → Action B)
      → Reaches R s o
      → ((a : A) → Steady R (f a))
      → Reaches R s (and_then o f)
  unfolding Reaches Steady and_then
  Reaches-then s (returns t (ok a)) f w g = Reaches-next s t (f a t) w (g a t)
  Reaches-then s (returns t (err e)) f w g = w
  Reaches-then s panics f w g = tt
  Reaches-then s out_of_fuel f w g = tt

  pub Steady-bind :
      {A B : Type 0} (m : Action A) (f : A → Action B)
      → Steady R m
      → ((a : A) → Steady R (f a))
      → Steady R (m >>= f)
  unfolding Steady ◌>>=◌
  Steady-bind m f km kf s = Reaches-then s (m s) f (km s) kf

  pub Steady-seq :
      {A B : Type 0} (m : Action A) (l : Action B) → Steady R m → Steady R l → Steady R (m >> l)
  unfolding Steady ◌>>◌
  Steady-seq m l km kl s = Reaches-then s (m s) (λ _. l) (km s) (λ _. kl)

  pub Steady-pure : {A : Type 0} (a : A) → Steady R (pure a)
  unfolding Steady Reaches pure
  Steady-pure a s = k.same s

  pub Steady-lift : {A : Type 0} (a : DagResult A) → Steady R (lift a)
  unfolding Steady Reaches lift
  Steady-lift a s = k.same s

  pub Steady-gets : {A : Type 0} (f : Core → A) → Steady R (gets f)
  unfolding Steady Reaches gets
  Steady-gets f s = k.same s

  pub Steady-read : (n : Node) (key : Bytes) → Steady R (read n key)
  unfolding Steady Reaches read
  Steady-read n key s = k.same s

  pub Steady-modify : (f : Core → Core) → ((s : Core) → R s (f s)) → Steady R (modify f)
  unfolding Steady Reaches modify
  Steady-modify f h s = h s

  pub Steady-emit : (e : Effect) → is_plain e ≡ true → Steady R (emit e)
  unfolding Steady Reaches emit
  Steady-emit e h s = k.plain e s h

  Reaches-expect_outcome :
      {A : Type 0} (s : Core) (o : Outcome A) → Reaches R s o → Reaches R s (expect_outcome o)
  unfolding Reaches
  Reaches-expect_outcome s (returns t (ok a)) v = v
  Reaches-expect_outcome s (returns t (err e)) v = tt
  Reaches-expect_outcome s panics v = tt
  Reaches-expect_outcome s out_of_fuel v = tt

  pub Steady-expect : {A : Type 0} (m : Action A) → Steady R m → Steady R (expect m)
  unfolding Steady expect
  Steady-expect m h s = Reaches-expect_outcome s (m s) (h s)

  pub Steady-if :
      {A : Type 0} (b : Bool) (m l : Action A)
      → Steady R m
      → Steady R l
      → Steady R (if b then m else l)
  Steady-if true m l km kl = km
  Steady-if false m l km kl = kl

  pub Steady-option :
      {A B : Type 0} (o : Option A) (m : Action B) (f : A → Action B)
      → Steady R m
      → ((a : A) → Steady R (f a))
      → Steady R (map_or_else m f o)
  Steady-option none m f km kf = km
  Steady-option (some a) m f km kf = kf a

  module _ (n : Node) where
    missing_batches-Steady : (xs : List (Digest × WorkerId)) → Steady R (missing_batches n xs)
    unfolding missing_batches
    missing_batches-Steady [] = (Steady-pure _)
    missing_batches-Steady ((digest, id) ∷ rest) = Steady-bind _ _ (Steady-read _ _) (λ found.
        Steady-bind _ _ (missing_batches-Steady rest)
          (λ missing. Steady-option found _ _ (Steady-pure _) (λ x. (Steady-pure _))))

    pub missing_payload-Steady : (h : Header) → Steady R (missing_payload n h)
    unfolding missing_payload
    missing_payload-Steady h = Steady-if _ _ _ (Steady-pure _) (
        Steady-bind _ _ (missing_batches-Steady h.payload) (λ missing.
          Steady-if _ _ _ (Steady-pure _) (Steady-seq _ _ (Steady-emit _ refl) (Steady-pure _))))

    collect-Steady :
        (ds missing : List Digest) (parents : List Certificate)
        → Steady R (collect n ds missing parents)
    unfolding collect
    collect-Steady [] missing parents = (Steady-pure _)
    collect-Steady (d ∷ ds) missing parents =
        Steady-option _ _ _
          (Steady-bind _ _ (Steady-read _ _) (λ found.
            Steady-option found _ _ (collect-Steady ds (missing ++ d ∷ []) parents) (λ bytes.
              Steady-bind _ _ (Steady-lift _)
                (λ x. collect-Steady ds missing (parents ++ x ∷ [])))))
          (λ x. collect-Steady ds missing (parents ++ x ∷ []))

    pub get_parents-Steady : (h : Header) → Steady R (get_parents n h)
    unfolding get_parents
    get_parents-Steady h = Steady-bind _ _ (collect-Steady h.parents [] []) (λ found.
        Steady-if _ _ _ (Steady-pure _) (Steady-seq _ _ (Steady-emit _ refl) (Steady-pure _)))

    deliver-Steady : (x : Certificate) (ds : List Digest) → Steady R (deliver n x ds)
    unfolding deliver
    deliver-Steady x [] = (Steady-pure _)
    deliver-Steady x (d ∷ ds) = Steady-if _ _ _ (deliver-Steady x ds) (
        Steady-bind _ _ (Steady-read _ _) (λ found.
          Steady-option found _ _ (Steady-seq _ _ (Steady-emit _ refl) (Steady-pure _))
            (λ bytes. deliver-Steady x ds)))

    pub deliver_certificate-Steady : (x : Certificate) → Steady R (deliver_certificate n x)
    unfolding deliver_certificate
    deliver_certificate-Steady x = deliver-Steady x x.header.parents
