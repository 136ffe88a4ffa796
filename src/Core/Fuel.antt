-- ===== src/Core/Fuel.antt =====
-- The calls of the `process` methods of primary/src/core.rs: what each leaves, and that it ends.
pub mod Calls
pub mod Run
use bullshark_ubuntu.Base.{
  ℕ, ◌≡◌, refl, sym, ap, ◌∙◌, if◌then◌else◌, Bool, true, false, Option, none, some, List, [], ◌∷◌,
  ◌++◌, lookup, ok, err, ok_or,
}
use bullshark_ubuntu.Config.{WorkerId}
use bullshark_ubuntu.Crypto.{Digest}
use bullshark_ubuntu.Error.{DagResult}
use bullshark_ubuntu.Messages.Header.{Header, Round}
use bullshark_ubuntu.Messages.Certificate.{Certificate}
use bullshark_ubuntu.Core.State.{
  Node, Core, Action, Outcome, returns, panics, out_of_fuel, and_then, ◌>>=◌, ◌>>◌, expect,
  expect_outcome, map_or_else, pure, gets, modify, write, lift, read, Bytes, emit, holds, Effect,
}
use bullshark_ubuntu.Core.Synchronizer.{
  missing_batches, missing_payload, collect, get_parents, deliver, deliver_certificate,
}

-- The header that we propose stays, and no header leaves `processing`.
pub record After (s t : Core) : Type 0 where
  pub same : t.current_header ≡ s.current_header
  pub kept :
      (r : Round) (id : Digest) → holds r id s.processing ≡ true → holds r id t.processing ≡ true

pub stays : (s : Core) → After s s
stays s = record { same = refl; kept = λ r id h. h }

pub After-trans : (s t u : Core) → After s t → After t u → After s u
After-trans s t u a b = record {
  same = b.same ∙ a.same;
  kept = λ r id h. b.kept r id (a.kept r id h);
}

unfoldable pub Ended : {A : Type 0} → Core → Outcome A → Type 0
Ended s (returns t result) = After s t
Ended s panics = Unit
Ended s out_of_fuel = ⊥

pub Ended-trans : {A : Type 0} (s t : Core) (o : Outcome A) → After s t → Ended t o → Ended s o
unfolding Ended
Ended-trans s t (returns u result) a e = After-trans s t u a e
Ended-trans s t panics a e = tt
Ended-trans s t out_of_fuel a e = e

Ended-then :
    {A B : Type 0} (s : Core) (o : Outcome A) (f : A → Action B)
    → Ended s o
    → ((a : A) (t : Core) → After s t → Ended t (f a t))
    → Ended s (and_then o f)
unfolding Ended and_then
Ended-then s (returns t (ok a)) f e k = Ended-trans s t (f a t) e (k a t e)
Ended-then s (returns t (err x)) f e k = e
Ended-then s panics f e k = tt
Ended-then s out_of_fuel f e k = e

-- A call that ends in this state.
unfoldable pub Ends : {A : Type 0} → Action A → Core → Type 0
unfolding Ended
Ends m s = Ended s (m s)

pub Ends-bind :
    {A B : Type 0} (m : Action A) (f : A → Action B) (s : Core)
    → Ends m s
    → ((a : A) (t : Core) → After s t → Ends (f a) t)
    → Ends (m >>= f) s
unfolding Ends ◌>>=◌
Ends-bind m f s e k = Ended-then s (m s) f e k

pub Ends-seq :
    {A B : Type 0} (m : Action A) (k : Action B) (s : Core)
    → Ends m s
    → ((t : Core) → After s t → Ends k t)
    → Ends (m >> k) s
unfolding Ends ◌>>◌
Ends-seq m k s e f = Ended-then s (m s) (λ _. k) e (λ _. f)

pub Ends-pure : {A : Type 0} (a : A) (s : Core) → Ends (pure a) s
unfolding Ends Ended pure
Ends-pure a s = stays s

pub Ends-lift : {A : Type 0} (a : DagResult A) (s : Core) → Ends (lift a) s
unfolding Ends lift
Ends-lift a s = stays s

pub Ends-read : (n : Node) (key : Bytes) (s : Core) → Ends (read n key) s
unfolding Ends read
Ends-read n key s = stays s

-- What is read of the state is known to the rest.
pub Ends-gets :
    {A B : Type 0} (g : Core → A) (f : A → Action B) (s : Core)
    → Ends (f (g s)) s
    → Ends (gets g >>= f) s
unfolding Ends ◌>>=◌ gets and_then
Ends-gets g f s e = e

pub Ends-modify : (f : Core → Core) (s : Core) → After s (f s) → Ends (modify f) s
unfolding Ends modify
Ends-modify f s a = a

pub Ends-write : (n : Node) (key value : Bytes) (s : Core) → Ends (write n key value) s
unfolding Ends write modify
Ends-write n key value s = record { same = refl; kept = λ r id h. h }

pub Ends-emit : (e : Effect) (s : Core) → Ends (emit e) s
unfolding Ends emit modify
Ends-emit e s = record { same = refl; kept = λ r id h. h }

Ended-expect_outcome :
    {A : Type 0} (s : Core) (o : Outcome A) → Ended s o → Ended s (expect_outcome o)
unfolding Ended
Ended-expect_outcome s (returns t (ok a)) e = e
Ended-expect_outcome s (returns t (err x)) e = tt
Ended-expect_outcome s panics e = tt
Ended-expect_outcome s out_of_fuel e = e

pub Ends-expect : {A : Type 0} (m : Action A) (s : Core) → Ends m s → Ends (expect m) s
unfolding Ends expect
Ends-expect m s e = Ended-expect_outcome s (m s) e

pub Ends-if :
    {A : Type 0} (b : Bool) (m k : Action A) (s : Core)
    → Ends m s
    → Ends k s
    → Ends (if b then m else k) s
Ends-if true m k s em ek = em
Ends-if false m k s em ek = ek

pub Ends-option :
    {A B : Type 0} (o : Option A) (m : Action B) (f : A → Action B) (s : Core)
    → Ends m s
    → ((a : A) → Ends (f a) s)
    → Ends (map_or_else m f o) s
Ends-option none m f s em ef = em
Ends-option (some a) m f s em ef = ef a

module _ (n : Node) where
  missing_batches-Ends : (xs : List (Digest × WorkerId)) (s : Core) → Ends (missing_batches n xs) s
  unfolding missing_batches
  missing_batches-Ends [] s = Ends-pure _ s
  missing_batches-Ends ((digest, id) ∷ rest) s = Ends-bind _ _ s (Ends-read _ _ s) (λ found t a.
      Ends-bind _ _ t (missing_batches-Ends rest t)
        (λ missing u b. Ends-option found _ _ u (Ends-pure _ u) (λ x. Ends-pure _ u)))

  pub missing_payload-Ends : (h : Header) (s : Core) → Ends (missing_payload n h) s
  unfolding missing_payload
  missing_payload-Ends h s = Ends-if _ _ _ s (Ends-pure _ s) (
      Ends-bind _ _ s (missing_batches-Ends h.payload s) (λ missing t a.
        Ends-if _ _ _ t (Ends-pure _ t) (Ends-seq _ _ t (Ends-emit _ t) (λ u b. Ends-pure _ u))))

  collect-Ends :
      (ds missing : List Digest) (parents : List Certificate) (s : Core)
      → Ends (collect n ds missing parents) s
  unfolding collect
  collect-Ends [] missing parents s = Ends-pure _ s
  collect-Ends (d ∷ ds) missing parents s =
      Ends-option _ _ _ s
        (Ends-bind _ _ s (Ends-read _ _ s) (λ found t a.
          Ends-option found _ _ t (collect-Ends ds (missing ++ d ∷ []) parents t) (λ bytes.
            Ends-bind _ _ t (Ends-lift _ t)
              (λ x u b. collect-Ends ds missing (parents ++ x ∷ []) u))))
        (λ x. collect-Ends ds missing (parents ++ x ∷ []) s)

  pub get_parents-Ends : (h : Header) (s : Core) → Ends (get_parents n h) s
  unfolding get_parents
  get_parents-Ends h s = Ends-bind _ _ s (collect-Ends h.parents [] [] s) (λ found t a.
      Ends-if _ _ _ t (Ends-pure _ t) (Ends-seq _ _ t (Ends-emit _ t) (λ u b. Ends-pure _ u)))

  deliver-Ends : (x : Certificate) (ds : List Digest) (s : Core) → Ends (deliver n x ds) s
  unfolding deliver
  deliver-Ends x [] s = Ends-pure _ s
  deliver-Ends x (d ∷ ds) s = Ends-if _ _ _ s (deliver-Ends x ds s) (
      Ends-bind _ _ s (Ends-read _ _ s) (λ found t a.
        Ends-option found _ _ t (Ends-seq _ _ t (Ends-emit _ t) (λ u b. Ends-pure _ u))
          (λ bytes. deliver-Ends x ds t)))

  pub deliver_certificate-Ends : (x : Certificate) (s : Core) → Ends (deliver_certificate n x) s
  unfolding deliver_certificate
  deliver_certificate-Ends x s = deliver-Ends x x.header.parents s
