-- ===== src/Base/Maps.antt =====
-- Maps as association lists: a key stands once, and an insertion replaces its value in place.
use Prim.Native.Nat.{ℕ}
use mathlib.Core.Path.{◌≡◌, refl}
use mathlib.Core.Bool.{Bool, true, false, ◌||◌}
use mathlib.Core.Logic.{inl, inr}
use mathlib.Core.List.{List, [], ◌∷◌, map}
use mathlib.Core.Option.{Option, none, some}
use native.Mathlib.Omega.{arith}
use bullshark_ubuntu.Base.Tests.{◌==◌, if◌then◌else◌, Bool-cases, ==_iff, ==_refl}
use bullshark_ubuntu.Base.Lists.{contains, Distinct, retain, find, All}
use mathlib.Core.Path.{ap, subst}

module _ {ℓ} {V : Type ℓ} where
  abbrev pub lookup : ℕ → List (ℕ × V) → Option V
  lookup k [] = none
  lookup k ((j, v) ∷ m) = if j == k then some v else lookup k m

  abbrev pub insert : ℕ → V → List (ℕ × V) → List (ℕ × V)
  insert k v [] = (k, v) ∷ []
  insert k v ((j, w) ∷ m) = if j == k then (k, v) ∷ m else (j, w) ∷ insert k v m

  abbrev pub keys : List (ℕ × V) → List ℕ
  keys = map (λ e. e.0)

  abbrev pub values : List (ℕ × V) → List V
  values = map (λ e. e.1)

  -- `Option::unwrap_or`.
  abbrev pub unwrap_or : V → Option V → V
  unwrap_or d none = d
  unwrap_or d (some v) = v

  pub lookup-insert :
      (k j : ℕ) (v : V) (m : List (ℕ × V))
      → lookup j (insert k v m) ≡ (if k == j then some v else lookup j m)
  lookup-insert k j v [] = refl
  lookup-insert k j v ((i, w) ∷ m) = ground (arith, lookup-insert k j v m)

  pub keys-insert :
      (k j : ℕ) (v : V) (m : List (ℕ × V))
      → contains j (keys (insert k v m)) ≡ (j == k || contains j (keys m))
  keys-insert k j v [] = refl
  keys-insert k j v ((i, w) ∷ m) = ground (arith, keys-insert k j v m)

  pub Distinct-keys-insert :
      (k : ℕ) (v : V) (m : List (ℕ × V)) → Distinct (keys m) → Distinct (keys (insert k v m))
  Distinct-keys-insert k v [] d = (refl, tt)
  Distinct-keys-insert k v ((i, w) ∷ m) d = elim (Bool-cases (i == k)) [
    | inl e ↦ rw e (ground (arith, ap (λ t. contains t (keys m)) ((==_iff i k).0 e)))
    | inr e ↦ rw e (ground (arith, keys-insert k i v m), Distinct-keys-insert k v m d.1)
  ]

  pub lookup_missing : (k : ℕ) (m : List (ℕ × V)) → contains k (keys m) ≡ false → lookup k m ≡ none
  lookup_missing k [] h = refl
  lookup_missing k ((i, w) ∷ m) h = ground (arith, lookup_missing k m)

  module _ (p : ℕ × V → Bool) where
    pub keys-retain :
        (k : ℕ) (m : List (ℕ × V))
        → contains k (keys m) ≡ false
        → contains k (keys (retain p m)) ≡ false
    keys-retain k [] h = refl
    keys-retain k (e ∷ m) h = ground (arith, keys-retain k m)

    pub Distinct-keys-retain : (m : List (ℕ × V)) → Distinct (keys m) → Distinct (keys (retain p m))
    Distinct-keys-retain [] d = tt
    Distinct-keys-retain (e ∷ m) d = ground (arith, Distinct-keys-retain m d.1, keys-retain e.0 m)

    pub lookup-retain :
        (k : ℕ) (v : V) (m : List (ℕ × V))
        → Distinct (keys m)
        → lookup k (retain p m) ≡ some v
        → (lookup k m ≡ some v) × (p (k, v) ≡ true)
    lookup-retain k v [] d h = cc
    lookup-retain k v ((i, w) ∷ m) d h = elim (Bool-cases (i == k)) [
      | inl e ↦ same ((==_iff i k).0 e)
      | inr e ↦ ground (arith, lookup-retain k v m d.1)
    ]
      where
        same : i ≡ k → (lookup k ((i, w) ∷ m) ≡ some v) × (p (k, v) ≡ true)
        same e = ground (
          arith,
          ap (λ t. p (t, w)) e,
          ap (λ t. p (t, v)) e,
          ap (λ t. contains t (keys m)) e,
          lookup_missing k (retain p m),
          keys-retain k m,
        )

  pub All-insert {κ} :
      (P : ℕ × V → Type κ) (k : ℕ) (v : V) (m : List (ℕ × V))
      → P (k, v)
      → All P m
      → All P (insert k v m)
  All-insert P k v [] new h = (new, tt)
  All-insert P k v ((i, w) ∷ m) new h =
      elim (i == k) as (λ b. All P (if b then (k, v) ∷ m else (i, w) ∷ insert k v m)) [
        | true ↦ (new, h.1)
        | false ↦ (h.0, All-insert P k v m new h.1)
      ]

  pub All-lookup {κ} :
      (P : ℕ × V → Type κ) (k : ℕ) (v : V) (m : List (ℕ × V))
      → All P m
      → lookup k m ≡ some v
      → P (k, v)
  All-lookup P k v [] h e = cc
  All-lookup P k v ((i, w) ∷ m) h e = elim (Bool-cases (i == k)) [
    | inl s ↦ subst P (ground (arith, (==_iff i k).0 s)) h.0
    | inr s ↦ All-lookup P k v m h.1 (ground arith)
  ]

  -- A value found in the map stands under its key.
  pub find-values :
      (p : V → Bool) (v : V) (m : List (ℕ × V))
      → Distinct (keys m)
      → find p (values m) ≡ some v
      → (k : ℕ) × (lookup k m ≡ some v) × (p v ≡ true)
  find-values p v [] d h = cc
  find-values p v ((i, w) ∷ m) d h = elim (Bool-cases (p w)) [
    | inl e ↦ (i, ground (arith, ==_refl i), ground (arith, ap p (unwrap_some (rw e at h))))
    | inr e ↦
        let (k, at, good) = find-values p v m d.1 (rw e at h) in
        (k, elim (Bool-cases (i == k)) [ inl s ↦ absurd (clash k at s) | inr s ↦ rw s at ], good)
  ]
    where
      unwrap_some : some w ≡ some v → w ≡ v
      unwrap_some q = cc

      clash : (k : ℕ) → lookup k m ≡ some v → (i == k) ≡ true → ⊥
      clash k at s = ground (arith, ap (λ t. lookup t m) ((==_iff i k).0 s), lookup_missing i m d.0)
