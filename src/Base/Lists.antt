-- ===== src/Base/Lists.antt =====
-- Lists measured and indexed by native numbers, sets of numbers as lists, and sums.
use Prim.Native.Nat.{ℕ, zero, suc, ◌+◌}
use mathlib.Core.Path.{◌≡◌, refl, ap}
use mathlib.Core.Logic.{◌⊎◌, inl, inr}
use mathlib.Core.Bool.{Bool, true, false, ◌||◌}
use mathlib.Core.List.{List, [], ◌∷◌, ◌++◌, map}
use mathlib.Core.Option.{Option, none, some}
use native.Mathlib.Omega.{arith}
use bullshark_ubuntu.Base.Tests.{◌==◌, if◌then◌else◌, ==_iff, Bool-cases}

module _ {ℓ} {A : Type ℓ} where
  abbrev pub length : List A → ℕ
  length [] = 0
  length (x ∷ xs) = suc (length xs)

  abbrev pub get_elem? : List A → ℕ → Option A
  get_elem? [] i = none
  get_elem? (x ∷ xs) zero = some x
  get_elem? (x ∷ xs) (suc i) = get_elem? xs i

  -- `Iterator::filter`, and `retain` on a vector or a map.
  abbrev pub retain : (A → Bool) → List A → List A
  retain p [] = []
  retain p (x ∷ xs) = if p x then x ∷ retain p xs else retain p xs

  -- `Iterator::find`.
  abbrev pub find : (A → Bool) → List A → Option A
  find p [] = none
  find p (x ∷ xs) = if p x then some x else find p xs

  -- `Iterator::any`.
  abbrev pub any : (A → Bool) → List A → Bool
  any p [] = false
  any p (x ∷ xs) = p x || any p xs

  abbrev pub is_empty : List A → Bool
  is_empty [] = true
  is_empty (x ∷ xs) = false

  abbrev pub All {κ} : (A → Type κ) → List A → Type κ
  All P [] = Unit
  All P (x ∷ xs) = P x × All P xs

  pub length-append : (xs ys : List A) → length (xs ++ ys) ≡ length xs + length ys
  length-append [] ys = omega arith
  length-append (x ∷ xs) ys = omega (arith, length-append xs ys)

  pub List-cases : (xs : List A) → (xs ≡ []) ⊎ ((x : A) × (rest : List A) × (xs ≡ x ∷ rest))
  List-cases [] = inl refl
  List-cases (x ∷ xs) = inr (x, xs, refl)

  pub All-append {κ} : (P : A → Type κ) (xs ys : List A) → All P xs → All P ys → All P (xs ++ ys)
  All-append P [] ys hx hy = hy
  All-append P (x ∷ xs) ys hx hy = (hx.0, All-append P xs ys hx.1 hy)

module _ {ℓ} {A : Type ℓ} where
  pub All-retain {κ} :
      (p : A → Bool) (P : A → Type κ) (xs : List A) → All P xs → All P (retain p xs)
  All-retain p P [] h = tt
  All-retain p P (x ∷ xs) h =
      elim (p x) as (λ b. All P (if b then x ∷ retain p xs else retain p xs)) [
        | true ↦ (h.0, All-retain p P xs h.1)
        | false ↦ All-retain p P xs h.1
      ]

  pub All-mono {κ μ} :
      (P : A → Type κ) (Q : A → Type μ) (xs : List A) → ((a : A) → P a → Q a) → All P xs → All Q xs
  All-mono P Q [] f h = tt
  All-mono P Q (x ∷ xs) f h = (f x h.0, All-mono P Q xs f h.1)

  -- The element in the middle.
  pub All_at {κ} : (P : A → Type κ) (xs : List A) (x : A) (ys : List A) → All P (xs ++ x ∷ ys) → P x
  All_at P [] x ys h = h.0
  All_at P (z ∷ xs) x ys h = All_at P xs x ys h.1

  pub All-middle {κ} :
      (P : A → Type κ) (xs : List A) (x : A) (ys : List A)
      → P x
      → All P (xs ++ ys)
      → All P (xs ++ x ∷ ys)
  All-middle P [] x ys px h = (px, h)
  All-middle P (z ∷ xs) x ys px h = (h.0, All-middle P xs x ys px h.1)

  pub append-middle : (xs : List A) (y : A) (zs : List A) → (xs ++ y ∷ []) ++ zs ≡ xs ++ y ∷ zs
  append-middle [] y zs = refl
  append-middle (x ∷ xs) y zs = ap (◌∷◌ x) (append-middle xs y zs)

  pub append-snoc :
      (xs ys zs : List A) (y : A) → xs ++ (ys ++ (zs ++ y ∷ [])) ≡ (xs ++ (ys ++ zs)) ++ y ∷ []
  append-snoc [] [] zs y = refl
  append-snoc [] (x ∷ ys) zs y = ap (◌∷◌ x) (append-snoc [] ys zs y)
  append-snoc (x ∷ xs) ys zs y = ap (◌∷◌ x) (append-snoc xs ys zs y)

  pub map-append {κ} :
      {B : Type κ} (f : A → B) (xs ys : List A) → map f (xs ++ ys) ≡ map f xs ++ map f ys
  map-append f [] ys = refl
  map-append f (x ∷ xs) ys = ap (◌∷◌ (f x)) (map-append f xs ys)

abbrev pub sum : List ℕ → ℕ
sum [] = 0
sum (x ∷ xs) = x + sum xs

abbrev pub contains : ℕ → List ℕ → Bool
contains a [] = false
contains a (x ∷ xs) = a == x || contains a xs

-- No element twice.
abbrev pub Distinct : List ℕ → Type 0
Distinct [] = Unit
Distinct (x ∷ xs) = (contains x xs ≡ false) × Distinct xs

pub sum-append : (xs ys : List ℕ) → sum (xs ++ ys) ≡ sum xs + sum ys
sum-append [] ys = omega arith
sum-append (x ∷ xs) ys = omega (arith, sum-append xs ys)

pub contains-any : (a : ℕ) (xs : List ℕ) → contains a xs ≡ any (λ x. a == x) xs
contains-any a [] = refl
contains-any a (x ∷ xs) = ground (arith, contains-any a xs)

pub contains-append :
    (a : ℕ) (xs ys : List ℕ) → contains a (xs ++ ys) ≡ (contains a xs || contains a ys)
contains-append a [] ys = refl
contains-append a (x ∷ xs) ys = ground (arith, contains-append a xs ys)

pub contains-retain :
    (a : ℕ) (p : ℕ → Bool) (xs : List ℕ)
    → contains a (retain p xs) ≡ (if p a then contains a xs else false)
contains-retain a p [] = ground arith
contains-retain a p (x ∷ xs) = elim (Bool-cases (a == x)) [
  | inl e ↦ let e' = (==_iff a x).0 e in ground (arith, contains-retain a p xs, ap p e')
  | inr n ↦ ground (arith, contains-retain a p xs)
]

-- What `p` rejects of the first list, before the second.
pub Distinct-retain-append :
    (p : ℕ → Bool) (xs ys : List ℕ)
    → Distinct xs
    → Distinct ys
    → ((a : ℕ) → p a ≡ true → contains a ys ≡ false)
    → Distinct (retain p xs ++ ys)
Distinct-retain-append p [] ys dx dy h = dy
Distinct-retain-append p (x ∷ xs) ys dx dy h = ground (
  arith,
  Distinct-retain-append p xs ys dx.1 dy h,
  contains-append x (retain p xs) ys,
  contains-retain x p xs,
  h x,
)
