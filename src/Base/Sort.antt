-- ===== src/Base/Sort.antt =====
-- Insertion sort, for `slice::sort` and the stable `slice::sort_by_key`.
use Prim.Native.Nat.{ℕ, suc, ◌≤◌}
use mathlib.Core.Path.{◌≡◌, refl, ap, ◌∙◌, sym}
use mathlib.Core.Bool.{Bool, true, false, ◌||◌}
use mathlib.Core.List.{List, [], ◌∷◌}
use native.Mathlib.Omega.{arith}
use native.Mathlib.Nat.{le_trans}
use mathlib.Core.Logic.{inl, inr}
use bullshark_ubuntu.Base.Tests.{leb, leb→le, Bool-cases, ◌==◌, if◌then◌else◌}
use bullshark_ubuntu.Base.Lists.{contains, length, any, All, All-mono, contains-any}

module _ {A : Type 0} (key : A → ℕ) where
  -- Before the first element with a larger or equal key: with `sort_by_key` it keeps equal keys in order.
  unfoldable pub insert_by : A → List A → List A
  insert_by x [] = x ∷ []
  insert_by x (y ∷ ys) = if leb (key x) (key y) then x ∷ y ∷ ys else y ∷ insert_by x ys

  unfoldable pub sort_by_key : List A → List A
  unfolding insert_by
  sort_by_key [] = []
  sort_by_key (x ∷ xs) = insert_by x (sort_by_key xs)

  pub length-insert_by : (x : A) (xs : List A) → length (insert_by x xs) ≡ suc (length xs)
  unfolding insert_by
  length-insert_by x [] = refl
  length-insert_by x (y ∷ ys) = ground (arith, length-insert_by x ys)

  pub length-sort_by_key : (xs : List A) → length (sort_by_key xs) ≡ length xs
  unfolding sort_by_key
  length-sort_by_key [] = refl
  length-sort_by_key (x ∷ xs) = length-insert_by x (sort_by_key xs) ∙ ap suc (length-sort_by_key xs)

  -- Keys ascend.
  abbrev pub IsSorted : List A → Type 0
  IsSorted [] = Unit
  IsSorted (x ∷ xs) = All (λ y. key x ≤ key y) xs × IsSorted xs

  All-insert_by {κ} :
      (P : A → Type κ) (x : A) (xs : List A) → P x → All P xs → All P (insert_by x xs)
  unfolding insert_by
  All-insert_by P x [] px h = (px, tt)
  All-insert_by P x (y ∷ ys) px h =
      elim (leb (key x) (key y)) as (λ b. All P (if b then x ∷ y ∷ ys else y ∷ insert_by x ys)) [
        | true ↦ (px, h)
        | false ↦ (h.0, All-insert_by P x ys px h.1)
      ]

  pub All-sort_by_key {κ} : (P : A → Type κ) (xs : List A) → All P xs → All P (sort_by_key xs)
  unfolding sort_by_key
  All-sort_by_key P [] h = tt
  All-sort_by_key P (x ∷ xs) h = All-insert_by P x (sort_by_key xs) h.0 (All-sort_by_key P xs h.1)

  any-insert_by : (p : A → Bool) (x : A) (xs : List A) → any p (insert_by x xs) ≡ (p x || any p xs)
  unfolding insert_by
  any-insert_by p x [] = refl
  any-insert_by p x (y ∷ ys) = ground (arith, any-insert_by p x ys)

  -- Sorting loses nothing and adds nothing.
  pub any-sort_by_key : (p : A → Bool) (xs : List A) → any p (sort_by_key xs) ≡ any p xs
  unfolding sort_by_key
  any-sort_by_key p [] = refl
  any-sort_by_key p (x ∷ xs) =
      ground (arith, any-insert_by p x (sort_by_key xs), any-sort_by_key p xs)

  insert_by-IsSorted : (x : A) (xs : List A) → IsSorted xs → IsSorted (insert_by x xs)
  unfolding insert_by
  insert_by-IsSorted x [] s = (tt, tt)
  insert_by-IsSorted x (y ∷ ys) s = elim (Bool-cases (leb (key x) (key y))) [
    | inl e ↦
        let le = leb→le (key x) (key y) e in
        rw e (
          (
            (le, All-mono (λ z. key y ≤ key z) (λ z. key x ≤ key z) ys (λ z h. le_trans le h) s.0),
            s,
          ))
    | inr n ↦
        rw n
          (All-insert_by (λ z. key y ≤ key z) x ys (ground arith) s.0, insert_by-IsSorted x ys s.1)
  ]

  pub sort_by_key-IsSorted : (xs : List A) → IsSorted (sort_by_key xs)
  unfolding sort_by_key
  sort_by_key-IsSorted [] = tt
  sort_by_key-IsSorted (x ∷ xs) = insert_by-IsSorted x (sort_by_key xs) (sort_by_key-IsSorted xs)

pub contains-sort_by_key :
    (a : ℕ) (xs : List ℕ) → contains a (sort_by_key (λ k. k) xs) ≡ contains a xs
contains-sort_by_key a xs =
    contains-any a (sort_by_key (λ k. k) xs)
    ∙ any-sort_by_key (λ k. k) (λ x. a == x) xs
    ∙ sym (contains-any a xs)
