-- ===== src/Network/ReliableSender/Line.antt =====
-- Numbers in a line that rise, and what stays of the line when a number leaves it or comes last: for the
-- messages of network/src/reliable_sender.rs.
use bullshark_ubuntu.Base.{
  ℕ, suc, ◌+◌, ◌≤◌, ◌<◌, ◌≡◌, ◌==◌, ==_iff, not, if◌then◌else◌, Bool, true, false, List, [], ◌∷◌,
  ◌++◌, retain, contains, contains-append, contains-retain, inl, inr, ◌⊎◌, Bool-cases, arith,
}

-- From `low` to below `high`, each above the one before.
abbrev pub Within : ℕ → List ℕ → ℕ → Type 0
Within low [] high = low ≤ high
Within low (r ∷ rs) high = (low ≤ r) × Within (suc r) rs high

Within-low :
    (low more high : ℕ) (rs : List ℕ) → low ≤ more → Within more rs high → Within low rs high
Within-low low more high [] h w = omega arith
Within-low low more high (r ∷ rs) h w = (omega arith, w.1)

Within-snoc :
    (low high : ℕ) (rs : List ℕ) → Within low rs high → Within low (rs ++ high ∷ []) (high + 1)
Within-snoc low high [] w = (w, omega arith)
Within-snoc low high (r ∷ rs) w = (w.0, Within-snoc (suc r) high rs w.1)

Within-retain :
    (p : ℕ → Bool) (low high : ℕ) (ys zs : List ℕ)
    → Within low (ys ++ zs) high
    → Within low (retain p ys ++ zs) high
Within-retain p low high [] zs w = w
Within-retain p low high (y ∷ ys) zs w =
    let rest = Within-retain p (suc y) high ys zs w.1 in
    elim (p y) as (λ b. Within low ((if b then y ∷ retain p ys else retain p ys) ++ zs) high) [
      | true ↦ (w.0, rest)
      | false ↦ Within-low low (suc y) high (retain p ys ++ zs) (omega arith) rest
    ]

Within-shed :
    (p : ℕ → Bool) (low high : ℕ) (xs ys zs : List ℕ)
    → Within low (xs ++ (ys ++ zs)) high
    → Within low (xs ++ (retain p ys ++ zs)) high
Within-shed p low high [] ys zs w = Within-retain p low high ys zs w
Within-shed p low high (x ∷ xs) ys zs w = (w.0, Within-shed p (suc x) high xs ys zs w.1)

-- Numbers that rise, in which only closed ones are missing.
abbrev pub Kept : List ℕ → List ℕ → ℕ → Type 0
Kept q closed next =
    Within 0 q next × ((i : ℕ) → i < next → (contains i q ≡ true) ⊎ (contains i closed ≡ true))

pub Kept-snoc :
    (q closed : List ℕ) (next : ℕ) → Kept q closed next → Kept (q ++ next ∷ []) closed (next + 1)
Kept-snoc q closed next (w, k) = (
  Within-snoc 0 next q w,
  λ i low. elim (Bool-cases (i == next)) [
    | inl e ↦ inl (ground (arith, contains-append i q (next ∷ [])))
    | inr e ↦ ground (arith, contains-append i q (next ∷ []), k i, ==_iff i next)
  ],
)

pub Kept-close : (q closed : List ℕ) (next h : ℕ) → Kept q closed next → Kept q (h ∷ closed) next
Kept-close q closed next h (w, k) = (w, λ i low. ground (arith, k i low))

pub Kept-shed :
    (xs ys zs closed : List ℕ) (next : ℕ)
    → Kept (xs ++ (ys ++ zs)) closed next
    → Kept (xs ++ (retain (λ i. not (contains i closed)) ys ++ zs)) closed next
Kept-shed xs ys zs closed next (w, k) = (
  Within-shed (λ i. not (contains i closed)) 0 next xs ys zs w,
  λ i low. ground (
    arith,
    k i low,
    contains-append i xs (ys ++ zs),
    contains-append i ys zs,
    contains-append i xs (retain (λ i. not (contains i closed)) ys ++ zs),
    contains-append i (retain (λ i. not (contains i closed)) ys) zs,
    contains-retain i (λ i. not (contains i closed)) ys,
  ),
)
