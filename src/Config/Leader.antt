-- ===== src/Config/Leader.antt =====
-- `Committee::leader` of config/src/lib.rs is a round robin over the authorities.
use bullshark_ubuntu.Base.{
  ℕ, zero, suc, ◌+◌, ◌*◌, ◌%◌, ◌<◌, ◌≡◌, inl, inr, refl, sym, ap, ◌∙◌, ◌==◌, true, List, [], ◌∷◌,
  some, arith, length, get_elem?, contains, keys, sort_by_key, contains-sort_by_key,
  length-sort_by_key, Bool-cases, ==_iff, ==_refl,
}
use bullshark_ubuntu.Config.{Committee, PublicKey, size, leader}

length-map_keys {ℓ} : {V : Type ℓ} (m : List (ℕ × V)) → length (keys m) ≡ length m
length-map_keys [] = refl
length-map_keys (e ∷ m) = ap suc (length-map_keys m)

get_elem?-some :
    (xs : List ℕ) (i : ℕ)
    → i < length xs
    → (a : ℕ) × (get_elem? xs i ≡ some a) × (contains a xs ≡ true)
get_elem?-some [] i h = absurd (omega arith)
get_elem?-some (x ∷ xs) zero h = (x, refl, ground (arith, ==_refl x))
get_elem?-some (x ∷ xs) (suc i) h =
    let (a, e, m) = get_elem?-some xs i (omega arith) in (a, e, ground arith)

contains-index :
    (a : ℕ) (xs : List ℕ)
    → contains a xs ≡ true
    → (i : ℕ) × (i < length xs) × (get_elem? xs i ≡ some a)
contains-index a [] h = cc
contains-index a (x ∷ xs) h = elim (Bool-cases (a == x)) [
  | inl e ↦ (0, omega arith, ap some (sym ((==_iff a x).0 e)))
  | inr n ↦ let (i, lt, e) = contains-index a xs (ground arith) in (suc i, omega arith, e)
]

abbrev sorted_keys : Committee → List PublicKey
sorted_keys c = sort_by_key (λ k. k) (keys c.authorities)

length-sorted_keys : (c : Committee) → length (sorted_keys c) ≡ size c
unfolding size
length-sorted_keys c =
    length-sort_by_key (λ k. k) (keys c.authorities) ∙ length-map_keys c.authorities

again : (n seed turn : ℕ) → seed < n → (seed + turn * n) % n ≡ seed
again n seed turn h = grind arith

-- In a committee that is not empty every seed has a leader, an authority of the committee, and every authority leads at some seed below the size and again after each full turn.
pub leader_round_robin :
    (c : Committee)
    → 0 < size c
    → ((seed : ℕ)
        → (name : PublicKey) × (leader c seed ≡ some name)
          × (contains name (keys c.authorities) ≡ true))
      × ((name : PublicKey)
          → contains name (keys c.authorities) ≡ true
          → (seed : ℕ) × (seed < size c)
            × ((turn : ℕ) → leader c (seed + turn * size c) ≡ some name))
unfolding leader
leader_round_robin c h = (always, ever)
  where
    always :
        (seed : ℕ)
        → (name : PublicKey) × (leader c seed ≡ some name)
          × (contains name (keys c.authorities) ≡ true)
    always seed =
        let (name, e, m) =
          get_elem?-some (sorted_keys c) (seed % size c) (omega (arith, length-sorted_keys c)) in
        (name, e, sym (contains-sort_by_key name (keys c.authorities)) ∙ m)

    ever :
        (name : PublicKey)
        → contains name (keys c.authorities) ≡ true
        → (seed : ℕ) × (seed < size c) × ((turn : ℕ) → leader c (seed + turn * size c) ≡ some name)
    ever name m =
        let (i, lt, e) =
          contains-index name (sorted_keys c)
            (contains-sort_by_key name (keys c.authorities) ∙ m) in
        (
          i,
          omega (arith, length-sorted_keys c),
          λ turn. rw (again (size c) i turn (omega (arith, length-sorted_keys c))) e,
        )
