-- ===== src/Consensus/Once/Slots.antt =====
-- A slot is a round and an author. Which slots a list of certificates fills, and how often.
use bullshark_ubuntu.Base.{
  ◌≡◌, refl, ap, ◌∙◌, ◌==◌, ◌&&◌, ◌||◌, Bool, true, false, List, [], ◌∷◌, ◌++◌, any, All, retain,
  sort_by_key, any-sort_by_key, insert_by, arith, ==_iff,
}
use bullshark_ubuntu.Config.{PublicKey}
use bullshark_ubuntu.Messages.Header.{Round}
use bullshark_ubuntu.Messages.Certificate.{Certificate, round, origin}

abbrev pub in_slot : Round → PublicKey → Certificate → Bool
in_slot r n x = r == round x && n == origin x

abbrev pub has_slot : Round → PublicKey → List Certificate → Bool
has_slot r n xs = any (in_slot r n) xs

-- No two certificates of one author in one round.
abbrev pub DistinctSlots : List Certificate → Type 0
DistinctSlots [] = Unit
DistinctSlots (x ∷ xs) = (has_slot (round x) (origin x) xs ≡ false) × DistinctSlots xs

-- None of the certificates has a slot of the list.
abbrev pub Apart : List Certificate → List Certificate → Type 0
Apart done = All (λ x. has_slot (round x) (origin x) done ≡ false)

pub has_slot-append :
    (r : Round) (n : PublicKey) (xs ys : List Certificate)
    → has_slot r n (xs ++ ys) ≡ (has_slot r n xs || has_slot r n ys)
has_slot-append r n [] ys = refl
has_slot-append r n (x ∷ xs) ys = ground (arith, has_slot-append r n xs ys)

pub has_slot_of :
    (r : Round) (n : PublicKey) (x : Certificate) (xs : List Certificate)
    → in_slot r n x ≡ true
    → has_slot r n xs ≡ has_slot (round x) (origin x) xs
has_slot_of r n x xs h =
    ap (λ t. has_slot t n xs) ((==_iff r (round x)).0 (ground arith))
    ∙ ap (λ t. has_slot (round x) t xs) ((==_iff n (origin x)).0 (ground arith))

pub DistinctSlots-append :
    (xs ys : List Certificate)
    → DistinctSlots xs
    → DistinctSlots ys
    → Apart xs ys
    → DistinctSlots (xs ++ ys)
DistinctSlots-append [] ys dx dy a = dy
DistinctSlots-append (x ∷ xs) ys dx dy a = (
  has_slot-append (round x) (origin x) xs ys ∙ ground (arith, dx.0, clear ys a),
  DistinctSlots-append xs ys dx.1 dy (rest ys a),
)
  where
    rest : (ys : List Certificate) → Apart (x ∷ xs) ys → Apart xs ys
    rest [] a = tt
    rest (y ∷ ys) a = (ground arith, rest ys a.1)

    clear : (ys : List Certificate) → Apart (x ∷ xs) ys → has_slot (round x) (origin x) ys ≡ false
    clear [] a = refl
    clear (y ∷ ys) a = ground (arith, clear ys a.1)

-- A certificate of a free slot may stand anywhere.
pub DistinctSlots-middle :
    (x : Certificate) (xs ys : List Certificate)
    → DistinctSlots (xs ++ ys)
    → has_slot (round x) (origin x) (xs ++ ys) ≡ false
    → DistinctSlots (xs ++ x ∷ ys)
DistinctSlots-middle x [] ys d h = (h, d)
DistinctSlots-middle x (z ∷ xs) ys d h = (
  ground (
    arith,
    has_slot-append (round z) (origin z) xs (x ∷ ys),
    has_slot-append (round z) (origin z) xs ys,
  ),
  DistinctSlots-middle x xs ys d.1 (ground arith),
)

pub has_slot-sort :
    (r : Round) (n : PublicKey) (xs : List Certificate)
    → has_slot r n (sort_by_key round xs) ≡ has_slot r n xs
has_slot-sort r n xs = any-sort_by_key round (in_slot r n) xs

has_slot-insert_by :
    (r : Round) (n : PublicKey) (x : Certificate) (xs : List Certificate)
    → has_slot r n (insert_by round x xs) ≡ (in_slot r n x || has_slot r n xs)
unfolding insert_by
has_slot-insert_by r n x [] = refl
has_slot-insert_by r n x (y ∷ ys) = ground (arith, has_slot-insert_by r n x ys)

DistinctSlots-insert_by :
    (x : Certificate) (xs : List Certificate)
    → DistinctSlots xs
    → has_slot (round x) (origin x) xs ≡ false
    → DistinctSlots (insert_by round x xs)
unfolding insert_by
DistinctSlots-insert_by x [] d h = (h, d)
DistinctSlots-insert_by x (y ∷ ys) d h =
    ground (arith, DistinctSlots-insert_by x ys d.1, has_slot-insert_by (round y) (origin y) x ys)

pub DistinctSlots-sort :
    (xs : List Certificate) → DistinctSlots xs → DistinctSlots (sort_by_key round xs)
unfolding sort_by_key
DistinctSlots-sort [] d = tt
DistinctSlots-sort (x ∷ xs) d =
    DistinctSlots-insert_by x (sort_by_key round xs) (DistinctSlots-sort xs d.1)
      (has_slot-sort (round x) (origin x) xs ∙ d.0)

has_slot-retain :
    (p : Certificate → Bool) (r : Round) (n : PublicKey) (xs : List Certificate)
    → has_slot r n xs ≡ false
    → has_slot r n (retain p xs) ≡ false
has_slot-retain p r n [] h = refl
has_slot-retain p r n (x ∷ xs) h = ground (arith, has_slot-retain p r n xs)

pub DistinctSlots-retain :
    (p : Certificate → Bool) (xs : List Certificate)
    → DistinctSlots xs
    → DistinctSlots (retain p xs)
DistinctSlots-retain p [] d = tt
DistinctSlots-retain p (x ∷ xs) d =
    ground (arith, DistinctSlots-retain p xs d.1, has_slot-retain p (round x) (origin x) xs)
