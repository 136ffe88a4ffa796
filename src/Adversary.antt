-- ===== src/Adversary.antt =====
-- primary/src/adversary.rs: the authorities that stay silent in a round.
use bullshark_ubuntu.Base.{
  ℕ, ◌-◌, ◌==◌, ◌&&◌, ◌||◌, not, ltb, min, if◌then◌else◌, Bool, true, false, List, [], ◌∷◌, ◌++◌,
  length, retain, le_bytes, be_bytes,
}
use bullshark_ubuntu.Config.{PublicKey}
use bullshark_ubuntu.Crypto.{Dalek}

-- `b"narwhal-dynamic-adversary-v1"`
abbrev tag : List ℕ
tag =
    110 ∷ 97 ∷ 114 ∷ 119 ∷ 104 ∷ 97 ∷ 108 ∷ 45 ∷ 100 ∷ 121 ∷ 110 ∷ 97 ∷ 109 ∷ 105 ∷ 99 ∷ 45 ∷ 97
    ∷ 100 ∷ 118 ∷ 101 ∷ 114 ∷ 115 ∷ 97 ∷ 114 ∷ 121 ∷ 45 ∷ 118 ∷ 49 ∷ []

module _ (d : Dalek) where
  -- The first 32 bytes of the hash, as a number: the order of byte arrays is that of numbers.
  unfoldable pub score : PublicKey → ℕ → ℕ → ℕ
  score authority round seed =
      d.sha512 (tag ++ (le_bytes 8 seed ++ (le_bytes 8 round ++ (0 ∷ be_bytes 32 authority))))

  -- The order of pairs of a score and a key.
  abbrev pub before : ℕ × PublicKey → ℕ × PublicKey → Bool
  before a b = ltb a.0 b.0 || (a.0 == b.0 && ltb a.1 b.1)

  unfoldable pub selected : PublicKey → List PublicKey → ℕ → ℕ → ℕ → PublicKey → Bool
  unfolding score
  selected authority authorities round faults seed steady =
      let slots = min faults (length authorities) in
      if slots == 0
      then false
      else if authority == steady
      then true
      else let random_slots = slots - 1 in
        if random_slots == 0
        then false
        else let others = retain (λ c. not (c == steady)) authorities in
          let better =
            retain (λ c. before (score c round seed, c) (score authority round seed, authority))
              others in
          ltb (length better) random_slots
