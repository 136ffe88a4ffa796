-- ===== src/Base/Bytes.antt =====
-- Fixed-width encodings of numbers as bytes.
use Prim.Native.Nat.{ℕ, zero, suc, ◌/◌, ◌%◌}
use mathlib.Core.List.{List, [], ◌∷◌, reverse}

-- `to_le_bytes`, the width in bytes first.
unfoldable pub le_bytes : ℕ → ℕ → List ℕ
le_bytes zero n = []
le_bytes (suc w) n = (n % 256) ∷ le_bytes w (n / 256)

-- The bytes of a key or a digest, which is a number read from its most significant byte.
unfoldable pub be_bytes : ℕ → ℕ → List ℕ
unfolding le_bytes
be_bytes w n = reverse (le_bytes w n)
