-- ===== src/Crypto.antt =====
-- crypto/src/lib.rs: digests and signatures. The hash function and the signature scheme are those
-- of the ed25519_dalek crate, and so arguments: a digest and a signature are opaque numbers.
use bullshark_ubuntu.Base.{ℕ, Bool, List}
use bullshark_ubuntu.Config.{PublicKey}

abbrev pub Digest : Type 0
Digest = ℕ

abbrev pub Signature : Type 0
Signature = ℕ

-- What the code calls of ed25519_dalek.
pub record Dalek : Type 0 where
  -- the first 32 bytes of SHA-512 of some bytes
  pub sha512 : List ℕ → Digest
  -- the signature of a digest by the node's own secret key
  pub sign : Digest → Signature
  -- decoding of the signature and of the key, and `verify_strict`
  pub verify_strict : Digest → Signature → PublicKey → Bool
  -- decoding of the signatures and of the keys, and `verify_batch`
  pub verify_batch : List Digest → List Signature → List PublicKey → Bool
