-- ===== src/Messages/Encoding.antt =====
-- What is fed to the hasher for a vote of primary/src/messages.rs, and the key of a batch in the
-- storage, can be read back.
use bullshark_ubuntu.Base.{
  ℕ, zero, suc, ◌+◌, ◌*◌, ◌/◌, ◌^◌, ◌<◌, ◌≡◌, refl, sym, ap, ◌∙◌, [], ◌∷◌, ◌++◌, reverse, length,
  length-append, le_bytes, be_bytes, arith,
}
use mathlib.Core.List.{reverse-reverse, reverse-cons}
use native.Mathlib.Nat.{pow-suc}
use bullshark_ubuntu.Config.{PublicKey, WorkerId}
use bullshark_ubuntu.Crypto.{Digest}
use bullshark_ubuntu.Messages.Header.{Round}
use bullshark_ubuntu.Messages.Vote.{hashed_bytes}
use bullshark_ubuntu.Core.State.{Bytes, batch_key}

abbrev pub take : ℕ → Bytes → Bytes
take zero bs = []
take (suc n) [] = []
take (suc n) (b ∷ bs) = b ∷ take n bs

abbrev pub drop : ℕ → Bytes → Bytes
drop zero bs = bs
drop (suc n) [] = []
drop (suc n) (b ∷ bs) = drop n bs

-- The number of some bytes, the least significant first, and the most significant first.
abbrev pub le_value : Bytes → ℕ
le_value [] = 0
le_value (b ∷ bs) = b + 256 * le_value bs

abbrev pub be_value : Bytes → ℕ
be_value bs = le_value (reverse bs)

take-append : (xs ys : Bytes) → take (length xs) (xs ++ ys) ≡ xs
take-append [] ys = refl
take-append (x ∷ xs) ys = ap (◌∷◌ x) (take-append xs ys)

drop-append : (xs ys : Bytes) → drop (length xs) (xs ++ ys) ≡ ys
drop-append [] ys = refl
drop-append (x ∷ xs) ys = drop-append xs ys

length-le_bytes : (w n : ℕ) → length (le_bytes w n) ≡ w
unfolding le_bytes
length-le_bytes zero n = refl
length-le_bytes (suc w) n = ap suc (length-le_bytes w (n / 256))

length-reverse : (xs : Bytes) → length (reverse xs) ≡ length xs
length-reverse [] = refl
length-reverse (x ∷ xs) =
    ap length (reverse-cons x xs)
    ∙ omega (arith, length-append (reverse xs) (x ∷ []), length-reverse xs)

length-be_bytes : (w n : ℕ) → length (be_bytes w n) ≡ w
unfolding be_bytes
length-be_bytes w n = length-reverse (le_bytes w n) ∙ length-le_bytes w n

le_value-le_bytes : (w n : ℕ) → n < 256 ^ w → le_value (le_bytes w n) ≡ n
unfolding le_bytes
le_value-le_bytes zero n h = omega arith
le_value-le_bytes (suc w) n h =
    omega (arith, le_value-le_bytes w (n / 256) (omega (arith, pow-suc 256 w)))

be_value-be_bytes : (w n : ℕ) → n < 256 ^ w → be_value (be_bytes w n) ≡ n
unfolding be_bytes
be_value-be_bytes w n h = ap le_value (reverse-reverse (le_bytes w n)) ∙ le_value-le_bytes w n h

-- The first field of a fixed width, and what follows it.
take_be : (w n : ℕ) (rest : Bytes) → take w (be_bytes w n ++ rest) ≡ be_bytes w n
take_be w n rest =
    ap (λ k. take k (be_bytes w n ++ rest)) (sym (length-be_bytes w n))
    ∙ take-append (be_bytes w n) rest

drop_be : (w n : ℕ) (rest : Bytes) → drop w (be_bytes w n ++ rest) ≡ rest
drop_be w n rest =
    ap (λ k. drop k (be_bytes w n ++ rest)) (sym (length-be_bytes w n))
    ∙ drop-append (be_bytes w n) rest

take_le : (w n : ℕ) (rest : Bytes) → take w (le_bytes w n ++ rest) ≡ le_bytes w n
take_le w n rest =
    ap (λ k. take k (le_bytes w n ++ rest)) (sym (length-le_bytes w n))
    ∙ take-append (le_bytes w n) rest

drop_le : (w n : ℕ) (rest : Bytes) → drop w (le_bytes w n ++ rest) ≡ rest
drop_le w n rest =
    ap (λ k. drop k (le_bytes w n ++ rest)) (sym (length-le_bytes w n))
    ∙ drop-append (le_bytes w n) rest

-- The id, the round and the origin that bytes stand for.
abbrev pub read_vote : Bytes → Digest × Round × PublicKey
read_vote bs =
    (be_value (take 32 bs), le_value (take 8 (drop 32 bs)), be_value (drop 8 (drop 32 bs)))

-- The bytes hashed for a vote, or for a certificate, give back the header id, the round and the origin, each within its width: two votes hash the same bytes only when they are for the same.
pub read_vote-hashed_bytes :
    (id : Digest) (round : Round) (origin : PublicKey)
    → id < 256 ^ 32
    → round < 256 ^ 8
    → origin < 256 ^ 32
    → read_vote (hashed_bytes id round origin) ≡ (id, round, origin)
unfolding hashed_bytes
read_vote-hashed_bytes id round origin hi hr ho =
    let tail = le_bytes 8 round ++ be_bytes 32 origin in
    let rest = drop_be 32 id tail in
    cc (
      ap be_value (take_be 32 id tail) ∙ be_value-be_bytes 32 id hi,
      ap (λ t. le_value (take 8 t)) rest
          ∙ ap le_value (take_le 8 round (be_bytes 32 origin))
          ∙ le_value-le_bytes 8 round hr,
      ap (λ t. be_value (drop 8 t)) rest
          ∙ ap be_value (drop_le 8 round (be_bytes 32 origin))
          ∙ be_value-be_bytes 32 origin ho,
    )

abbrev pub read_batch_key : Bytes → Digest × WorkerId
read_batch_key bs = (be_value (take 32 bs), le_value (drop 32 bs))

-- The key under which a primary keeps that one of its workers has a batch gives back the digest and the id of the worker, each within its width: a batch that worker 0 has is not taken for one of worker 1.
pub read_batch_key-batch_key :
    (digest : Digest) (id : WorkerId)
    → digest < 256 ^ 32
    → id < 256 ^ 4
    → read_batch_key (batch_key digest id) ≡ (digest, id)
read_batch_key-batch_key digest id hd hi = cc (
  ap be_value (take_be 32 digest (le_bytes 4 id)) ∙ be_value-be_bytes 32 digest hd,
  ap le_value (drop_be 32 digest (le_bytes 4 id)) ∙ le_value-le_bytes 4 id hi,
)
