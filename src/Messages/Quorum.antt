-- ===== src/Messages/Quorum.antt =====
-- What a verified certificate of primary/src/messages.rs shows: a quorum of distinct voters.
use bullshark_ubuntu.Base.{
  ℕ, ◌+◌, ◌*◌, ◌≤◌, ◌<◌, ◌≡◌, ap, ◌⊎◌, inl, inr, ◌==◌, not, leb, Bool, true, false, List, [], ◌∷◌,
  keys, any, contains, contains-retain, add_u32, ==_refl, Distinct, retain, ok, arith, u32_mod,
  Bool-cases, ==_iff, leb→le,
}
use bullshark_ubuntu.Config.{
  Committee, PublicKey, Stake, stake, quorum_threshold, validity_threshold,
}
use bullshark_ubuntu.Config.Quorum.{total, weight, common, weight-le-total, quorum_intersection}
use bullshark_ubuntu.Crypto.{Signature, Dalek}
use bullshark_ubuntu.Error.{>>=-eq-ok, ensure-eq-ok}
use bullshark_ubuntu.Messages.Header
use bullshark_ubuntu.Messages.Certificate
use bullshark_ubuntu.Messages.Certificate.{Certificate, eq, genesis, check_votes, verify_batch}

abbrev pub voters : Certificate → List PublicKey
voters c = keys c.votes

record Checked (c : Committee) (votes : List (PublicKey × Signature)) (used : List PublicKey)
    : Type 0 where
  distinct : Distinct (keys votes)
  fresh : (n : PublicKey) → contains n (keys votes) ≡ true → contains n used ≡ false

check_votes-Checked :
    (c : Committee) (votes : List (PublicKey × Signature)) (w r : Stake) (used : List PublicKey)
    → check_votes c votes w used ≡ ok r
    → Checked c votes used
unfolding check_votes
check_votes-Checked c [] w r used h = record { distinct = tt; fresh = λ n m. cc }
check_votes-Checked c ((name, s) ∷ votes) w r used h =
    let rest =
      check_votes-Checked c votes (add_u32 w (stake c name)) r (name ∷ used) (ground arith) in
    record {
      distinct = (
        elim (Bool-cases (contains name (keys votes))) [
          | inl m ↦ absurd (self name (rest.fresh name m))
          | inr n ↦ n
        ],
        rest.distinct,
      );
      fresh = λ n m. elim (Bool-cases (n == name)) [
        | inl e ↦ ground (arith, ap (λ t. contains t used) ((==_iff n name).0 e))
        | inr e ↦ ground (arith, rest.fresh n)
      ];
    }
  where
    self : (n : ℕ) → contains n (n ∷ used) ≡ false → ⊥
    self n e = ground arith

check_votes-weight :
    (c : Committee) (votes : List (PublicKey × Signature)) (w r : Stake) (used : List PublicKey)
    → check_votes c votes w used ≡ ok r
    → w + weight c (keys votes) < u32_mod
    → r ≡ w + weight c (keys votes)
unfolding check_votes weight
check_votes-weight c [] w r used h small = ground arith
check_votes-weight c ((name, s) ∷ votes) w r used h small =
    ground (arith, check_votes-weight c votes (add_u32 w (stake c name)) r (name ∷ used))

-- The certificate carries a quorum: votes of distinct authorities that hold the threshold, with valid signatures on its digest.
pub record HasQuorum (d : Dalek) (c : Committee) (cert : Certificate) : Type 0 where
  pub header_ok : Header.verify d c cert.header ≡ ok tt
  pub distinct : Distinct (voters cert)
  pub enough : quorum_threshold c ≤ weight c (voters cert)
  pub signed : verify_batch d (Certificate.digest d cert) cert.votes ≡ true

verified_parts :
    (d : Dalek) (c : Committee) (cert : Certificate)
    → Certificate.verify d c cert ≡ ok tt
    → any (λ g. eq g cert) (genesis c) ≡ false
    → (r : Stake) × (Header.verify d c cert.header ≡ ok tt)
      × (check_votes c cert.votes 0 [] ≡ ok r)
      × (leb (quorum_threshold c) r ≡ true)
      × (verify_batch d (Certificate.digest d cert) cert.votes ≡ true)
unfolding Certificate.verify
verified_parts d c cert h g =
    let (u, header_ok, h1) = >>=-eq-ok _ _ (rw g at h) in
    let (r, counted, h2) = >>=-eq-ok _ _ h1 in
    let (v, enough, h3) = >>=-eq-ok _ _ h2 in
    (r, header_ok, counted, ensure-eq-ok _ _ enough, ensure-eq-ok _ _ h3)

-- A certificate that verifies is a genesis certificate or carries a quorum, if twice the total stake is below 2^32.
pub verify-HasQuorum :
    (d : Dalek) (c : Committee) (cert : Certificate)
    → 2 * total c < u32_mod
    → Certificate.verify d c cert ≡ ok tt
    → (any (λ g. eq g cert) (genesis c) ≡ true) ⊎ HasQuorum d c cert
verify-HasQuorum d c cert small h = elim (Bool-cases (any (λ g. eq g cert) (genesis c))) [
  | inl g ↦ inl g
  | inr g ↦
      let (r, header_ok, counted, enough, signed) = verified_parts d c cert h g in
      let checked = check_votes-Checked c cert.votes 0 r [] counted in
      inr (record {
        header_ok = header_ok;
        distinct = checked.distinct;
        enough = omega (
          arith,
          check_votes-weight c cert.votes 0 r [] counted,
          weight-le-total c (voters cert) checked.distinct,
          leb→le (quorum_threshold c) r enough,
        );
        signed = signed;
      })
]

contains-common :
    (n : PublicKey) (xs ys : List PublicKey)
    → contains n (common xs ys) ≡ true
    → (contains n xs ≡ true) × (contains n ys ≡ true)
contains-common n xs ys h = ground (arith, contains-retain n (λ m. contains m ys) xs)

-- A list that outweighs the faulty authorities has an honest one in it.
some_honest :
    (c : Committee) (honest : PublicKey → Bool) (names : List PublicKey)
    → weight c (retain (λ n. not (honest n)) names) < weight c names
    → (n : PublicKey) × (contains n names ≡ true) × (honest n ≡ true)
unfolding weight
some_honest c honest [] h = absurd (omega arith)
some_honest c honest (n ∷ names) h = elim (Bool-cases (honest n)) [
  | inl e ↦ (n, ground (arith, ==_refl n), e)
  | inr e ↦ let (m, at, good) = some_honest c honest names (ground arith) in (m, ground arith, good)
]

Distinct-retain :
    (p : PublicKey → Bool) (xs : List PublicKey) → Distinct xs → Distinct (retain p xs)
Distinct-retain p [] d = tt
Distinct-retain p (x ∷ xs) d = ground (arith, Distinct-retain p xs d.1, contains-retain x p xs)

-- If any distinct dishonest authorities hold less than the validity threshold and twice the total stake is below 2^32, two certificates with quorums have an honest voter in common.
pub honest_voter :
    (d : Dalek) (c : Committee) (honest : PublicKey → Bool) (x y : Certificate)
    → 2 * total c < u32_mod
    → ((names : List PublicKey)
        → Distinct names
        → weight c (retain (λ n. not (honest n)) names) < validity_threshold c)
    → HasQuorum d c x
    → HasQuorum d c y
    → (n : PublicKey) × (honest n ≡ true)
      × (contains n (voters x) ≡ true)
      × (contains n (voters y) ≡ true)
honest_voter d c honest x y small few qx qy =
    let both = common (voters x) (voters y) in
    let shared =
      quorum_intersection c (voters x) (voters y) small qx.distinct qy.distinct qx.enough
        qy.enough in
    let (n, at, good) = some_honest c honest both (
      omega (
        arith,
        shared,
        few both (Distinct-retain (λ n. contains n (voters y)) (voters x) qx.distinct),
      )) in
    let (in_x, in_y) = contains-common n (voters x) (voters y) at in (n, good, in_x, in_y)

-- Two verified certificates of one author and round, neither a genesis certificate, certify the same header id: twice the total stake is below 2^32, distinct dishonest authorities hold less than the validity threshold, and an honest one votes for one id per author and round.
pub certificates_agree :
    (d : Dalek) (c : Committee) (honest : PublicKey → Bool) (x y : Certificate)
    → 2 * total c < u32_mod
    → ((names : List PublicKey)
        → Distinct names
        → weight c (retain (λ n. not (honest n)) names) < validity_threshold c)
    → ((n : PublicKey)
        → honest n ≡ true
        → contains n (voters x) ≡ true
        → contains n (voters y) ≡ true
        → x.header.author ≡ y.header.author
        → x.header.round ≡ y.header.round
        → x.header.id ≡ y.header.id)
    → Certificate.verify d c x ≡ ok tt
    → Certificate.verify d c y ≡ ok tt
    → any (λ g. eq g x) (genesis c) ≡ false
    → any (λ g. eq g y) (genesis c) ≡ false
    → x.header.author ≡ y.header.author
    → x.header.round ≡ y.header.round
    → eq x y ≡ true
unfolding eq
certificates_agree d c honest x y small few once vx vy gx gy same_author same_round =
    let (n, good, in_x, in_y) =
      honest_voter d c honest x y small few (quorum x vx gx) (quorum y vy gy) in
    ground (arith, once n good in_x in_y same_author same_round)
  where
    quorum :
        (z : Certificate)
        → Certificate.verify d c z ≡ ok tt
        → any (λ g. eq g z) (genesis c) ≡ false
        → HasQuorum d c z
    quorum z v g = elim (verify-HasQuorum d c z small v) [ inl e ↦ cc | inr q ↦ q ]
