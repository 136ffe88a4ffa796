-- ===== src/Error.antt =====
-- primary/src/error.rs: the errors of the primary, `ensure!` and the `?` operator.
use bullshark_ubuntu.Base.{if◌then◌else◌, ℕ, Bool, true, false, Result, ok, err, ◌≡◌, refl}
use bullshark_ubuntu.Config.{PublicKey}
use bullshark_ubuntu.Crypto.{Digest}

-- The payload of a storage failure is a number.
pub data DagError : Type 0 where
  invalid_signature : DagError
  serialization_error : DagError
  invalid_header_id : DagError
  malformed_header : Digest → DagError
  unknown_authority : PublicKey → DagError
  authority_reuse : PublicKey → DagError
  unexpected_vote : Digest → DagError
  certificate_requires_quorum : DagError
  header_requires_quorum : Digest → DagError
  too_old : Digest → ℕ → DagError
  store_error : ℕ → DagError

abbrev pub DagResult : Type 0 → Type 0
DagResult A = Result DagError A

abbrev pub ensure : Bool → DagError → DagResult (Unit {0})
ensure cond error = if cond then ok tt else err error

infixl 5 ◌>>=◌
abbrev pub ◌>>=◌ : {A B : Type 0} → DagResult A → (A → DagResult B) → DagResult B
err error >>= next = err error
ok value >>= next = next value

infixl 5 ◌>>◌
abbrev pub ◌>>◌ : {B : Type 0} → DagResult (Unit {0}) → DagResult B → DagResult B
first >> second = first >>= (λ ignored. second)

-- The parts of a chain that succeeded.
pub >>=-eq-ok :
    {A B : Type 0} (first : DagResult A) (next : A → DagResult B) {result : B}
    → (first >>= next) ≡ ok result
    → (value : A) × (first ≡ ok value) × (next value ≡ ok result)
>>=-eq-ok (err error) next succeeded = cc
>>=-eq-ok (ok value) next succeeded = (value, refl, succeeded)

pub ensure-eq-ok : (b : Bool) (e : DagError) → ensure b e ≡ ok tt → b ≡ true
ensure-eq-ok true e h = refl
ensure-eq-ok false e h = cc
