-- ===== src/Base/Results.antt =====
-- `Result` of the code: a value or an error.
use mathlib.Core.Path.{◌≡◌, refl}
use mathlib.Core.Logic.{◌⊎◌, inl, inr}
use mathlib.Core.Option.{Option, none, some}

pub data Result (E : Type 0) (A : Type 0) : Type 0 where
  ok : A → Result E A
  err : E → Result E A

-- `Option::ok_or_else`.
abbrev pub ok_or : {E A : Type 0} → Option A → E → Result E A
ok_or none e = err e
ok_or (some a) e = ok a

-- The three results of a read.
pub Result-cases :
    {E A : Type 0} (r : Result E (Option A))
    → ((e : E) × (r ≡ err e)) ⊎ ((r ≡ ok none) ⊎ ((a : A) × (r ≡ ok (some a))))
Result-cases (err e) = inl (e, refl)
Result-cases (ok none) = inr (inl refl)
Result-cases (ok (some a)) = inr (inr (a, refl))
