-- ===== src/Store/Queues.antt =====
-- The queues of store/src/lib.rs after an insertion and a removal.
use bullshark_ubuntu.Base.{
  ◌≡◌, refl, ap, sym, ◌∙◌, subst, if◌then◌else◌, true, [], ◌∷◌, ◌++◌, inl, inr, ==_iff, ==_refl,
  Bool-cases, arith,
}
use bullshark_ubuntu.Core.State.{Bytes}
use bullshark_ubuntu.Store.{Sender, same, Obligations, queue, push_back, remove}

pub same_refl : (k : Bytes) → same k k ≡ true
same_refl [] = refl
same_refl (x ∷ xs) = ground (arith, ==_refl x, same_refl xs)

pub same→eq : (j k : Bytes) → same j k ≡ true → j ≡ k
same→eq [] [] h = refl
same→eq [] (y ∷ ys) h = cc
same→eq (x ∷ xs) [] h = cc
same→eq (x ∷ xs) (y ∷ ys) h = ground (arith, same→eq xs ys, ==_iff x y)

-- Two keys that equal a third one.
pub same_join : (i j k : Bytes) → same i j ≡ true → same k j ≡ true → same i k ≡ true
same_join i j k e f =
    subst (λ t. same i t ≡ true) (same→eq i j e ∙ sym (same→eq k j f)) (same_refl i)

pub queue-push_back :
    (j k : Bytes) (s : Sender) (m : Obligations)
    → queue j (push_back k s m) ≡ (if same k j then queue j m ++ s ∷ [] else queue j m)
unfolding push_back
queue-push_back j k s [] = refl
queue-push_back j k s ((i, q) ∷ m) = elim (Bool-cases (same i k)) [
  | inl e ↦ rw e (ground (arith, ap (λ t. same t j) (same→eq i k e)))
  | inr n ↦ rw n (ground (arith, queue-push_back j k s m, same_join i j k))
]

pub queue-remove :
    (j k : Bytes) (m : Obligations) → queue j (remove k m) ≡ (if same k j then [] else queue j m)
unfolding remove
queue-remove j k [] = ground arith
queue-remove j k ((i, q) ∷ m) = elim (Bool-cases (same i k)) [
  | inl e ↦ rw e (ground (arith, queue-remove j k m, ap (λ t. same t j) (same→eq i k e)))
  | inr n ↦ rw n (ground (arith, queue-remove j k m, same_join i j k))
]
