-- ===== src/Consensus/Once/Leaders.antt =====
-- `order_leaders` returns certificates of the DAG, of falling rounds above the last commit.
use mathlib.Core.List.{reverse-cons}
use bullshark_ubuntu.Base.{
  ℕ, zero, suc, ◌+◌, ◌-◌, ◌≤◌, ◌<◌, ◌≡◌, refl, ap, ◌∙◌, subst, ◌⊎◌, inl, inr, true, Option, none,
  some, List, [], ◌∷◌, ◌++◌, reverse, All, All-append, add_u64, u64_mod, arith, Bool-cases,
  Option-cases,
}
use bullshark_ubuntu.Config
use bullshark_ubuntu.Config.{PublicKey}
use bullshark_ubuntu.Crypto.{Digest}
use bullshark_ubuntu.Messages.Header.{Round}
use bullshark_ubuntu.Messages.Certificate.{Certificate, round, origin}
use bullshark_ubuntu.Consensus.State.{Dag, State, Consensus}
use bullshark_ubuntu.Consensus.Leaders.{
  slot, slot_of, >>=-eq-some, leader, fallback_leader, linked, every_second, past_leaders,
  order_leaders,
}
use bullshark_ubuntu.Consensus.Once.Wf.{WfDag, slot_entry}

abbrev pub InDag : Dag → Certificate → Type 0
InDag dag x =
    ((d : Digest) × (slot dag (round x) (origin x) ≡ some (d, x))) × (round x + 2 < u64_mod)

-- Rounds fall from below `hi` to `lo`.
abbrev Falling : Round → Round → List Round → Type 0
Falling lo hi [] = Unit
Falling lo hi (r ∷ rs) = (lo ≤ r) × (r < hi) × Falling lo r rs

Falling-mono :
    (lo hi more : Round) (rs : List Round) → hi ≤ more → Falling lo hi rs → Falling lo more rs
Falling-mono lo hi more [] h f = tt
Falling-mono lo hi more (r ∷ rs) h f = (f.0, omega arith, f.2)

pub every_second-Falling : (lo : Round) (k : ℕ) → Falling lo (lo + k) (every_second lo k)
unfolding every_second
every_second-Falling lo zero = tt
every_second-Falling lo (suc zero) = (omega arith, omega arith, tt)
every_second-Falling lo (suc (suc k)) = (
  omega arith,
  omega arith,
  Falling-mono lo (lo + k) (lo + suc k) (every_second lo k) (omega arith)
      (every_second-Falling lo k),
)

every_second_below : (lo h k : ℕ) → k ≡ h - lo → Falling lo h (every_second lo k)
unfolding every_second
every_second_below lo h zero e = tt
every_second_below lo h (suc k) e =
    Falling-mono lo (lo + suc k) h (every_second lo (suc k)) (omega arith)
      (every_second-Falling lo (suc k))

-- The rounds of certificates rise from above `lo` to below `hi`.
abbrev pub Rising : Round → Round → List Certificate → Type 0
Rising lo hi [] = Unit
Rising lo hi (x ∷ xs) = (lo < round x) × (round x < hi) × Rising (round x) hi xs

Rising-snoc :
    (lo hi : Round) (xs : List Certificate) (x : Certificate)
    → Rising lo (round x) xs
    → lo < round x
    → round x < hi
    → Rising lo hi (xs ++ x ∷ [])
Rising-snoc lo hi [] x r l h = (l, h, tt)
Rising-snoc lo hi (y ∷ ys) x r l h = (r.0, omega arith, Rising-snoc (round y) hi ys x r.2 r.1 h)

slot-InDag :
    (r : Round) (dag : Dag) (name : PublicKey) (d : Digest) (x : Certificate)
    → WfDag dag
    → slot dag r name ≡ some (d, x)
    → (round x ≡ r) × InDag dag x
slot-InDag r dag name d x w at =
    let (er, en, fits) = slot_entry dag r name d x w at in
    (er, ((d, ap (λ t. slot dag t (origin x)) er ∙ ap (slot dag r) en ∙ at), omega arith))

some-some : {a b : Option (Digest × Certificate)} → some a ≡ some b → a ≡ b
some-some q = cc

pub leader-InDag :
    (c : Consensus) (r : Round) (dag : Dag) (d : Digest) (x : Certificate)
    → WfDag dag
    → leader c r dag ≡ some (some (d, x))
    → (round x ≡ r) × InDag dag x
unfolding leader
leader-InDag c r dag d x w h =
    let (name, e, at) = >>=-eq-some (Config.leader c.committee r) _ h in
    slot-InDag r dag name d x w (some-some at)

slot_of-InDag :
    (o : Option PublicKey) (r : Round) (dag : Dag) (d : Digest) (x : Certificate)
    → WfDag dag
    → slot_of dag r o ≡ some (d, x)
    → (round x ≡ r) × InDag dag x
unfolding slot_of
slot_of-InDag none r dag d x w h = cc
slot_of-InDag (some name) r dag d x w h = slot-InDag r dag name d x w h

pub fallback_leader-InDag :
    (c : Consensus) (r : Round) (dag : Dag) (d : Digest) (x : Certificate)
    → WfDag dag
    → fallback_leader c r dag ≡ some (some (d, x))
    → (round x ≡ r) × InDag dag x
unfolding fallback_leader
fallback_leader-InDag c r dag d x w h =
    let (first, e, h1) = >>=-eq-some (Config.leader c.committee r) _ h in
    let (third, f, h2) = >>=-eq-some (Config.leader c.committee (add_u64 r 2)) _ h1 in
    slot_of-InDag _ r dag d x w (some-some h2)

Rising-mono :
    (lo hi more : Round) (xs : List Certificate) → hi ≤ more → Rising lo hi xs → Rising lo more xs
Rising-mono lo hi more [] h r = tt
Rising-mono lo hi more (x ∷ xs) h r = (r.0, omega arith, Rising-mono (round x) hi more xs h r.2)

-- One round of `past_leaders`: passed over, or a linked leader of that round.
pub past_leaders_step :
    (c : Consensus) (dag : Dag) (last : Certificate) (r : Round) (rs : List Round)
    (out : List Certificate)
    → past_leaders c dag last (r ∷ rs) ≡ some out
    → (past_leaders c dag last rs ≡ some out)
      ⊎ ((d : Digest) × (x : Certificate) × (older : List Certificate) × (leader c r dag
            ≡ some (some (d, x)))
          × (linked last x dag ≡ some true)
          × (past_leaders c dag x rs ≡ some older)
          × (x ∷ older ≡ out))
unfolding past_leaders
past_leaders_step c dag last r rs out h =
    let (found, at, h1) = >>=-eq-some (leader c r dag) _ h in
    elim (Option-cases found) [
      | inl e ↦ inl (rw e at h1)
      | inr ((d, x), e) ↦
          let (path, joined, h2) = >>=-eq-some (linked last x dag) _ (rw e at h1) in
          elim (Bool-cases path) [
            | inl t ↦
                let (older, next, h3) = >>=-eq-some (past_leaders c dag x rs) _ (rw t at h2) in
                inr (d, x, older, rw e at at, rw t at joined, next, unwrap_some h3)
            | inr f ↦ inl (rw f at h2)
          ]
    ]
  where
    unwrap_some : {a b : List Certificate} → some a ≡ some b → a ≡ b
    unwrap_some q = cc

past_leaders-Rising :
    (c : Consensus) (dag : Dag) (last : Certificate) (lo hi b : Round) (rs : List Round)
    (out : List Certificate)
    → WfDag dag
    → b < lo
    → Falling lo hi rs
    → past_leaders c dag last rs ≡ some out
    → All (InDag dag) out × Rising b hi (reverse out)
unfolding past_leaders
past_leaders-Rising c dag last lo hi b [] out w low f h =
    subst (λ t. All (InDag dag) t × Rising b hi (reverse t)) (unwrap_some h) (tt, tt)
  where
    unwrap_some : {a b : List Certificate} → some a ≡ some b → a ≡ b
    unwrap_some q = cc
past_leaders-Rising c dag last lo hi b (r ∷ rs) out w low f h =
    elim (past_leaders_step c dag last r rs out h) [
      | inl passed ↦
          let (inside, rises) = past_leaders-Rising c dag last lo r b rs out w low f.2 passed in
          (inside, Rising-mono b r hi (reverse out) (omega arith) rises)
      | inr (d, x, older, at, joined, next, same) ↦
          let (er, there) = leader-InDag c r dag d x w at in
          let (inside, rises) = past_leaders-Rising c dag x lo r b rs older w low f.2 next in
          subst (λ t. All (InDag dag) t × Rising b hi (reverse t)) same
            (
              (there, inside),
              rw (reverse-cons x older) (
                  Rising-snoc b hi (reverse older) x
                    (Rising-mono b r (round x) (reverse older) (omega arith) rises) (omega arith)
                    (omega arith)),
            )
    ]

All-reverse {κ} : (P : Certificate → Type κ) (xs : List Certificate) → All P xs → All P (reverse xs)
All-reverse P [] h = tt
All-reverse P (x ∷ xs) h =
    rw (reverse-cons x xs) (All-append P (reverse xs) (x ∷ []) (All-reverse P xs h.1) (h.0, tt))

-- On a well-formed DAG, for a leader in it of a round above the last committed one, which is below the largest by two, the leaders that `order_leaders` returns are, oldest first, certificates of the DAG of rounds that rise from above the last committed round.
pub order_leaders-Rising :
    (c : Consensus) (leader : Certificate) (s : State) (out : List Certificate)
    → WfDag s.dag
    → s.last_committed_round + 2 < u64_mod
    → InDag s.dag leader
    → s.last_committed_round < round leader
    → order_leaders c leader s ≡ some out
    → All (InDag s.dag) (reverse out) × Rising s.last_committed_round u64_mod (reverse out)
unfolding order_leaders
order_leaders-Rising c leader s out w small there later h =
    let lo = add_u64 s.last_committed_round 2 in
    let k = round leader - lo in
    let (older, past, h1) = >>=-eq-some (past_leaders c s.dag leader (every_second lo k)) _ h in
    let (inside, rises) =
      past_leaders-Rising c s.dag leader lo (round leader) s.last_committed_round
        (every_second lo k) older w (omega arith) (every_second_below lo (round leader) k refl)
        past in
    subst (λ t. All (InDag s.dag) (reverse t) × Rising s.last_committed_round u64_mod (reverse t))
      (unwrap_some h1)
      (
        All-reverse (InDag s.dag) (leader ∷ older) (there, inside),
        rw (reverse-cons leader older) (
            Rising-snoc s.last_committed_round u64_mod (reverse older) leader rises later
              (omega arith)),
      )
  where
    unwrap_some : {a b : List Certificate} → some a ≡ some b → a ≡ b
    unwrap_some q = cc
