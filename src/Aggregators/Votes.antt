-- ===== src/Aggregators/Votes.antt =====
-- The votes of primary/src/aggregators.rs make one certificate, at a quorum of distinct voters.
use bullshark_ubuntu.Base.{
  ℕ, ◌+◌, ◌*◌, ◌≤◌, ◌<◌, ◌≡◌, refl, sym, ap, ◌∙◌, inl, inr, ◌==◌, ◌||◌, leb, if◌then◌else◌, false,
  List, [], ◌∷◌, ◌++◌, map, keys, length, length-append, contains, contains-append, All, All-append,
  Distinct, subst, Option, none, some, ok, err, arith, u32_mod, add_u32, Bool-cases, ==_iff,
}
use native.Mathlib.Nat.{zero-add}
use mathlib.Core.List.{map-append}
use bullshark_ubuntu.Crypto.{Signature}
use bullshark_ubuntu.Config.{Committee, PublicKey, stake, quorum_threshold}
use bullshark_ubuntu.Config.Quorum.{total, weight, weight-le-total, quorum_threshold_lem}
use bullshark_ubuntu.Error.{DagResult}
use bullshark_ubuntu.Messages.Header.{Header}
use bullshark_ubuntu.Messages.Vote.{Vote}
use bullshark_ubuntu.Messages.Certificate.{Certificate}
use bullshark_ubuntu.Aggregators.{VotesAggregator, new_votes, append_vote}

-- The certificates that a sequence of votes makes, and the aggregator at the end.
abbrev pub produced : DagResult (Option Certificate) → List Certificate
produced (ok (some c)) = c ∷ []
produced (ok none) = []
produced (err e) = []

unfoldable pub append_votes :
    Committee → Header → VotesAggregator → List Vote → VotesAggregator × List Certificate
append_votes c h a [] = (a, [])
append_votes c h a (v ∷ vs) =
    let (a', r) = append_vote a v c h in
    let (b, certs) = append_votes c h a' vs in (b, produced r ++ certs)

weight-snoc :
    (c : Committee) (xs : List PublicKey) (x : PublicKey)
    → weight c (xs ++ x ∷ []) ≡ weight c xs + stake c x
unfolding weight
weight-snoc c [] x = omega arith
weight-snoc c (y ∷ xs) x = omega (arith, weight-snoc c xs x)

Distinct-snoc :
    (xs : List PublicKey) (x : PublicKey)
    → Distinct xs
    → contains x xs ≡ false
    → Distinct (xs ++ x ∷ [])
Distinct-snoc [] x d h = (refl, tt)
Distinct-snoc (y ∷ xs) x d h = ground (arith, Distinct-snoc xs x d.1, contains-append y xs (x ∷ []))

-- The authors used are those of the votes, each once, and `n` certificates were made of them: none below the quorum, and one from there on.
record Tally (c : Committee) (n : ℕ) (a : VotesAggregator) : Type 0 where
  distinct : Distinct (keys a.votes)
  same : (k : PublicKey) → contains k a.used ≡ contains k (keys a.votes)
  below :
      n ≡ 0 → (a.weight ≡ weight c (keys a.votes)) × (weight c (keys a.votes) < quorum_threshold c)
  above : 0 < n → (n ≡ 1) × (a.weight + quorum_threshold c ≤ weight c (keys a.votes))

new_votes-Tally : (c : Committee) → 2 * total c < u32_mod → Tally c 0 new_votes
unfolding weight
new_votes-Tally c small = record {
  distinct = tt;
  same = λ k. refl;
  below = λ e. (refl, omega (arith, quorum_threshold_lem c small));
  above = λ h. absurd (omega arith);
}

-- A certificate of distinct voters that hold a quorum, for this header.
abbrev pub IsQuorumFor : Committee → Header → Certificate → Type 0
IsQuorumFor c h cert =
    (cert.header ≡ h)
    × Distinct (keys cert.votes)
    × (quorum_threshold c ≤ weight c (keys cert.votes))

module _ (c : Committee) (small : 2 * total c < u32_mod) (h : Header) where
  -- What a vote of a new author adds.
  record Grown (a : VotesAggregator) (v : Vote) : Type 0 where
    distinct' : Distinct (keys (a.votes ++ (v.author, v.signature) ∷ []))
    same' :
        (k : PublicKey)
        → contains k (v.author ∷ a.used)
          ≡ contains k (keys (a.votes ++ (v.author, v.signature) ∷ []))
    heavier :
        weight c (keys (a.votes ++ (v.author, v.signature) ∷ []))
        ≡ weight c (keys a.votes) + stake c v.author
    bounded : weight c (keys (a.votes ++ (v.author, v.signature) ∷ [])) ≤ total c

  grow :
      (n : ℕ) (a : VotesAggregator) (v : Vote)
      → Tally c n a
      → contains v.author a.used ≡ false
      → Grown a v
  grow n a v t e = record {
    distinct' = distinct';
    same' = λ k.
        rw new_keys (ground (arith, t.same k, contains-append k (keys a.votes) (v.author ∷ [])));
    heavier = rw new_keys (weight-snoc c (keys a.votes) v.author);
    bounded = weight-le-total c _ distinct';
  }
    where
      new_keys : keys (a.votes ++ (v.author, v.signature) ∷ []) ≡ keys a.votes ++ v.author ∷ []
      new_keys =
          map-append (λ (e : PublicKey × Signature). e.0) a.votes ((v.author, v.signature) ∷ [])

      distinct' : Distinct (keys (a.votes ++ (v.author, v.signature) ∷ []))
      distinct' =
          rw new_keys (Distinct-snoc (keys a.votes) v.author t.distinct (sym (t.same v.author) ∙ e))

  append_vote-Tally :
      (n : ℕ) (a : VotesAggregator) (v : Vote)
      → Tally c n a
      → Tally c (length (produced (append_vote a v c h).1) + n) (append_vote a v c h).0
        × All (IsQuorumFor c h) (produced (append_vote a v c h).1)
  unfolding append_vote
  append_vote-Tally n a v t = elim (Bool-cases (contains v.author a.used)) [
    | inl e ↦ rw e (rw zero-add (t, tt))
    | inr e ↦
        let g = grow n a v t e in
        elim (Bool-cases (leb (quorum_threshold c) (add_u32 a.weight (stake c v.author)))) [
          | inl q ↦
              rw (e, q)
                ((
                  record {
                    distinct = g.distinct';
                    same = g.same';
                    below = λ z. absurd (omega arith);
                    above = λ z. (
                      ground (
                        arith,
                        t.below,
                        t.above,
                        quorum_threshold_lem c small,
                        g.heavier,
                        g.bounded,
                      ),
                      ground (
                        arith,
                        t.below,
                        t.above,
                        quorum_threshold_lem c small,
                        g.heavier,
                        g.bounded,
                      ),
                    );
                  },
                  (
                    (
                      refl,
                      g.distinct',
                      ground (
                        arith,
                        t.below,
                        t.above,
                        quorum_threshold_lem c small,
                        g.heavier,
                        g.bounded,
                      ),
                    ),
                    tt,
                  ),
                ))
          | inr q ↦
              rw (e, q)
                ((
                  record {
                    distinct = g.distinct';
                    same = g.same';
                    below = λ z. (
                      ground (arith, t.below, g.heavier, g.bounded),
                      ground (arith, t.below, g.heavier, g.bounded),
                    );
                    above = λ z.
                        (ground (arith, t.above), ground (arith, t.above, g.heavier, g.bounded));
                  },
                  tt,
                ))
        ]
  ]

  append_vote-used :
      (a : VotesAggregator) (v : Vote) (k : PublicKey)
      → contains k (append_vote a v c h).0.used ≡ (k == v.author || contains k a.used)
  unfolding append_vote
  append_vote-used a v k = elim (Bool-cases (contains v.author a.used)) [
    | inl e ↦ rw e (elim (Bool-cases (k == v.author)) [
      | inl s ↦ ground (arith, ap (λ t. contains t a.used) ((==_iff k v.author).0 s))
      | inr s ↦ ground arith
    ])
    | inr e ↦ ground arith
  ]

  append_votes-Tally :
      (n : ℕ) (a : VotesAggregator) (vs : List Vote)
      → Tally c n a
      → Tally c (length (append_votes c h a vs).1 + n) (append_votes c h a vs).0
        × All (IsQuorumFor c h) (append_votes c h a vs).1
  unfolding append_votes
  append_votes-Tally n a [] t = (rw zero-add t, tt)
  append_votes-Tally n a (v ∷ vs) t =
      let (t', made) = append_vote-Tally n a v t in
      let a' = (append_vote a v c h).0 in
      let new = produced (append_vote a v c h).1 in
      let (t'', later) = append_votes-Tally (length new + n) a' vs t' in
      (
        subst (λ m. Tally c m (append_votes c h a' vs).0)
            (omega (arith, length-append new (append_votes c h a' vs).1)) t'',
        All-append (IsQuorumFor c h) new (append_votes c h a' vs).1 made later,
      )

  append_votes-used :
      (a : VotesAggregator) (vs : List Vote) (k : PublicKey)
      → contains k (append_votes c h a vs).0.used
        ≡ (contains k (map (λ v. v.author) vs) || contains k a.used)
  unfolding append_votes
  append_votes-used a [] k = refl
  append_votes-used a (v ∷ vs) k =
      ground (arith, append_vote-used a v k, append_votes-used (append_vote a v c h).0 vs k)

  -- Any votes for a header, in any order and with repetitions, give a new aggregator one certificate if their distinct authors hold a quorum and none if not, and it certifies the header by a quorum of distinct authors: twice the total stake is below 2^32.
  pub one_certificate :
      (vs : List Vote)
      → let (b, certs) = append_votes c h new_votes vs in
        Distinct (keys b.votes)
        × ((k : PublicKey) → contains k (keys b.votes) ≡ contains k (map (λ v. v.author) vs))
        × (length certs ≡ (if leb (quorum_threshold c) (weight c (keys b.votes)) then 1 else 0))
        × All (IsQuorumFor c h) certs
  one_certificate vs =
      let (t, made) = append_votes-Tally 0 new_votes vs (new_votes-Tally c small) in
      (t.distinct, λ k. ground (arith, t.same k, append_votes-used new_votes vs k), count t, made)
    where
      count :
          Tally c (length (append_votes c h new_votes vs).1 + 0) (append_votes c h new_votes vs).0
          → length (append_votes c h new_votes vs).1 ≡ (
              if leb (quorum_threshold c) (weight c (keys (append_votes c h new_votes vs).0.votes))
              then 1
              else 0)
      count t = ground (arith, t.below, t.above)
