-- ===== src/Core/Votes/Once.antt =====
-- The core of primary/src/core.rs votes once for an author in a round.
use bullshark_ubuntu.Base.{
  ℕ, ◌+◌, ◌≤◌, ◌≡◌, refl, sym, ap, ◌∙◌, ◌==◌, ◌&&◌, ◌||◌, if◌then◌else◌, Bool, true, false, List,
  [], ◌∷◌, lookup, insert, lookup-insert, unwrap_or, contains, ==_iff, ==_refl, arith, ok, err,
  Result, Bool-cases, inl, inr,
}
use bullshark_ubuntu.Config.{PublicKey, SocketAddr, ConfigError, PrimaryAddresses, primary}
use bullshark_ubuntu.Messages.Header.{Header, Round}
use bullshark_ubuntu.Messages.Vote
use bullshark_ubuntu.Messages.Vote.{Vote}
use bullshark_ubuntu.Messages.Certificate.{Certificate}
use bullshark_ubuntu.Core.State.{
  Node, Core, Action, panics, and_then, ◌>>=◌, ◌>>◌, pure, modify, gets, emit, expect, holds,
  insert_in, new, sends, write, Bytes, to_consensus, vote_message,
}
use bullshark_ubuntu.Core.Process.{
  keep_handlers, append_to_round, process_vote_with, send_vote, vote_for,
}
use bullshark_ubuntu.Core.Steady.{
  Reaches, Steady, Steady-bind, Steady-seq, Steady-pure, Steady-emit, Steady-expect, Steady-if,
  Steady-option, deliver_certificate-Steady,
}
use bullshark_ubuntu.Core.Steady.Process.{certify, Steps}
use bullshark_ubuntu.Core.Votes.{
  votes_sent, votes_left, votes_sent-emit, votes_sent-emit_le, Within, Within-le, NoMore,
  NoMore-Steadiness, Reaches-Within, Within-Reaches,
}

holds-insert_in_same :
    (r : Round) (a b : ℕ) (m : List (Round × List ℕ))
    → holds r a (insert_in r b m) ≡ (b == a || holds r a m)
holds-insert_in_same r a b m =
    let xs = unwrap_or [] (lookup r m) in
    elim (Bool-cases (contains b xs)) [
      | inl e ↦ rw e (ground (arith, lookup-insert r r xs m, ==_refl r, (==_iff b a).0, member))
      | inr e ↦ rw e (ground (arith, lookup-insert r r (b ∷ xs) m, ==_refl r))
    ]
  where
    member : b ≡ a → contains b (unwrap_or [] (lookup r m)) ≡ contains a (unwrap_or [] (lookup r m))
    member e = ap (λ t. contains t (unwrap_or [] (lookup r m))) e

holds-insert_in_other :
    (r k : Round) (a : ℕ) (xs : List ℕ) (m : List (Round × List ℕ))
    → (k == r) ≡ false
    → holds r a (insert k xs m) ≡ holds r a m
holds-insert_in_other r k a xs m e = ground (arith, lookup-insert k r xs m)

pub holds-insert_in :
    (r k : Round) (a b : ℕ) (m : List (Round × List ℕ))
    → holds r a (insert_in k b m) ≡ ((k == r && b == a) || holds r a m)
holds-insert_in r k a b m = elim (Bool-cases (k == r)) [
  | inl e ↦
      rw e (ap (λ t. holds r a (insert_in t b m)) ((==_iff k r).0 e) ∙ holds-insert_in_same r a b m)
  | inr e ↦ rw e (elim (Bool-cases (contains b (unwrap_or [] (lookup k m)))) [
    | inl f ↦ rw f (holds-insert_in_other r k a (unwrap_or [] (lookup k m)) m e)
    | inr f ↦ rw f (holds-insert_in_other r k a (b ∷ unwrap_or [] (lookup k m)) m e)
  ])
]

left_le :
    (v : ℕ) (old later hit : Bool)
    → later ≡ (hit || old)
    → v + (if later then 0 else 1) ≤ v + (if old then 0 else 1)
left_le v old later hit e = ground arith

left_spent :
    (v : ℕ) (old later hit : Bool)
    → later ≡ (hit || old)
    → (hit ≡ true → old ≡ false)
    → v + (if later then 0 else 1) + (if hit then 1 else 0) ≤ v + (if old then 0 else 1)
left_spent v old later true e new = ground (arith, new refl)
left_spent v old later false e new = ground arith

abbrev marked : Header → Core → Core
marked h s = record s { last_voted = insert_in h.round h.author s.last_voted }

module _ (r : Round) (author : PublicKey) (n : Node) where
  stops : (b : ℕ) → Within r author {A = Unit {0}} b panics
  unfolding Within
  stops b = tt

  Steady-at :
      {A : Type 0} (m : Action A)
      → Steady (NoMore r author) m
      → (s : Core) → Reaches (NoMore r author) s (m s)
  unfolding Steady
  Steady-at m h s = h s

  write-Steady : (key value : Bytes) → Steady (NoMore r author) (write n key value)
  unfolding Steady Reaches write modify
  write-Steady key value s = omega arith

  append_to_round-Steady : (x : Certificate) → Steady (NoMore r author) (append_to_round n x)
  unfolding Steady Reaches append_to_round
  append_to_round-Steady x s = omega arith

  to_consensus-Steady : (x : Certificate) → Steady (NoMore r author) (emit (to_consensus x))
  unfolding Steady Reaches emit modify
  to_consensus-Steady x s = omega (arith, votes_sent-emit r author (to_consensus x) s.effects refl)

  certify-Steady : (x : Certificate) → Steady (NoMore r author) (certify n x)
  certify-Steady x =
      let k = NoMore-Steadiness r author in
      Steady-bind _ k _ _ (deliver_certificate-Steady _ k n x) (λ delivered.
        Steady-if _ k _ _ _ (Steady-pure _ k tt) (
          Steady-seq _ k _ _ (write-Steady _ _) (
            Steady-bind _ k _ _ (append_to_round-Steady x) (λ parents.
              Steady-seq _ k _ _
                (Steady-option _ k parents _ _ (Steady-pure _ k tt) (λ xs. Steady-emit _ k _ refl))
                (to_consensus-Steady x)))))

  module _ (process : Header → Action (Unit {0}))
      (votes : (v : Vote) → Steady (NoMore r author) (process_vote_with n process v)) where
    -- One vote more than before, when it is for the author in the round.
    abbrev spent : Header → Core → ℕ
    spent h s = votes_left r author s + (if h.round == r && h.author == author then 1 else 0)

    sent :
        (h : Header) (s : Core) (address : SocketAddr)
        → Within r author (spent h s) (
            (emit (sends address (vote_message (Vote.new n.dalek h n.name)))
                >> keep_handlers n h.round
                    ((address, vote_message (Vote.new n.dalek h n.name)) ∷ []))
              s)
    unfolding Within emit keep_handlers modify ◌>>◌ and_then Vote.new
    sent h s address =
        let e = sends address (vote_message (Vote.new n.dalek h n.name)) in
        elim (Bool-cases (h.round == r && h.author == author)) [
          | inl hit ↦ rw hit (omega (arith, votes_sent-emit_le r author e s.effects))
          | inr miss ↦ rw miss (omega (arith, votes_sent-emit r author e s.effects miss))
        ]

    send_vote-Within :
        (h : Header) (s : Core) → Within r author (spent h s) (send_vote n process h s)
    unfolding send_vote
    send_vote-Within h s = choose (h.author == n.name) (primary n.committee h.author)
      where
        own :
            Steady
              (NoMore r author)
              (expect (process_vote_with n process (Vote.new n.dalek h n.name)))
        own = Steady-expect _ (NoMore-Steadiness r author) _ (votes _)

        choose :
            (b : Bool) (o : Result ConfigError PrimaryAddresses)
            → Within r author (spent h s) (
                (if b
                    then expect (process_vote_with n process (Vote.new n.dalek h n.name))
                    else elim o [
                      | err _ ↦ λ s. panics
                      | ok addresses ↦ do
                        emit (
                            sends addresses.primary_to_primary
                              (vote_message (Vote.new n.dalek h n.name)))
                        keep_handlers n h.round (
                            (addresses.primary_to_primary, vote_message (Vote.new n.dalek h n.name))
                            ∷ [])
                    ])
                  s)
        choose true o =
            Within-le r author (expect (process_vote_with n process (Vote.new n.dalek h n.name)) s)
              (votes_left r author s) (spent h s) (omega arith)
              (Reaches-Within r author s _ (Steady-at _ own s))
        choose false (err x) = stops (spent h s)
        choose false (ok addresses) = sent h s addresses.primary_to_primary

    once :
        (h : Header) (s : Core)
        → holds h.round h.author s.last_voted ≡ false
        → (h.round == r && h.author == author) ≡ true
        → holds r author s.last_voted ≡ false
    once h s e f =
        rw
          (
            sym ((==_iff h.round r).0 (ground arith)),
            sym ((==_iff h.author author).0 (ground arith)),
          )
          e

    vote_for-Steady : (h : Header) → Steady (NoMore r author) (vote_for n process h)
    unfolding vote_for Steady ◌>>=◌ ◌>>◌ gets modify pure and_then Within
    vote_for-Steady h s =
        Within-Reaches r author s _ (choose (holds h.round h.author s.last_voted) refl)
      where
        hit : Bool
        hit = h.round == r && h.author == author

        choose :
            (b : Bool)
            → holds h.round h.author s.last_voted ≡ b
            → Within r author
                (votes_left r author s)
                ((if b then pure tt else send_vote n process h) (marked h s))
        choose true e =
            left_le (votes_sent r author s.effects) (holds r author s.last_voted) _ hit
              (holds-insert_in r h.round author h.author s.last_voted)
        choose false e =
            Within-le r author (send_vote n process h (marked h s)) (spent h (marked h s))
              (votes_left r author s)
              (left_spent (votes_sent r author s.effects) (holds r author s.last_voted) _ hit
                (holds-insert_in r h.round author h.author s.last_voted) (once h s e))
              (send_vote-Within h (marked h s))

  pub vote_steps : Steps (NoMore r author) (NoMore-Steadiness r author) n
  vote_steps = record {
    writes = write-Steady;
    certifies = certify-Steady;
    votes = λ process h votes. vote_for-Steady process votes h;
  }
