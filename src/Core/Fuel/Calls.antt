-- ===== src/Core/Fuel/Calls.antt =====
-- The `process` methods end when the calls they make do.
use bullshark_ubuntu.Base.{
  ℕ, suc, ◌≡◌, refl, sym, ◌∙◌, subst, ◌⊎◌, inl, inr, ◌==◌, if◌then◌else◌, Bool, true, false, Option,
  none, some, List, [], ◌∷◌, ok, err, Result, arith, ==_refl,
}
use bullshark_ubuntu.Config.{Committee, ConfigError, PrimaryAddresses, primary}
use bullshark_ubuntu.Error.{DagError, DagResult}
use bullshark_ubuntu.Messages.Header.{Header, Round}
use bullshark_ubuntu.Messages.Vote
use bullshark_ubuntu.Messages.Vote.{Vote}
use bullshark_ubuntu.Messages.Certificate.{Certificate, round}
use bullshark_ubuntu.Aggregators.{VotesAggregator, append_vote}
use bullshark_ubuntu.Core.State.{
  Node, Core, Action, returns, panics, and_then, ◌>>=◌, ◌>>◌, modify, emit, expect, pure, holds,
  insert_in, PrimaryMessage, sends, vote_message, certificate_message, map_or_else, CancelHandler,
}
use bullshark_ubuntu.Core.Process.{
  keep_handlers, broadcast, append_to_round, append_own_vote, process_certificate_with,
  process_vote_with, send_vote, vote_for, process_header_with, process_header, process_vote,
  process_certificate,
}
use bullshark_ubuntu.Core.Votes.Once.{holds-insert_in}
use bullshark_ubuntu.Core.Fuel.{
  After, After-trans, Ends, Ended, Ended-trans, Ends-gets, Ends-bind, Ends-seq, Ends-pure,
  Ends-lift, Ends-modify, Ends-write, Ends-emit, Ends-expect, Ends-if, Ends-option,
  missing_payload-Ends, get_parents-Ends, deliver_certificate-Ends,
}

-- Our own header is being processed.
abbrev pub Seen : Core → Type 0
Seen s = holds s.current_header.round s.current_header.id s.processing ≡ true

Seen-After : (s t : Core) → After s t → Seen s → Seen t
Seen-After s t a h =
    subst (λ (x : Header). holds x.round x.id t.processing ≡ true) (sym a.same)
      (a.kept s.current_header.round s.current_header.id h)

append_vote-header :
    (a : VotesAggregator) (v : Vote) (c : Committee) (h : Header) (x : Certificate)
    → (append_vote a v c h).1 ≡ ok (some x)
    → x.header ≡ h
unfolding append_vote
append_vote-header a v c h x e = ground arith

module _ (n : Node) where
  returned_err :
      (t : Core) (e : DagError) (s : Core) → After s t → Ended {A = Unit {0}} s (returns t (err e))
  unfolding Ended
  returned_err t e s a = a

  panics-Ends : (s : Core) → Ends {A = Unit {0}} (λ t. panics) s
  unfolding Ends Ended
  panics-Ends s = tt

  insert_in-kept :
      (r k : Round) (a b : ℕ) (m : List (Round × List ℕ))
      → holds r a m ≡ true
      → holds r a (insert_in k b m) ≡ true
  insert_in-kept r k a b m h = ground (arith, holds-insert_in r k a b m)

  insert_in-holds :
      (r : Round) (a : ℕ) (m : List (Round × List ℕ)) → holds r a (insert_in r a m) ≡ true
  insert_in-holds r a m = ground (arith, holds-insert_in r r a a m, ==_refl r, ==_refl a)

  -- Once a header is marked, it stays so for the rest.
  marked-then :
      (h : Header) (s : Core) (k : Action (Unit {0}))
      → ((t : Core) → After s t → holds h.round h.id t.processing ≡ true → Ends k t)
      → Ends (modify (λ s. record s { processing = insert_in h.round h.id s.processing }) >> k) s
  unfolding Ends ◌>>◌ modify and_then
  marked-then h s k f =
      Ended-trans s marked (k marked) frame
        (f marked frame (insert_in-holds h.round h.id s.processing))
    where
      marked : Core
      marked = record s { processing = insert_in h.round h.id s.processing }

      frame : After s marked
      frame = record {
        same = refl;
        kept = λ r id q. insert_in-kept r h.round id h.id s.processing q;
      }

  keep_handlers-Ends :
      (k : Round) (handlers : List CancelHandler) (s : Core) → Ends (keep_handlers n k handlers) s
  unfolding keep_handlers
  keep_handlers-Ends k handlers s = Ends-modify _ s (record { same = refl; kept = λ r id h. h })

  pub broadcast-Ends :
      (k : Round) (message : PrimaryMessage) (s : Core) → Ends (broadcast n k message) s
  unfolding broadcast
  broadcast-Ends k message s = Ends-seq _ _ s (Ends-emit _ s) (λ t a. keep_handlers-Ends k _ t)

  append_to_round-Ends : (x : Certificate) (s : Core) → Ends (append_to_round n x) s
  unfolding append_to_round Ends
  append_to_round-Ends x s = record { same = refl; kept = λ r id h. h }

  module _ (process : Header → Action (Unit {0})) where
    process_certificate_with-Ends :
        (x : Certificate) (s : Core)
        → (holds x.header.round x.header.id s.processing ≡ true) ⊎ Ends (process x.header) s
        → Ends (process_certificate_with n process x) s
    unfolding process_certificate_with
    process_certificate_with-Ends x s h = Ends-gets _ _ s (
        Ends-seq _ _ s (seen_or (holds x.header.round x.header.id s.processing) h) (λ t a.
          Ends-bind _ _ t (deliver_certificate-Ends n x t) (λ delivered u b.
            Ends-if _ _ _ u (Ends-pure tt u) (
              Ends-seq _ _ u (Ends-write n _ _ u) (λ v c.
                Ends-bind _ _ v (append_to_round-Ends x v) (λ parents w d.
                  Ends-seq _ _ w (Ends-option parents _ _ w (Ends-pure tt w) (λ xs. Ends-emit _ w))
                    (λ y e. Ends-emit _ y)))))))
      where
        seen_or :
            (b : Bool)
            → (b ≡ true) ⊎ Ends (process x.header) s
            → Ends (if b then pure tt else process x.header) s
        seen_or true g = Ends-pure tt s
        seen_or false (inl g) = cc
        seen_or false (inr g) = g

    -- The call that a certificate for our own header makes ends, if it is made.
    abbrev pub OwnEnds : Core → Type 0
    OwnEnds s = Seen s ⊎ ((t : Core) → Ends (process t.current_header) t)

    OwnEnds-After : (s t : Core) → After s t → OwnEnds s → OwnEnds t
    OwnEnds-After s t a (inl seen) = inl (Seen-After s t a seen)
    OwnEnds-After s t a (inr ends) = inr ends

    certified :
        (x : Certificate) (s : Core)
        → x.header ≡ s.current_header
        → OwnEnds s
        → Ends (process_certificate_with n process x) s
    certified x s e (inl seen) =
        process_certificate_with-Ends x s
          (inl (subst (λ (h : Header). holds h.round h.id s.processing ≡ true) (sym e) seen))
    certified x s e (inr ends) =
        process_certificate_with-Ends x s
          (inr (subst (λ (h : Header). Ends (process h) s) (sym e) (ends s)))

    assembled-Ends :
        (x : Certificate) (s : Core)
        → x.header ≡ s.current_header
        → OwnEnds s
        → Ends
            (broadcast n (round x) (certificate_message x)
              >> expect (process_certificate_with n process x))
            s
    assembled-Ends x s e own =
        Ends-seq _ _ s (broadcast-Ends _ _ s)
          (λ t a. Ends-expect _ t (certified x t (e ∙ sym a.same) (OwnEnds-After s t a own)))

    process_vote_with-Ends :
        (v : Vote) (s : Core) → OwnEnds s → Ends (process_vote_with n process v) s
    unfolding process_vote_with append_own_vote Ends ◌>>=◌ and_then
    process_vote_with-Ends v s own =
        go (append_vote s.votes_aggregator v n.committee s.current_header).1
          (append_vote-header s.votes_aggregator v n.committee s.current_header)
      where
        counted : Core
        counted = record s {
          votes_aggregator = (append_vote s.votes_aggregator v n.committee s.current_header).0;
        }

        frame : After s counted
        frame = record { same = refl; kept = λ r id q. q }

        go :
            (result : DagResult (Option Certificate))
            → ((x : Certificate) → result ≡ ok (some x) → x.header ≡ s.current_header)
            → Ended s (
                and_then (returns counted result) (λ assembled.
                  map_or_else
                    (pure tt)
                    (λ x.
                      broadcast n (round x) (certificate_message x)
                      >> expect (process_certificate_with n process x))
                    assembled))
        go (err e) h = returned_err counted e s frame
        go (ok none) h = Ended-trans s counted (pure tt counted) frame (Ends-pure tt counted)
        go (ok (some x)) h =
            Ended-trans s counted
              ((broadcast n (round x) (certificate_message x)
                  >> expect (process_certificate_with n process x))
                counted)
              frame (assembled-Ends x counted (h x refl) (OwnEnds-After s counted frame own))

    -- Our own vote is processed, or another is sent.
    send_vote-Ends : (h : Header) (s : Core) → OwnEnds s → Ends (send_vote n process h) s
    unfolding send_vote
    send_vote-Ends h s own = choose (h.author == n.name) (primary n.committee h.author)
      where
        choose :
            (b : Bool) (o : Result ConfigError PrimaryAddresses)
            → Ends
                (if b
                  then expect (process_vote_with n process (Vote.new n.dalek h n.name))
                  else elim o [
                    | err _ ↦ λ s. panics
                    | ok addresses ↦ do
                      emit (
                          sends addresses.primary_to_primary
                            (vote_message (Vote.new n.dalek h n.name)))
                      keep_handlers n h.round (
                          (addresses.primary_to_primary, vote_message (Vote.new n.dalek h n.name))
                          ∷ [])
                  ])
                s
        choose true o = Ends-expect _ s (process_vote_with-Ends _ s own)
        choose false (err x) = panics-Ends s
        choose false (ok addresses) =
            Ends-seq _ _ s (Ends-emit _ s) (λ t a. keep_handlers-Ends _ _ t)

    vote_for-Ends : (h : Header) (s : Core) → OwnEnds s → Ends (vote_for n process h) s
    unfolding vote_for
    vote_for-Ends h s own = Ends-gets _ _ s (
        Ends-seq _ _ s (Ends-modify _ s (record { same = refl; kept = λ r id q. q }))
          (λ t a. Ends-if _ _ _ t (Ends-pure tt t) (send_vote-Ends h t (OwnEnds-After s t a own))))

    process_header_with-Ends :
        (h : Header) (s : Core)
        → OwnEnds s ⊎ (h ≡ s.current_header)
        → Ends (process_header_with n process h) s
    unfolding process_header_with
    process_header_with-Ends h s own = marked-then h s _ (λ t a seen.
        Ends-bind _ _ t (get_parents-Ends n h t) (λ parents u b. Ends-if _ _ _ u (Ends-pure tt u) (
          Ends-bind _ _ u (Ends-lift _ u) (λ total v c. Ends-seq _ _ v (Ends-lift _ v) (λ w d.
            Ends-bind _ _ w (missing_payload-Ends n h w) (λ missing x e.
              Ends-if _ _ _ x (Ends-pure tt x) (
                Ends-seq _ _ x (Ends-write n _ _ x) (λ y f. vote_for-Ends h y (
                  OwnEnds-After t y
                    (After-trans t u y b
                      (After-trans u v y c (After-trans v w y d (After-trans w x y e f))))
                    (known t a seen))))))))))
      where
        known : (t : Core) → After s t → holds h.round h.id t.processing ≡ true → OwnEnds t
        known t a seen = elim own [
          | inl o ↦ OwnEnds-After s t a o
          | inr e ↦
              inl (
                subst (λ (x : Header). holds x.round x.id t.processing ≡ true) (e ∙ sym a.same)
                  seen)
        ]

  -- Our own header's processing ends with one unit of fuel, and any with two.
  own_header-Ends : (fuel : ℕ) (t : Core) → Ends (process_header n (suc fuel) t.current_header) t
  unfolding process_header
  own_header-Ends fuel t =
      process_header_with-Ends (process_header n fuel) t.current_header t (inr refl)

  pub process_header-Ends :
      (fuel : ℕ) (h : Header) (s : Core) → Ends (process_header n (suc (suc fuel)) h) s
  unfolding process_header
  process_header-Ends fuel h s =
      process_header_with-Ends (process_header n (suc fuel)) h s (inl (inr (own_header-Ends fuel)))

  pub process_vote-Ends :
      (fuel : ℕ) (v : Vote) (s : Core) → Ends (process_vote n (suc (suc fuel)) v) s
  unfolding process_vote
  process_vote-Ends fuel v s =
      process_vote_with-Ends (process_header n (suc (suc fuel))) v s
        (inr (own_header-Ends (suc fuel)))

  pub process_certificate-Ends :
      (fuel : ℕ) (x : Certificate) (s : Core) → Ends (process_certificate n (suc (suc fuel)) x) s
  unfolding process_certificate
  process_certificate-Ends fuel x s =
      process_certificate_with-Ends (process_header n (suc (suc fuel))) x s
        (inr (process_header-Ends fuel x.header s))
