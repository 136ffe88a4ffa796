-- ===== src/GarbageCollector/Rounds.antt =====
-- The rounds that primary/src/garbage_collector.rs publishes.
use bullshark_ubuntu.Base.{
  ◌<◌, ◌≡◌, refl, subst, ltb, max, true, List, [], ◌∷◌, ◌++◌, arith, Bool-cases, inl, inr,
}
use bullshark_ubuntu.Config.{SocketAddr}
use bullshark_ubuntu.Messages.Header.{Round}
use bullshark_ubuntu.Messages.Certificate.{Certificate, round}
use bullshark_ubuntu.GarbageCollector.{GarbageCollector, new, receive, run}

abbrev pub highest : Round → List Certificate → Round
highest r [] = r
highest r (x ∷ xs) = highest (max r (round x)) xs

-- The rounds sent rise strictly from the first to the last.
abbrev pub Rises : Round → List (List SocketAddr × Round) → Round → Type 0
Rises low [] last = low ≡ last
Rises low ((_, r) ∷ rest) last = (low < r) × Rises r rest last

Rises-snoc :
    (low last r : Round) (addresses : List SocketAddr) (sent : List (List SocketAddr × Round))
    → Rises low sent last
    → last < r
    → Rises low (sent ++ (addresses, r) ∷ []) r
Rises-snoc low last r addresses [] h l = (omega arith, refl)
Rises-snoc low last r addresses (e ∷ sent) h l = (h.0, Rises-snoc e.1 last r addresses sent h.1 l)

-- What a certificate leaves: the larger of the two rounds, and the rounds sent up to it.
receive-highest :
    (addresses : List SocketAddr) (g : GarbageCollector) (x : Certificate)
    → g.consensus_round ≡ g.last_committed_round
    → Rises 0 g.cleanups g.last_committed_round
    → let h = receive addresses g x in
      (h.last_committed_round ≡ max g.last_committed_round (round x))
      × (h.consensus_round ≡ h.last_committed_round)
      × Rises 0 h.cleanups h.last_committed_round
unfolding receive
receive-highest addresses g x same rises =
    elim (Bool-cases (ltb g.last_committed_round (round x))) [
      | inl e ↦ rw e (
        omega (arith, ltb→lt e),
        refl,
        Rises-snoc 0 g.last_committed_round (round x) addresses g.cleanups rises (ltb→lt e),
      )
      | inr e ↦ rw e (ground arith, same, rises)
    ]
  where
    ltb→lt : ltb g.last_committed_round (round x) ≡ true → g.last_committed_round < round x
    ltb→lt e = ground arith

run-highest :
    (addresses : List SocketAddr) (g : GarbageCollector) (xs : List Certificate)
    → g.consensus_round ≡ g.last_committed_round
    → Rises 0 g.cleanups g.last_committed_round
    → ((run addresses g xs).consensus_round ≡ highest g.last_committed_round xs)
      × Rises 0 (run addresses g xs).cleanups (highest g.last_committed_round xs)
unfolding run
run-highest addresses g [] same rises = (same, rises)
run-highest addresses g (x ∷ xs) same rises =
    let (last, same', rises') = receive-highest addresses g x same rises in
    subst
      (λ m.
        ((run addresses (receive addresses g x) xs).consensus_round ≡ highest m xs)
        × Rises 0 (run addresses (receive addresses g x) xs).cleanups (highest m xs))
      last (run-highest addresses (receive addresses g x) xs same' rises')

-- Whatever certificates are committed, the round published to the tasks is the highest round of them, and the cleanup rounds sent to the workers rise strictly from above 0 up to it.
pub highest_round_published :
    (addresses : List SocketAddr) (xs : List Certificate)
    → let g = run addresses new xs in
      (g.consensus_round ≡ highest 0 xs) × Rises 0 g.cleanups (highest 0 xs)
highest_round_published addresses xs = run-highest addresses new xs refl refl
