-- ===== src/Primary/Released.antt =====
-- The certificate waiter of primary/src/certificate_waiter.rs gives a certificate back once its parents
-- are stored.
use bullshark_ubuntu.Base.{
  ℕ, ◌≡◌, ◌≢◌, refl, ◌==◌, Bool, true, false, Option, none, some, List, [], ◌∷◌, ◌++◌, map, All,
  All-append, Result, ok, err, inl, inr, Bool-cases, ==_iff, arith,
}
use bullshark_ubuntu.Messages.Certificate.{Certificate}
use bullshark_ubuntu.Core.State.{Bytes, Store, Rocks, digest_key}
use bullshark_ubuntu.Store
use bullshark_ubuntu.Store.{
  Sender, StoreCommand, Reply, to_read, to_notify_read, Actor, queue, notify, handle, run,
}
use bullshark_ubuntu.Store.Answers.{notified, asked, Attended, notify_read_answered}
use bullshark_ubuntu.Primary.{
  Waiting, Polled, poll, notify_reads, suspend, reply_to, join, joined, release,
}
use bullshark_ubuntu.Primary.Answered.{Has, Keeps, notify_reads-keys}

abbrev Fine : Reply → Type 0
Fine (to_read s r) = Unit
Fine (to_notify_read s (ok v)) = Unit
Fine (to_notify_read s (err e)) = ⊥

answers-Fine : (v : Bytes) (q : List Sender) → All Fine (map (λ s. to_notify_read s (ok v)) q)
answers-Fine v [] = tt
answers-Fine v (s ∷ q) = (tt, answers-Fine v q)

reply_to-notified :
    (s : Sender) (rs : List Reply)
    → All Fine rs
    → notified s rs ≡ true
    → (v : Bytes) × (reply_to s rs ≡ some (ok v))
reply_to-notified s [] f h = cc
reply_to-notified s (to_read t r ∷ rs) f h = reply_to-notified s rs f.1 h
reply_to-notified s (to_notify_read t (err e) ∷ rs) f h = absurd f.0
reply_to-notified s (to_notify_read t (ok w) ∷ rs) f h = elim (Bool-cases (t == s)) [
  | inl e ↦ (w, rw e refl)
  | inr e ↦ rw e (reply_to-notified s rs f.1 (ground (arith, ==_iff t s, ==_iff s t)))
]

-- A read that is not answered, or answered with a value.
abbrev Answer : Option (Result ℕ Bytes) → Type 0
Answer none = Unit
Answer (some (ok v)) = Unit
Answer (some (err e)) = ⊥

reply_to-Answer : (s : Sender) (rs : List Reply) → All Fine rs → Answer (reply_to s rs)
reply_to-Answer s [] f = tt
reply_to-Answer s (to_read t r ∷ rs) f = reply_to-Answer s rs f.1
reply_to-Answer s (to_notify_read t (err e) ∷ rs) f = absurd f.0
reply_to-Answer s (to_notify_read t (ok w) ∷ rs) f = elim (Bool-cases (t == s)) [
  | inl e ↦ rw e tt
  | inr e ↦ rw e (reply_to-Answer s rs f.1)
]

abbrev Works : Result ℕ Bool → Type 0
Works (ok b) = Unit
Works (err e) = ⊥

join-Works :
    (r : Option (Result ℕ Bytes)) (later : Result ℕ Bool)
    → Answer r
    → Works later
    → Works (join r later)
join-Works none (ok b) a w = tt
join-Works none (err e) a w = w
join-Works (some (ok v)) later a w = w
join-Works (some (err e)) later a w = absurd a

joined-Works : (rs : List Reply) (es : List (Bytes × Sender)) → All Fine rs → Works (joined rs es)
unfolding joined
joined-Works rs [] f = tt
joined-Works rs ((k, s) ∷ es) f =
    join-Works (reply_to s rs) (joined rs es) (reply_to-Answer s rs f) (joined-Works rs es f)

joined-notified :
    (rs : List Reply) (es : List (Bytes × Sender))
    → All Fine rs
    → All (λ e. notified e.1 rs ≡ true) es
    → joined rs es ≡ ok true
unfolding joined
joined-notified rs [] f h = refl
joined-notified rs ((k, s) ∷ es) f (h, hs) =
    let (v, e) = reply_to-notified s rs f h in rw e (joined-notified rs es f hs)

-- Some certificate is released.
abbrev pub Releases : Polled → Type 0
Releases r = (y : Certificate) × (rest : Waiting) × (r ≡ ok (some y, rest))

poll-Releases :
    (entry : List (Bytes × Sender) × Certificate) (w : Waiting) (later : Polled) (r : Result ℕ Bool)
    → Works r
    → Releases later
    → Releases (poll entry w later r)
poll-Releases entry w later (ok true) f h = (entry.1, w, refl)
poll-Releases entry w later (ok false) f (y, rest, e) = (y, entry ∷ rest, rw e refl)
poll-Releases entry w later (err e) f h = absurd f

release-Releases :
    (rs : List Reply) (older : Waiting) (es : List (Bytes × Sender)) (x : Certificate)
    (newer : Waiting)
    → All Fine rs
    → joined rs es ≡ ok true
    → Releases (release rs (newer ++ ((es, x) ∷ older)))
unfolding release
release-Releases rs older es x [] f h = (x, older, rw h refl)
release-Releases rs older es x ((fs, y) ∷ newer) f h =
    poll-Releases (fs, y) (newer ++ ((es, x) ∷ older)) (release rs (newer ++ ((es, x) ∷ older)))
      (joined rs fs) (joined-Works rs fs f) (release-Releases rs older es x newer f h)

module _ (rocks : Rocks) (reads : (db : Store) (k : Bytes) (e : ℕ) → rocks.get db k ≢ err e) where
  notify-Fine :
      (k : Bytes) (s : Sender) (r : Result ℕ (Option Bytes)) (a : Actor)
      → rocks.get a.db k ≡ r
      → All Fine a.replies
      → All Fine (notify rocks k s r a).replies
  unfolding notify
  notify-Fine k s (ok none) a e f = f
  notify-Fine k s (ok (some v)) a e f =
      All-append Fine a.replies (to_notify_read s (ok v) ∷ []) f (tt, tt)
  notify-Fine k s (err x) a e f = absurd (reads a.db k x e)

  handle-Fine :
      (c : StoreCommand) (a : Actor) → All Fine a.replies → All Fine (handle rocks c a).replies
  unfolding handle
  handle-Fine (Store.write k v) a f =
      All-append Fine a.replies (map (λ s. to_notify_read s (ok v)) (queue k a.obligations)) f
        (answers-Fine v (queue k a.obligations))
  handle-Fine (Store.read k s) a f =
      All-append Fine a.replies (to_read s (rocks.get a.db k) ∷ []) f (tt, tt)
  handle-Fine (Store.notify_read k s) a f = notify-Fine k s (rocks.get a.db k) a refl f

  run-Fine :
      (cs : List StoreCommand) (a : Actor) → All Fine a.replies → All Fine (run rocks cs a).replies
  unfolding run
  run-Fine [] a f = f
  run-Fine (c ∷ cs) a f = run-Fine cs (handle rocks c a) (handle-Fine c a f)

  stored-notified :
      (k : Bytes) (s : Sender) (a : Actor)
      → Has rocks a.db k
      → Attended rocks k s a
      → notified s a.replies ≡ true
  stored-notified k s a (v, e) (inl h) = h
  stored-notified k s a (v, e) (inr h) = cc

  all-notified :
      (es : List (Bytes × Sender)) (cs : List StoreCommand) (db : Store)
      → Keeps rocks
      → All (λ e. asked e.0 e.1 cs ≡ true) es
      → All (Has rocks (run rocks cs (Store.new db)).db) (map (λ e. e.0) es)
      → All (λ e. notified e.1 (run rocks cs (Store.new db)).replies ≡ true) es
  all-notified [] cs db h a k = tt
  all-notified ((key, s) ∷ es) cs db h (a, as_asked) (k, ks) = (
    stored-notified key s (run rocks cs (Store.new db)) k
        (notify_read_answered rocks h.apart key s cs db a),
    all-notified es cs db h as_asked ks,
  )

  -- Once the store has handled all reads of a certificate that stands in the waiter's pool, and has all its parents, the waiter releases a certificate: this one or another of the pool. In RocksDB a read does not fail, a write succeeds, is read back, and changes no other key.
  pub parents_release :
      (cs : List StoreCommand) (db : Store) (next : Sender) (x : Certificate)
      (newer older : Waiting)
      → Keeps rocks
      → All (λ e. asked e.0 e.1 cs ≡ true) (notify_reads next (map digest_key x.header.parents))
      → All (Has rocks (run rocks cs (Store.new db)).db) (map digest_key x.header.parents)
      → Releases (release (run rocks cs (Store.new db)).replies (newer ++ suspend next x older))
  unfolding suspend
  parents_release cs db next x newer older h a k =
      let es = notify_reads next (map digest_key x.header.parents) in
      let f = run-Fine cs (Store.new db) tt in
      release-Releases (run rocks cs (Store.new db)).replies older es x newer f (
        joined-notified (run rocks cs (Store.new db)).replies es f (
          all-notified es cs db h a
            (rw (notify_reads-keys next (map digest_key x.header.parents)) k)))
