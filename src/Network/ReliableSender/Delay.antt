-- ===== src/Network/ReliableSender/Delay.antt =====
-- How long network/src/reliable_sender.rs waits before it tries to connect again.
use bullshark_ubuntu.Base.{
  ℕ, suc, ◌+◌, ◌*◌, ◌%◌, ◌^◌, ◌≤◌, ◌<◌, ◌≡◌, refl, ap, sym, min, if_elim, Bool, true, false, Option,
  none, some, List, [], ◌∷◌, length, ◌∙◌, arith,
}
use native.Mathlib.Nat.{pow-suc}
use bullshark_ubuntu.Core.State.{Bytes}
use bullshark_ubuntu.Network.ReliableSender.{
  Message, Connection, new, retry_delay, is_connecting, is_waiting, is_sending, is_selecting,
  is_closed, Event, sends, cancels, connects, expires, receives, writes, responds, disconnect,
  connect, expire, drain, accept, flush, respond, step, run,
}

-- The delay is that of the retries, of which there were at most `n`.
abbrev pub Backed : ℕ → Connection → Type 0
Backed n s = (s.delay ≡ min (retry_delay * 2 ^ s.retry) 60000) × (s.retry ≤ n)

Backed-mono : (n : ℕ) (s : Connection) → Backed n s → Backed (n + 1) s
Backed-mono n s b = (b.0, omega arith)

twice_pow : (r : ℕ) → r + 1 < 2 ^ 16 → 2 ^ ((r + 1) % 2 ^ 16) ≡ 2 * 2 ^ r
twice_pow r small = ap (λ t. 2 ^ t) fits ∙ pow-suc 2 r ∙ omega arith
  where
    fits : (r + 1) % 65536 ≡ suc r
    fits = omega arith

expire-Backed : (n : ℕ) (s : Connection) → n + 1 < 2 ^ 16 → Backed n s → Backed (n + 1) (expire s)
unfolding expire
expire-Backed n s small b = (omega (arith, b.0, twice_pow s.retry (omega arith)), omega arith)

-- The two fields that the delay is about.
abbrev Untouched : Connection → Connection → Type 0
Untouched s t = (t.delay ≡ s.delay) × (t.retry ≡ s.retry)

Backed-Untouched : (n : ℕ) (s t : Connection) → Untouched s t → Backed n s → Backed (n + 1) t
Backed-Untouched n s t u b =
    (u.0 ∙ b.0 ∙ ap (λ r. min (retry_delay * 2 ^ r) 60000) (sym u.1), omega (arith, u.1))

connect-Backed :
    (established : Bool) (n : ℕ) (s : Connection)
    → Backed n s
    → Backed (n + 1) (connect established s)
unfolding connect
connect-Backed true n s b = (omega arith, omega arith)
connect-Backed false n s b = Backed-mono n s b

disconnect-Untouched : (s : Connection) → Untouched s (disconnect s)
unfolding disconnect
disconnect-Untouched s = (refl, refl)

drain-Untouched : (ms : List Message) (s : Connection) → Untouched s (drain ms s)
unfolding drain
drain-Untouched [] s = (refl, refl)
drain-Untouched (m ∷ ms) s = (refl, refl)

accept-Untouched : (ms : List Message) (s : Connection) → Untouched s (accept ms s)
unfolding accept
accept-Untouched [] s = (refl, refl)
accept-Untouched (m ∷ ms) s = (refl, refl)

flush-Untouched : (ms : List Message) (b : Bool) (s : Connection) → Untouched s (flush ms b s)
unfolding flush
flush-Untouched [] b s = (refl, refl)
flush-Untouched (m ∷ ms) b s =
    if_elim (Untouched s) (is_closed m.1 s) _ _ (λ _. (refl, refl))
      (λ _.
        if_elim (Untouched s) b _ (disconnect s) (λ _. (refl, refl)) (λ _. disconnect-Untouched s))

respond-Untouched :
    (ms : List Message) (r : Option Bytes) (s : Connection) → Untouched s (respond ms r s)
unfolding respond
respond-Untouched [] r s = disconnect-Untouched s
respond-Untouched (m ∷ ms) none s = disconnect-Untouched s
respond-Untouched (m ∷ ms) (some b) s = (refl, refl)

step-Backed :
    (e : Event) (n : ℕ) (s : Connection) → n + 1 < 2 ^ 16 → Backed n s → Backed (n + 1) (step e s)
unfolding step
step-Backed (sends bytes) n s small b = Backed-mono n s b
step-Backed (cancels h) n s small b = Backed-mono n s b
step-Backed (connects x) n s small b =
    if_elim (Backed (n + 1)) (is_connecting s.phase) (connect x s) s (λ _. connect-Backed x n s b)
      (λ _. Backed-mono n s b)
step-Backed expires n s small b =
    if_elim (Backed (n + 1)) (is_waiting s.phase) (expire s) s (λ _. expire-Backed n s small b)
      (λ _. Backed-mono n s b)
step-Backed receives n s small b =
    Backed-Untouched n s (step receives s)
      (if_elim (Untouched s) (is_waiting s.phase) (drain s.channel s) _
        (λ _. drain-Untouched s.channel s)
        (λ _.
          if_elim (Untouched s) (is_selecting s.phase) (accept s.channel s) s
            (λ _. accept-Untouched s.channel s) (λ _. (refl, refl))))
      b
step-Backed (writes x) n s small b =
    Backed-Untouched n s (step (writes x) s)
      (if_elim (Untouched s) (is_sending s.phase) (flush s.buffer x s) s
        (λ _. flush-Untouched s.buffer x s) (λ _. (refl, refl)))
      b
step-Backed (responds r) n s small b =
    Backed-Untouched n s (step (responds r) s)
      (if_elim (Untouched s) (is_selecting s.phase) (respond s.pending_replies r s) s
        (λ _. respond-Untouched s.pending_replies r s) (λ _. (refl, refl)))
      b

run-Backed :
    (es : List Event) (n : ℕ) (s : Connection)
    → n + length es < 2 ^ 16
    → Backed n s
    → Backed (n + length es) (run es s)
unfolding run
run-Backed [] n s small b = (b.0, omega arith)
run-Backed (e ∷ es) n s small b =
    let r = run-Backed es (n + 1) (step e s) (omega arith) (step-Backed e n s (omega arith) b) in
    (r.0, omega (arith, r.1))

-- The delay before the next attempt to connect is 200 ms doubled as often as `retry` counts, and at most 60 s, in a run of fewer than 2^16 events.
pub delay_doubles :
    (es : List Event)
    → length es < 2 ^ 16
    → (run es new).delay ≡ min (retry_delay * 2 ^ (run es new).retry) 60000
delay_doubles es small = (run-Backed es 0 new (omega arith) (omega arith, omega arith)).0
