-- ===== src/Network/ReliableSender/Order.antt =====
-- Each message given to network/src/reliable_sender.rs keeps its place until it is acknowledged.
use bullshark_ubuntu.Base.{
  ℕ, ◌+◌, ◌≡◌, refl, ap, sym, ◌∙◌, subst, ◌||◌, not, if◌then◌else◌, if_elim, Bool, true, false,
  Option, none, some, List, [], ◌∷◌, ◌++◌, map, map-append, append_assoc, append-middle,
  append-snoc, retain, contains, inl, inr, ◌⊎◌, arith,
}
use bullshark_ubuntu.Core.State.{Bytes}
use bullshark_ubuntu.Network.ReliableSender.{
  Message, Phase, connecting, waiting, sending, selecting, is_connecting, is_waiting, is_sending,
  is_selecting, Connection, new, Event, sends, cancels, connects, expires, receives, writes,
  responds, is_closed, disconnect, connect, expire, drain, accept, flush, respond, step, run,
}
use bullshark_ubuntu.Network.ReliableSender.Line.{Kept, Kept-snoc, Kept-close, Kept-shed}

abbrev pub handlers : List Message → List ℕ
handlers = map (λ m. m.1)

abbrev pub acknowledged : List (ℕ × Bytes) → List ℕ
acknowledged = map (λ e. e.0)

handlers-retain :
    (closed : List ℕ) (ms : List Message)
    → handlers (retain (λ e. not (contains e.1 closed)) ms)
      ≡ retain (λ i. not (contains i closed)) (handlers ms)
handlers-retain closed [] = refl
handlers-retain closed (m ∷ ms) = ground (arith, handlers-retain closed ms)

-- The handlers that got a reply, then those that wait for one, those of the buffer, and those of the
-- channel.
abbrev pub line : Connection → List ℕ
line s =
    acknowledged s.acked
    ++ (handlers s.pending_replies ++ (handlers s.buffer ++ handlers s.channel))

abbrev pub Lined : Connection → Type 0
Lined s = Kept (line s) s.closed s.next_handler

abbrev Resting : Connection → Type 0
Resting s = ((is_sending s.phase || is_selecting s.phase) ≡ true) ⊎ (s.pending_replies ≡ [])

abbrev Orderly : Connection → Type 0
Orderly s = Lined s × Resting s

-- The same line under other names.
same_line : (s : Connection) (q : List ℕ) → line s ≡ q → Lined s → Kept q s.closed s.next_handler
same_line s q e k = subst (λ t. Kept t s.closed s.next_handler) e k

handlers-append : (ms ns : List Message) → handlers (ms ++ ns) ≡ handlers ms ++ handlers ns
handlers-append = map-append (λ m. m.1)

disconnect-Orderly : (s : Connection) → Lined s → Orderly (disconnect s)
unfolding disconnect
disconnect-Orderly s k = (
  same_line s _
      (ap (◌++◌ (acknowledged s.acked)) (
        sym (append_assoc (handlers s.pending_replies) (handlers s.buffer) (handlers s.channel))
        ∙ ap (λ t. t ++ handlers s.channel) (sym (handlers-append s.pending_replies s.buffer))))
      k,
  inr refl,
)

connecting_rests :
    (p : Phase) → is_connecting p ≡ true → (is_sending p || is_selecting p) ≡ true → ⊥
connecting_rests connecting c r = cc
connecting_rests waiting c r = cc
connecting_rests sending c r = cc
connecting_rests selecting c r = cc

waiting_rests : (p : Phase) → is_waiting p ≡ true → (is_sending p || is_selecting p) ≡ true → ⊥
waiting_rests connecting c r = cc
waiting_rests waiting c r = cc
waiting_rests sending c r = cc
waiting_rests selecting c r = cc

connect-Orderly :
    (b : Bool) (s : Connection) → is_connecting s.phase ≡ true → Orderly s → Orderly (connect b s)
unfolding connect
connect-Orderly true s c (k, inl r) = absurd (connecting_rests s.phase c r)
connect-Orderly true s c (k, inr r) = (
  same_line s _
      (ap (λ t. acknowledged s.acked ++ (handlers t ++ (handlers s.buffer ++ handlers s.channel)))
        r)
      k,
  inl refl,
)
connect-Orderly false s c (k, inl r) = absurd (connecting_rests s.phase c r)
connect-Orderly false s c (k, inr r) = (k, inr r)

-- One message goes from the channel to the buffer.
shift_line :
    (s : Connection) (m : Message) (rest : List Message)
    → s.channel ≡ m ∷ rest
    → line s
      ≡ acknowledged s.acked
        ++ (handlers s.pending_replies ++ (handlers (s.buffer ++ m ∷ []) ++ handlers rest))
shift_line s m rest e =
    ap (λ t. acknowledged s.acked ++ (handlers s.pending_replies ++ t))
      (ap (λ t. handlers s.buffer ++ handlers t) e
        ∙ sym (append-middle (handlers s.buffer) m.1 (handlers rest))
        ∙ ap (λ t. t ++ handlers rest) (sym (handlers-append s.buffer (m ∷ []))))

-- Closed messages leave the buffer.
shed_line :
    (s : Connection) (ack : List ℕ) (pending buffer channel : List Message)
    → Kept
        (ack ++ (handlers pending ++ (handlers buffer ++ handlers channel)))
        s.closed
        s.next_handler
    → Kept
        (ack
          ++ (handlers pending
              ++ (handlers (retain (λ e. not (is_closed e.1 s)) buffer) ++ handlers channel)))
        s.closed
        s.next_handler
shed_line s ack pending buffer channel k =
    subst (λ t. Kept t s.closed s.next_handler)
      (append_assoc ack (handlers pending) _
        ∙ ap (λ t. ack ++ (handlers pending ++ (t ++ handlers channel)))
            (sym (handlers-retain s.closed buffer)))
      (Kept-shed (ack ++ handlers pending) (handlers buffer) (handlers channel) s.closed
        s.next_handler
        (subst (λ t. Kept t s.closed s.next_handler) (sym (append_assoc ack (handlers pending) _))
          k))

drain-Orderly :
    (ms : List Message) (s : Connection) → s.channel ≡ ms → Orderly s → Orderly (drain ms s)
unfolding drain
drain-Orderly [] s e o = o
drain-Orderly (m ∷ rest) s e (k, r) = (
  shed_line s (acknowledged s.acked) s.pending_replies (s.buffer ++ m ∷ []) rest
      (same_line s _ (shift_line s m rest e) k),
  r,
)

accept-Orderly :
    (ms : List Message) (s : Connection) → s.channel ≡ ms → Orderly s → Orderly (accept ms s)
unfolding accept
accept-Orderly [] s e o = o
accept-Orderly (m ∷ rest) s e (k, r) = (same_line s _ (shift_line s m rest e) k, inl refl)

-- One message goes from the buffer to those that wait for a reply.
post_line :
    (s : Connection) (m : Message) (rest : List Message)
    → s.buffer ≡ m ∷ rest
    → line s
      ≡ acknowledged s.acked
        ++ (handlers (s.pending_replies ++ m ∷ []) ++ (handlers rest ++ handlers s.channel))
post_line s m rest e = ap (◌++◌ (acknowledged s.acked)) (
    ap (λ t. handlers s.pending_replies ++ (handlers t ++ handlers s.channel)) e
    ∙ sym (append-middle (handlers s.pending_replies) m.1 (handlers rest ++ handlers s.channel))
    ∙ ap (λ t. t ++ (handlers rest ++ handlers s.channel))
        (sym (handlers-append s.pending_replies (m ∷ []))))

drop-Lined :
    (s : Connection) (m : Message) (rest : List Message)
    → s.buffer ≡ m ∷ rest
    → is_closed m.1 s ≡ true
    → Lined s
    → Lined (record s { buffer = rest })
drop-Lined s m rest e c k =
    let xs = acknowledged s.acked ++ handlers s.pending_replies in
    let zs = handlers rest ++ handlers s.channel in
    let whole = append_assoc (acknowledged s.acked) (handlers s.pending_replies) in
    let before =
      same_line s (xs ++ (m.1 ∷ zs))
        (ap
            (λ t.
              acknowledged s.acked
              ++ (handlers s.pending_replies ++ (handlers t ++ handlers s.channel)))
            e
          ∙ sym (whole (m.1 ∷ zs)))
        k in
    subst (λ t. Kept t s.closed s.next_handler)
      (ap (λ b. xs ++ ((if not b then m.1 ∷ [] else []) ++ zs)) c ∙ whole zs)
      (Kept-shed xs (m.1 ∷ []) zs s.closed s.next_handler before)

flush-Orderly :
    (ms : List Message) (b : Bool) (s : Connection)
    → s.buffer ≡ ms
    → is_sending s.phase ≡ true
    → Orderly s
    → Orderly (flush ms b s)
unfolding flush
flush-Orderly [] b s e c (k, r) = (k, inl refl)
flush-Orderly (m ∷ rest) b s e c (k, r) =
    if_elim Orderly (is_closed m.1 s) (record s { buffer = rest }) _
      (λ h. (drop-Lined s m rest e h k, r))
      (λ _.
        if_elim Orderly b
          (record s { buffer = rest; pending_replies = s.pending_replies ++ m ∷ [] }) (disconnect s)
          (λ _. (same_line s _ (post_line s m rest e) k, inl (ground (arith, c))))
          (λ _. disconnect-Orderly s k))

ack_line :
    (s : Connection) (m : Message) (bytes : Bytes) (rest : List Message)
    → s.pending_replies ≡ m ∷ rest
    → line s
      ≡ acknowledged (s.acked ++ (m.1, bytes) ∷ [])
        ++ (handlers rest ++ (handlers s.buffer ++ handlers s.channel))
ack_line s m bytes rest e =
    ap (λ t. acknowledged s.acked ++ (handlers t ++ (handlers s.buffer ++ handlers s.channel))) e
    ∙ sym (append-middle (acknowledged s.acked) m.1 _)
    ∙ ap (λ t. t ++ (handlers rest ++ (handlers s.buffer ++ handlers s.channel)))
        (sym (map-append (λ e. e.0) s.acked ((m.1, bytes) ∷ [])))

send_line :
    (s : Connection) (bytes : Bytes)
    → line s ++ s.next_handler ∷ []
      ≡ acknowledged s.acked
        ++ (handlers s.pending_replies
            ++ (handlers s.buffer ++ handlers (s.channel ++ (bytes, s.next_handler) ∷ [])))
send_line s bytes =
    append_assoc (acknowledged s.acked) _ _
    ∙ ap (◌++◌ (acknowledged s.acked)) (
        sym (
          append-snoc (handlers s.pending_replies) (handlers s.buffer) (handlers s.channel)
            s.next_handler)
        ∙ ap (λ t. handlers s.pending_replies ++ (handlers s.buffer ++ t))
            (sym (handlers-append s.channel ((bytes, s.next_handler) ∷ []))))

respond-Orderly :
    (ms : List Message) (r : Option Bytes) (s : Connection)
    → s.pending_replies ≡ ms
    → Orderly s
    → Orderly (respond ms r s)
unfolding respond
respond-Orderly [] r s e (k, _) = disconnect-Orderly s k
respond-Orderly (m ∷ rest) none s e (k, _) = disconnect-Orderly s k
respond-Orderly (m ∷ rest) (some bytes) s e (k, _) =
    (same_line s _ (ack_line s m bytes rest e) k, inl refl)

step-Orderly : (e : Event) (s : Connection) → Orderly s → Orderly (step e s)
unfolding step expire
step-Orderly (sends bytes) s (k, r) = (
  subst (λ t. Kept t s.closed (s.next_handler + 1)) (send_line s bytes)
      (Kept-snoc (line s) s.closed s.next_handler k),
  r,
)
step-Orderly (cancels h) s (k, r) = (Kept-close (line s) s.closed s.next_handler h k, r)
step-Orderly (connects b) s o =
    if_elim Orderly (is_connecting s.phase) (connect b s) s (λ c. connect-Orderly b s c o) (λ _. o)
step-Orderly expires s o =
    if_elim Orderly (is_waiting s.phase) (expire s) s
      (λ c. (o.0, inr (elim o.1 [ inl r ↦ absurd (waiting_rests s.phase c r) | inr r ↦ r ])))
      (λ _. o)
step-Orderly receives s o =
    if_elim Orderly (is_waiting s.phase) (drain s.channel s) _
      (λ _. drain-Orderly s.channel s refl o)
      (λ _.
        if_elim Orderly (is_selecting s.phase) (accept s.channel s) s
          (λ _. accept-Orderly s.channel s refl o) (λ _. o))
step-Orderly (writes b) s o =
    if_elim Orderly (is_sending s.phase) (flush s.buffer b s) s
      (λ c. flush-Orderly s.buffer b s refl c o) (λ _. o)
step-Orderly (responds r) s o =
    if_elim Orderly (is_selecting s.phase) (respond s.pending_replies r s) s
      (λ _. respond-Orderly s.pending_replies r s refl o) (λ _. o)

run-Orderly : (es : List Event) (s : Connection) → Orderly s → Orderly (run es s)
unfolding run
run-Orderly [] s o = o
run-Orderly (e ∷ es) s o = run-Orderly es (step e s) (step-Orderly e s o)

-- Whatever a connection of the reliable sender meets - failures to connect, writes that fail, lost replies, cancellations - the messages that got a reply, those that wait for one, those in the buffer and those in the channel stand, in this sequence, in the order in which they were sent, none twice, and every message that is not among them was cancelled.
pub messages_kept : (es : List Event) → Lined (run es new)
messages_kept es = (run-Orderly es new ((omega arith, λ i low. absurd (omega arith)), inr refl)).0
