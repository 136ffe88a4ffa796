-- ===== src/Network/ReliableSender.antt =====
-- The `Connection` of network/src/reliable_sender.rs: messages are sent again until a reply comes or
-- they are cancelled. What TCP does is an input.
pub mod Line
pub mod Order
pub mod Delay
use bullshark_ubuntu.Base.{
  ℕ, ◌+◌, ◌*◌, ◌%◌, ◌^◌, min, if◌then◌else◌, not, Bool, true, false, Option, none, some, List, [],
  ◌∷◌, ◌++◌, retain, contains,
}
use bullshark_ubuntu.Core.State.{Bytes}

-- The data and the handler, a number that is new for each message.
abbrev pub Message : Type 0
Message = Bytes × ℕ

-- Where the task is: at `connect`, in the loop that waits, at the head of the loop of `keep_alive`,
-- which sends the buffer, and in its `select`.
pub data Phase : Type 0 where
  connecting : Phase
  waiting : Phase
  sending : Phase
  selecting : Phase

abbrev pub is_connecting : Phase → Bool
is_connecting phase = elim phase [ connecting ↦ true | _ ↦ false ]

abbrev pub is_waiting : Phase → Bool
is_waiting phase = elim phase [ waiting ↦ true | _ ↦ false ]

abbrev pub is_sending : Phase → Bool
is_sending phase = elim phase [ sending ↦ true | _ ↦ false ]

abbrev pub is_selecting : Phase → Bool
is_selecting phase = elim phase [ selecting ↦ true | _ ↦ false ]

-- The fields and the locals of `run` and `keep_alive`; the channel, the handlers that are closed, the
-- replies that handlers got, oldest first, and the next handler.
pub record Connection : Type 0 where
  pub phase : Phase
  pub delay : ℕ
  pub retry : ℕ
  pub channel : List Message
  pub buffer : List Message
  pub pending_replies : List Message
  pub closed : List ℕ
  pub acked : List (ℕ × Bytes)
  pub next_handler : ℕ

abbrev pub retry_delay : ℕ
retry_delay = 200

abbrev pub new : Connection
new = record {
  phase = connecting;
  delay = retry_delay;
  retry = 0;
  channel = [];
  buffer = [];
  pending_replies = [];
  closed = [];
  acked = [];
  next_handler = 0;
}

pub data Event : Type 0 where
  sends : Bytes → Event
  cancels : ℕ → Event
  connects : Bool → Event
  expires : Event
  receives : Event
  writes : Bool → Event
  responds : Option Bytes → Event

abbrev pub is_closed : ℕ → Connection → Bool
is_closed handler s = contains handler s.closed

-- The end of `keep_alive`: what was not acknowledged is sent first, in the same order.
unfoldable pub disconnect : Connection → Connection
disconnect s = record s {
  phase = connecting;
  buffer = s.pending_replies ++ s.buffer;
  pending_replies = [];
}

unfoldable pub connect : Bool → Connection → Connection
connect true s = record s { phase = sending; delay = retry_delay; retry = 0; pending_replies = [] }
connect false s = record s { phase = waiting }

unfoldable pub expire : Connection → Connection
expire s = record s {
  phase = connecting;
  delay = min (2 * s.delay) 60000;
  retry = (s.retry + 1) % 2 ^ 16;
}

-- A message of the channel, while it waits to connect again and while it is connected.
unfoldable pub drain : List Message → Connection → Connection
drain [] s = s
drain (m ∷ rest) s = record s {
  channel = rest;
  buffer = retain (λ e. not (is_closed e.1 s)) (s.buffer ++ m ∷ []);
}

unfoldable pub accept : List Message → Connection → Connection
accept [] s = s
accept (m ∷ rest) s = record s { phase = sending; channel = rest; buffer = s.buffer ++ m ∷ [] }

-- A turn of the loop that sends the buffer, with whether the write succeeds.
unfoldable pub flush : List Message → Bool → Connection → Connection
unfolding disconnect
flush [] written s = record s { phase = selecting }
flush (m ∷ rest) written s =
    if is_closed m.1 s
    then record s { buffer = rest }
    else if written
    then record s { buffer = rest; pending_replies = s.pending_replies ++ m ∷ [] }
    else disconnect s

-- A response, `none` when the connection fails.
unfoldable pub respond : List Message → Option Bytes → Connection → Connection
unfolding disconnect
respond [] response s = disconnect s
respond (m ∷ rest) none s = disconnect s
respond (m ∷ rest) (some bytes) s = record s {
  phase = sending;
  pending_replies = rest;
  acked = s.acked ++ (m.1, bytes) ∷ [];
}

-- An event for which the task is not ready has no effect.
unfoldable pub step : Event → Connection → Connection
unfolding connect expire drain accept flush respond
step (sends bytes) s = record s {
  channel = s.channel ++ (bytes, s.next_handler) ∷ [];
  next_handler = s.next_handler + 1;
}
step (cancels handler) s = record s { closed = handler ∷ s.closed }
step (connects established) s = if is_connecting s.phase then connect established s else s
step expires s = if is_waiting s.phase then expire s else s
step receives s =
    if is_waiting s.phase
    then drain s.channel s
    else if is_selecting s.phase
    then accept s.channel s
    else s
step (writes written) s = if is_sending s.phase then flush s.buffer written s else s
step (responds response) s =
    if is_selecting s.phase then respond s.pending_replies response s else s

unfoldable pub run : List Event → Connection → Connection
unfolding step
run [] s = s
run (e ∷ es) s = run es (step e s)
