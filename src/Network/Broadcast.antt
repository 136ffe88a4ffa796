-- ===== src/Network/Broadcast.antt =====
-- `ReliableSender` of network/src/reliable_sender.rs: a connection for each address, made when the
-- first message for it is sent.
use bullshark_ubuntu.Base.{
  ℕ, zero, suc, ◌≡◌, refl, ap, sym, subst, ◌∙◌, ◌==◌, ==_iff, ==_refl, if◌then◌else◌, false, some,
  List, [], ◌∷◌, map, lookup, insert, lookup-insert, unwrap_or, contains, Distinct, inl, inr,
  Bool-cases, arith,
}
use bullshark_ubuntu.Config.{SocketAddr}
use bullshark_ubuntu.Core.State.{Bytes}
use bullshark_ubuntu.Network.ReliableSender.{Connection, new, sends, step}

abbrev pub Connections : Type 0
Connections = List (SocketAddr × Connection)

-- The connection of an address, or a new one.
abbrev pub connection : SocketAddr → Connections → Connection
connection address connections = unwrap_or new (lookup address connections)

-- A handler is known by its address and its number in the connection.
unfoldable pub send : SocketAddr → Bytes → Connections → Connections × (SocketAddr × ℕ)
send address bytes connections =
    let used = connection address connections in
    (insert address (step (sends bytes) used) connections, (address, used.next_handler))

unfoldable pub broadcast :
    List SocketAddr → Bytes → Connections → Connections × List (SocketAddr × ℕ)
unfolding send
broadcast [] bytes connections = (connections, [])
broadcast (address ∷ addresses) bytes connections =
    let (sent, handler) = send address bytes connections in
    let (last, handlers) = broadcast addresses bytes sent in (last, handler ∷ handlers)

abbrev pub truncate : ℕ → List SocketAddr → List SocketAddr
truncate zero addresses = []
truncate (suc n) [] = []
truncate (suc n) (address ∷ addresses) = address ∷ truncate n addresses

-- With the shuffled addresses.
unfoldable pub lucky_broadcast :
    List SocketAddr → Bytes → ℕ → Connections → Connections × List (SocketAddr × ℕ)
unfolding broadcast
lucky_broadcast shuffled bytes nodes connections =
    broadcast (truncate nodes shuffled) bytes connections

lookup_same : (x : SocketAddr) (c : Connection) (m : Connections) → lookup x (insert x c m) ≡ some c
lookup_same x c m = ground (arith, lookup-insert x x c m, ==_refl x)

lookup_other :
    (x a : SocketAddr) (c : Connection) (m : Connections)
    → (a == x) ≡ false
    → lookup a (insert x c m) ≡ lookup a m
lookup_other x a c m e = ground (arith, lookup-insert x a c m)

-- A broadcast returns the handlers in the order of the addresses, and afterwards each of the addresses, if none is repeated, has its connection, or a new one, with the message given to it once; the connections of other addresses stay.
pub broadcast_lem :
    (addresses : List SocketAddr) (bytes : Bytes) (connections : Connections) (a : SocketAddr)
    → Distinct addresses
    → (map (λ h. h.0) (broadcast addresses bytes connections).1 ≡ addresses)
      × (lookup a (broadcast addresses bytes connections).0 ≡ (
          if contains a addresses
          then some (step (sends bytes) (connection a connections))
          else lookup a connections))
unfolding broadcast send
broadcast_lem [] bytes connections a d = (refl, refl)
broadcast_lem (x ∷ xs) bytes connections a d =
    let sent = insert x (step (sends bytes) (connection x connections)) connections in
    let (order, last) = broadcast_lem xs bytes sent a d.1 in
    (
      ap (◌∷◌ x) order,
      last ∙ elim (Bool-cases (a == x)) [
        | inl e ↦ rw e (
            subst
              (λ t.
                (if contains t xs
                  then some (step (sends bytes) (connection t sent))
                  else lookup t sent)
                ≡ some (step (sends bytes) (connection t connections)))
              (sym ((==_iff a x).0 e))
              (rw d.0 (lookup_same x (step (sends bytes) (connection x connections)) connections)))
        | inr e ↦ rw e (
            ap (λ o. if contains a xs then some (step (sends bytes) (unwrap_or new o)) else o)
              (lookup_other x a (step (sends bytes) (connection x connections)) connections e))
      ],
    )
