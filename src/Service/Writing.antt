-- ===== src/Service/Writing.antt =====
-- The write of a session that is under way.
use asio_network.Base.{
  ◌<◌, ◌≤◌, ◌≡◌, ap, Bool, false, List, [], ◌∷◌, ◌++◌, append-nil, arith, length, length-append,
}
use asio_network.Wire.Memory.{Bytes}
use asio_network.Wire.Exec.{done}
use asio_network.Sender
use asio_network.Sender.{Sender, max_sendque_size}
use asio_network.Sender.Order.{Ordered, texts, text, handle_write-Ordered}
use asio_network.Wire.Node.{MsgNode}

-- There is a write under way where not all has been sent, and never more than one.
pub busy_parts :
    (accepted sent : Bytes) (q : List MsgNode) (flight : List Bytes) (cleared : Bool)
    → Ordered accepted sent (record { send_queue = q; in_flight = flight; cleared = cleared })
    → length sent < length accepted
    → length flight ≡ 1
busy_parts accepted sent [] flight cleared o more =
    absurd (omega (arith, more, ap length o.in_order, ap length (append-nil sent)))
busy_parts accepted sent (node ∷ q) flight cleared o more = ap length o.one_write

pub one_parts :
    (accepted sent : Bytes) (q : List MsgNode) (flight : List Bytes) (cleared : Bool)
    → Ordered accepted sent (record { send_queue = q; in_flight = flight; cleared = cleared })
    → length flight ≤ 1
one_parts accepted sent [] flight cleared o = omega (arith, ap length o.one_write)
one_parts accepted sent (node ∷ q) flight cleared o = omega (arith, ap length o.one_write)

sent_within :
    (accepted sent : Bytes) (s : Sender) → Ordered accepted sent s → length sent ≤ length accepted
sent_within accepted sent s o =
    omega (arith, ap length o.in_order, length-append sent (texts s.send_queue))

-- The completion of the write that is under way.
pub finish_parts :
    (accepted sent : Bytes) (q : List MsgNode) (flight : List Bytes) (cleared : Bool)
    → Ordered accepted sent (record { send_queue = q; in_flight = flight; cleared = cleared })
    → 0 < length flight
    → (bytes : Bytes) × (s' : Sender) × (flight ≡ bytes ∷ [])
      × (Sender.handle_write false (record { send_queue = q; in_flight = []; cleared = cleared })
          ≡ done s')
      × Ordered accepted (sent ++ bytes) s'
      × (length s'.send_queue ≤ length q)
finish_parts accepted sent [] flight cleared o busy =
    absurd (omega (arith, busy, ap length o.one_write))
finish_parts accepted sent (node ∷ q) flight cleared o busy =
    let (s', e, o', left) = handle_write-Ordered accepted sent node q flight cleared o in
    (text node, s', o.one_write, e, o', omega (arith, ap length left))

-- Something more has been accepted, and its write or that of an earlier one is under way.
pub more_under_way :
    (accepted bytes sent : Bytes) (s s' : Sender)
    → Ordered accepted sent s
    → Ordered (accepted ++ bytes) sent s'
    → 0 < length bytes
    → length s.in_flight ≤ length s'.in_flight
more_under_way accepted bytes sent s s' o o' more =
    let one : length s'.in_flight ≡ 1 =
      busy_parts (accepted ++ bytes) sent s'.send_queue s'.in_flight s'.cleared o'
        (omega (arith, more, length-append accepted bytes, sent_within accepted sent s o)) in
    omega (arith, one, one_parts accepted sent s.send_queue s.in_flight s.cleared o)
