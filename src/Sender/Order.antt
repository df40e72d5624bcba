-- ===== src/Sender/Order.antt =====
-- The invariant of Send and HandleWrite: which writes are under way, and the order of the bytes.
use asio_network.Base.{
  suc, ◌+◌, ◌≤◌, ◌≡◌, inl, inr, refl, sym, ap, ◌∙◌, Bool, false, List, [], ◌∷◌, ◌++◌, append_assoc,
  append-nil, arith, ltb, if◌then◌else◌, length, length-append, take, All, Bool-cases, ltb→le,
  le→ltb, lt→ltb,
}
use asio_network.Base.Int.{to_size}
use asio_network.Wire.Memory.{Bytes, read_at-inside}
use asio_network.Wire.Exec.{done}
use asio_network.Wire.Node.{MsgNode}
use asio_network.Sender.{Sender, max_sendque_size, async_send, send, handle_write}

-- What a node puts on the wire.
abbrev pub text : MsgNode → Bytes
text node = take (to_size node.total_len) node.block

abbrev pub IsSendable : MsgNode → Type 0
IsSendable node = to_size node.total_len ≤ length node.block

abbrev pub texts : List MsgNode → Bytes
texts [] = []
texts (node ∷ nodes) = text node ++ texts nodes

abbrev pub front_text : List MsgNode → List Bytes
front_text [] = []
front_text (node ∷ nodes) = text node ∷ []

-- `accepted` is the bytes of all messages that Send has queued, `sent` those of the writes that
-- have completed.
pub record Ordered (accepted sent : Bytes) (s : Sender) : Type 0 where
  pub sendable : All IsSendable s.send_queue
  pub one_write : s.in_flight ≡ front_text s.send_queue
  pub in_order : sent ++ texts s.send_queue ≡ accepted
  pub bounded : length s.send_queue ≤ max_sendque_size + 1

async_send_lem :
    (s : Sender) (node : MsgNode)
    → IsSendable node
    → async_send s node ≡ done (record s { in_flight = s.in_flight ++ (text node ∷ []) })
unfolding async_send
async_send_lem s node h = rw (read_at-inside node.block 0 (to_size node.total_len) (omega arith))

All-snoc :
    (nodes : List MsgNode) (node : MsgNode)
    → All IsSendable nodes
    → IsSendable node
    → All IsSendable (nodes ++ (node ∷ []))
All-snoc [] node h k = (k, tt)
All-snoc (n ∷ nodes) node h k = (h.0, All-snoc nodes node h.1 k)

texts-snoc :
    (nodes : List MsgNode) (node : MsgNode)
    → texts (nodes ++ (node ∷ [])) ≡ texts nodes ++ text node
texts-snoc [] node = append-nil _
texts-snoc (n ∷ nodes) node =
    ap (λ (bs : Bytes). text n ++ bs) (texts-snoc nodes node)
    ∙ sym (append_assoc (text n) (texts nodes) (text node))

-- What Send leaves as accepted: nothing new where the queue is full.
abbrev pub accepts : Bytes → Sender → MsgNode → Bytes
accepts accepted s node =
    if ltb max_sendque_size (length s.send_queue) then accepted else accepted ++ text node

module _ (accepted sent : Bytes) (node : MsgNode) (sendable : IsSendable node) where
  extended :
      (q : List MsgNode)
      → sent ++ texts q ≡ accepted
      → sent ++ texts (q ++ (node ∷ [])) ≡ accepted ++ text node
  extended q e =
      ap (λ (bs : Bytes). sent ++ bs) (texts-snoc q node)
      ∙ sym (append_assoc sent (texts q) (text node))
      ∙ ap (λ (bs : Bytes). bs ++ text node) e

  queued :
      (q : List MsgNode) (flight : List Bytes) (cleared : Bool)
      → Ordered accepted sent (record { send_queue = q; in_flight = flight; cleared = cleared })
      → length q ≤ max_sendque_size
      → (s' : Sender) × (send
            (done node)
            (record { send_queue = q; in_flight = flight; cleared = cleared })
          ≡ done s')
        × Ordered (accepted ++ text node) sent s'
        × (length s'.send_queue ≤ length q + 1)
  unfolding send
  queued [] flight cleared v room = (
    record { send_queue = node ∷ []; in_flight = flight ++ (text node ∷ []); cleared = cleared },
    async_send_lem _ node sendable,
    record {
      sendable = (sendable, tt);
      one_write = ap (λ (bs : List Bytes). bs ++ (text node ∷ [])) v.one_write;
      in_order = extended [] v.in_order;
      bounded = omega arith;
    },
    omega arith,
  )
  queued (n ∷ q) flight cleared v room = (
    record { send_queue = n ∷ (q ++ (node ∷ [])); in_flight = flight; cleared = cleared },
    rw (le→ltb max_sendque_size (suc (length q)) room, lt→ltb 0 (suc (length q)) (omega arith)),
    record {
      sendable = All-snoc (n ∷ q) node v.sendable sendable;
      one_write = v.one_write;
      in_order = extended (n ∷ q) v.in_order;
      bounded = omega (arith, length-append q (node ∷ []));
    },
    omega (arith, length-append q (node ∷ [])),
  )

  -- Send of a node that can be built succeeds and keeps the order, and the queue grows by one at
  -- most. A full queue drops the message.
  pub send-Ordered :
      (s : Sender)
      → Ordered accepted sent s
      → (s' : Sender) × (send (done node) s ≡ done s')
        × Ordered (accepts accepted s node) sent s'
        × (length s'.send_queue ≤ length s.send_queue + 1)
  send-Ordered s v = elim (Bool-cases (ltb max_sendque_size (length s.send_queue))) [
    | inl full ↦ (s, unfold send in rw full, rw full v, omega arith)
    | inr room ↦ rw room (queued s.send_queue s.in_flight s.cleared v (ltb→le _ _ room))
  ]

-- The completion of the write that is under way: its handler finds a queue to pop, and starts on
-- the next node.
pub handle_write-Ordered :
    (accepted sent : Bytes) (node : MsgNode) (q : List MsgNode) (flight : List Bytes)
    (cleared : Bool)
    → Ordered accepted sent
        (record { send_queue = node ∷ q; in_flight = flight; cleared = cleared })
    → (s' : Sender) × (handle_write false
          (record { send_queue = node ∷ q; in_flight = []; cleared = cleared })
        ≡ done s')
      × Ordered accepted (sent ++ text node) s'
      × (s'.send_queue ≡ q)
unfolding handle_write
handle_write-Ordered accepted sent node [] flight cleared v = (
  record { send_queue = []; in_flight = []; cleared = cleared },
  refl,
  record {
    sendable = tt;
    one_write = refl;
    in_order = append_assoc sent (text node) [] ∙ v.in_order;
    bounded = omega arith;
  },
  refl,
)
handle_write-Ordered accepted sent node (n ∷ q) flight cleared v = (
  record { send_queue = n ∷ q; in_flight = text n ∷ []; cleared = cleared },
  async_send_lem (record { send_queue = n ∷ q; in_flight = []; cleared = cleared }) n
      v.sendable.1.0,
  record {
    sendable = v.sendable.1;
    one_write = refl;
    in_order = append_assoc sent (text node) (texts (n ∷ q)) ∙ v.in_order;
    bounded = omega (arith, v.bounded);
  },
  refl,
)
