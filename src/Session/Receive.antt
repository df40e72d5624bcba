-- ===== src/Session/Receive.antt =====
-- The messages that CSession.cpp takes from a stream, and their frames.
use asio_network.Base.{
  le→ltb, ℕ, ◌<◌, ◌≤◌, ◌^◌, ◌≡◌, sym, ap, ◌∙◌, false, some, List, [], ◌∷◌, ◌++◌, append_assoc,
  append-nil, arith, length, length-append, All,
}
use asio_network.Base.Int.{signed16, above}
use asio_network.Wire.Memory.{Bytes}
use asio_network.Wire.Host.{Host, bytes_of_short}
use asio_network.Wire.Node.Laws.{signed16_lem, length-bytes_of_short}
use asio_network.Framing.Protocol.{full_node}
use asio_network.Framing.Stream.{Frame, head, feeds, complete, settled, feeds-frame}
use asio_network.Framing.Reader.{Reader}
use asio_network.Framing.Reader.Shows.{Shows}
use asio_network.Framing.Reader.Chunks.{
  joined, IsChunk, receive_all, state_of, state_of-receive_all,
}
use asio_network.Logic.{LogicNode, LogicSystem, post_msg2que}
use asio_network.Session.{csession_protocol}
use asio_network.Session.Format.{max_length, csession_header-short}

pub record Message : Type 0 where
  pub msg_id : ℕ
  pub payload : Bytes

-- What passes the header's checks: the id as a `short` is at most MAX_LENGTH, and so is the length.
pub record IsMessage (m : Message) : Type 0 where
  pub id_fits : m.msg_id < 2 ^ 16
  pub id_passes : above (signed16 m.msg_id) max_length ≡ false
  pub len_passes : length m.payload ≤ max_length

-- The bytes of a message on the wire.
abbrev pub frame : Host → Message → Bytes
frame host m = bytes_of_short host m.msg_id ++ (bytes_of_short host (length m.payload) ++ m.payload)

abbrev pub frames : Host → List Message → Bytes
frames host [] = []
frames host (m ∷ ms) = frame host m ++ frames host ms

-- What a session posts for a message.
abbrev pub logic_node : ℕ → Message → LogicNode
logic_node uuid m = record {
  session = uuid;
  recvnode = record { node = full_node m.payload; msg_id = m.msg_id };
}

abbrev pub logic_nodes : ℕ → List Message → List LogicNode
logic_nodes uuid [] = []
logic_nodes uuid (m ∷ ms) = logic_node uuid m ∷ logic_nodes uuid ms

-- The logic system with these nodes at the end of its queue.
abbrev pub with_posted : LogicSystem → List LogicNode → LogicSystem
with_posted logic nodes = record logic { msg_que = logic.msg_que ++ nodes }

passes : (len : ℕ) → len ≤ max_length → above (signed16 len) max_length ≡ false
passes len h = rw (signed16_lem len (omega arith)) (le→ltb max_length len h)

module _ (sender receiver : Host) (uuid : ℕ) where
  feeds-one :
      (m : Message) (rest : Bytes) (logic : LogicSystem)
      → IsMessage m
      → feeds (csession_protocol receiver uuid) (frame sender m ++ rest) (head []) logic
        ≡ feeds
            (csession_protocol receiver uuid)
            rest
            (head [])
            (post_msg2que logic (logic_node uuid m))
  unfolding complete settled
  feeds-one m rest logic v =
      ap (λ (bs : Bytes). feeds (csession_protocol receiver uuid) bs (head []) logic) regroup
      ∙ feeds-frame (csession_protocol receiver uuid)
          (bytes_of_short sender m.msg_id ++ bytes_of_short sender (length m.payload)) m.payload
          rest m.msg_id logic
          (omega (
            arith,
            length-append (bytes_of_short sender m.msg_id)
                (bytes_of_short sender (length m.payload)),
            length-bytes_of_short sender m.msg_id,
            length-bytes_of_short sender (length m.payload),
          ))
          (csession_header-short sender receiver m.msg_id (length m.payload) v.id_fits
            (omega (arith, v.len_passes)) v.id_passes (passes (length m.payload) v.len_passes))
          (omega (arith, v.len_passes))
    where
      regroup :
          frame sender m ++ rest
          ≡ (bytes_of_short sender m.msg_id ++ bytes_of_short sender (length m.payload))
            ++ (m.payload ++ rest)
      regroup =
          append_assoc (bytes_of_short sender m.msg_id) _ rest
          ∙ ap (λ (bs : Bytes). bytes_of_short sender m.msg_id ++ bs)
              (append_assoc (bytes_of_short sender (length m.payload)) m.payload rest)
          ∙ sym (append_assoc (bytes_of_short sender m.msg_id) _ (m.payload ++ rest))

  pub feeds-frames :
      (ms : List Message) (logic : LogicSystem)
      → All IsMessage ms
      → feeds (csession_protocol receiver uuid) (frames sender ms) (head []) logic
        ≡ (head [], with_posted logic (logic_nodes uuid ms))
  unfolding feeds post_msg2que
  feeds-frames [] logic v =
      ap (λ (que : List LogicNode). (head [], record logic { msg_que = que }))
        (sym (append-nil logic.msg_que))
  feeds-frames (m ∷ ms) logic v =
      feeds-one m (frames sender ms) logic v.0
      ∙ feeds-frames ms (post_msg2que logic (logic_node uuid m)) v.1
      ∙ ap (λ (que : List LogicNode). (head [], record logic { msg_que = que }))
          (append_assoc logic.msg_que (logic_node uuid m ∷ []) (logic_nodes uuid ms))

  -- However the network cuts the bytes of a list of messages, a session that is at a header posts
  -- exactly these messages, in their order, whatever the byte orders of the two machines.
  pub receive_all-frames :
      (ms : List Message) (chunks : List Bytes) (r : Reader) (logic : LogicSystem)
      → All IsMessage ms
      → All IsChunk chunks
      → joined chunks ≡ frames sender ms
      → Shows 4 r (head [])
      → state_of
          (csession_protocol receiver uuid)
          max_length
          (receive_all (csession_protocol receiver uuid) max_length chunks r logic)
        ≡ some (with_posted logic (logic_nodes uuid ms))
  receive_all-frames ms chunks r logic valid nonempty same shown =
      state_of-receive_all (csession_protocol receiver uuid) max_length chunks r (head []) logic
        shown nonempty (λ q. cc (q, arrives))
      ∙ ap (λ (g : Frame × LogicSystem). some g.1) arrives
    where
      arrives :
          feeds (csession_protocol receiver uuid) (joined chunks) (head []) logic
          ≡ (head [], with_posted logic (logic_nodes uuid ms))
      arrives =
          ap (λ (bs : Bytes). feeds (csession_protocol receiver uuid) bs (head []) logic) same
          ∙ feeds-frames ms logic valid
