-- ===== src/Session/Nodes.antt =====
-- The node that Send builds of a message, and its frame.
use asio_network.Base.{
  ℕ, ◌+◌, ◌%◌, ◌^◌, ◌≡◌, refl, sym, ap, ◌∙◌, List, [], ◌∷◌, ◌++◌, append_assoc, append-nil, arith,
  length, length-append, take, take-append,
}
use asio_network.Base.Int.{pos}
use asio_network.Wire.Memory.{Bytes}
use asio_network.Wire.Host.{Host, bytes_of_short}
use asio_network.Wire.Exec.{Exec, done, ◌>>=◌}
use asio_network.Wire.Node.{MsgNode, send_node}
use asio_network.Wire.Node.Laws.{send_node_lem, length-bytes_of_short}
use asio_network.Sender.{send}
use asio_network.Sender.Order.{IsSendable, text}
use asio_network.Session.{CSession, send_string}
use asio_network.Session.Receive.{Message, IsMessage, frame, frames}

module _ (host : Host) where
  pub frames-snoc :
      (ms : List Message) (m : Message)
      → frames host (ms ++ (m ∷ [])) ≡ frames host ms ++ frame host m
  frames-snoc [] m = append-nil _
  frames-snoc (n ∷ ms) m =
      ap (λ (bs : Bytes). frame host n ++ bs) (frames-snoc ms m)
      ∙ sym (append_assoc (frame host n) (frames host ms) (frame host m))

  -- The node of a message.
  unfoldable pub message_node : Message → MsgNode
  message_node m = record {
    block =
        bytes_of_short host m.msg_id
        ++ (bytes_of_short host (length m.payload) ++ (m.payload ++ (0 ∷ [])));
    total_len = pos (length m.payload + 4);
    cur_len = 0;
  }

  pub length-frame : (m : Message) → length (frame host m) ≡ length m.payload + 4
  length-frame m = omega (
    arith,
    length-append (bytes_of_short host m.msg_id)
        (bytes_of_short host (length m.payload) ++ m.payload),
    length-append (bytes_of_short host (length m.payload)) m.payload,
    length-bytes_of_short host m.msg_id,
    length-bytes_of_short host (length m.payload),
  )

  message_node-block : (m : Message) → (message_node m).block ≡ frame host m ++ (0 ∷ [])
  unfolding message_node
  message_node-block m =
      ap (λ (bs : Bytes). bytes_of_short host m.msg_id ++ bs)
        (sym (append_assoc (bytes_of_short host (length m.payload)) m.payload (0 ∷ [])))
      ∙ sym (append_assoc (bytes_of_short host m.msg_id) _ (0 ∷ []))

  pub message_node-IsSendable : (m : Message) → IsSendable (message_node m)
  unfolding message_node
  message_node-IsSendable m = omega (
    arith,
    ap (λ (bs : Bytes). length bs) (message_node-block m),
    length-append (frame host m) (0 ∷ []),
    length-frame m,
  )

  pub message_node-text : (m : Message) → text (message_node m) ≡ frame host m
  unfolding message_node
  message_node-text m =
      ap (λ (bs : Bytes). take (length m.payload + 4) bs) (message_node-block m)
      ∙ take-append (length m.payload + 4) (frame host m) (0 ∷ []) (length-frame m)

  pub send_string_lem :
      (m : Message) (c : CSession)
      → IsMessage m
      → send_string host m.payload m.msg_id c
        ≡ (send (done (message_node m)) c.sender >>= λ s. done (record c { sender = s }))
  unfolding send_string message_node
  send_string_lem m c v =
      ap (λ (node : Exec MsgNode). send node c.sender >>= λ s. done (record c { sender = s }))
        (ap (λ (len : ℕ). send_node host (m.payload ++ (0 ∷ [])) len m.msg_id) fits
          ∙ send_node_lem host (m.payload ++ (0 ∷ [])) (length m.payload) m.msg_id
              (omega (arith, v.len_passes)) (omega (arith, length-append m.payload (0 ∷ [])))
          ∙ rw (take-append (length m.payload) m.payload (0 ∷ []) refl))
    where
      fits : length m.payload % 2 ^ 16 ≡ length m.payload
      fits = omega (arith, v.len_passes)
