-- ===== src/Echo/Replies.antt =====
-- The replies of AsyncEchoServer2/Session.cpp to a list of requests.
use asio_network.Base.{
  ℕ, ◌+◌, ◌%◌, ◌^◌, ◌<◌, ◌≤◌, ◌≡◌, refl, sym, ap, ◌∙◌, some, List, [], ◌∷◌, ◌++◌, append_assoc,
  append-nil, arith, length, length-append, take, take-append, All, le→ltb,
}
use asio_network.Base.Int.{pos}
use asio_network.Wire.Memory.{Bytes}
use asio_network.Wire.Host.{Host, short_of, bytes_of_short, short_of-bytes_of_short}
use asio_network.Wire.Exec.{Exec, done}
use asio_network.Wire.Node.{MsgNode, length_node}
use asio_network.Wire.Node.Laws.{length_node_lem, length-bytes_of_short, signed16_lem}
use asio_network.Framing.Stream.{Frame, head, feeds, complete, settled, feeds-frame}
use asio_network.Framing.Reader.{Reader}
use asio_network.Framing.Reader.Shows.{Shows}
use asio_network.Framing.Reader.Chunks.{
  joined, IsChunk, receive_all, state_of, state_of-receive_all,
}
use asio_network.Sender.{Sender, max_sendque_size, send}
use asio_network.Sender.Order.{Ordered, IsSendable, text, send-Ordered}
use asio_network.Echo.{
  MsgData, max_length, length_header, check_length, reply, answer, send_text, echo_protocol,
}

-- A payload on the wire.
abbrev pub length_frame : Host → Bytes → Bytes
length_frame host payload = bytes_of_short host (length payload) ++ payload

abbrev pub length_frames : Host → List Bytes → Bytes
length_frames host [] = []
length_frames host (payload ∷ payloads) = length_frame host payload ++ length_frames host payloads

-- The node that Send makes of a text, as `Wire.Node.Laws` lays it out.
unfoldable pub text_node : Host → Bytes → MsgNode
text_node host msg = record {
  block = bytes_of_short host (length msg) ++ (msg ++ (0 ∷ []));
  total_len = pos (length msg + 2);
  cur_len = 0;
}

length-length_frame : (host : Host) (msg : Bytes) → length (length_frame host msg) ≡ length msg + 2
length-length_frame host msg = omega (
  arith,
  length-append (bytes_of_short host (length msg)) msg,
  length-bytes_of_short host (length msg),
)

text_node-block :
    (host : Host) (msg : Bytes) → (text_node host msg).block ≡ length_frame host msg ++ (0 ∷ [])
unfolding text_node
text_node-block host msg = sym (append_assoc (bytes_of_short host (length msg)) msg (0 ∷ []))

pub text_node-IsSendable : (host : Host) (msg : Bytes) → IsSendable (text_node host msg)
unfolding text_node
text_node-IsSendable host msg = omega (
  arith,
  ap (λ (bs : Bytes). length bs) (text_node-block host msg),
  length-append (length_frame host msg) (0 ∷ []),
  length-length_frame host msg,
)

pub text_node-text : (host : Host) (msg : Bytes) → text (text_node host msg) ≡ length_frame host msg
unfolding text_node
text_node-text host msg =
    ap (λ (bs : Bytes). take (length msg + 2) bs) (text_node-block host msg)
    ∙ take-append (length msg + 2) (length_frame host msg) (0 ∷ []) (length-length_frame host msg)

send_text_lem :
    (host : Host) (msg : Bytes) (s : Sender)
    → length msg < 2 ^ 15
    → send_text host msg s ≡ send (done (text_node host msg)) s
unfolding send_text text_node
send_text_lem host msg s h =
    ap (λ (node : Exec MsgNode). send node s)
      (ap (λ (len : ℕ). length_node host (msg ++ (0 ∷ [])) len) fits
        ∙ length_node_lem host (msg ++ (0 ∷ [])) (length msg) h
            (omega (arith, length-append msg (0 ∷ [])))
        ∙ rw (take-append (length msg) msg (0 ∷ []) refl))
  where
    fits : length msg % 2 ^ 16 ≡ length msg
    fits = omega (arith, h)

-- What is asked of a request: that it passes the header's check, and that its reply fits a `short`.
pub record IsRequest (codec : MsgData) (payload : Bytes) : Type 0 where
  pub len_passes : length payload ≤ max_length
  pub reply_fits : length (reply codec payload) < 2 ^ 15

module _ (host : Host) (codec : MsgData) where
  -- The replies to a list of requests.
  abbrev pub replies : List Bytes → List Bytes
  replies [] = []
  replies (payload ∷ payloads) = reply codec payload ∷ replies payloads

  answer-Ordered :
      (accepted sent payload : Bytes) (s : Sender)
      → Ordered accepted sent s
      → length s.send_queue ≤ max_sendque_size
      → IsRequest codec payload
      → (s' : Sender) × (answer host codec payload s ≡ done s')
        × Ordered (accepted ++ length_frame host (reply codec payload)) sent s'
        × (length s'.send_queue ≤ length s.send_queue + 1)
  unfolding answer
  answer-Ordered accepted sent payload s o room v =
      let (s', e, o', grown) =
        send-Ordered accepted sent (text_node host (reply codec payload))
          (text_node-IsSendable host (reply codec payload)) s o in
      (
        s',
        send_text_lem host (reply codec payload) s v.reply_fits ∙ e,
        rw
            (
              le→ltb max_sendque_size (length s.send_queue) room,
              text_node-text host (reply codec payload),
            )
            at o',
        grown,
      )

  feeds-request :
      (payload rest : Bytes) (s s' : Sender)
      → IsRequest codec payload
      → answer host codec payload s ≡ done s'
      → feeds (echo_protocol host codec) (length_frame host payload ++ rest) (head []) s
        ≡ feeds (echo_protocol host codec) rest (head []) s'
  unfolding complete settled length_header check_length
  feeds-request payload rest s s' v e =
      ap (λ (bs : Bytes). feeds (echo_protocol host codec) bs (head []) s)
        (append_assoc (bytes_of_short host (length payload)) payload rest)
      ∙ feeds-frame (echo_protocol host codec) (bytes_of_short host (length payload)) payload rest 0
          s (length-bytes_of_short host (length payload))
          (ap (λ (bs : Bytes). check_length (short_of host bs)) (sym (append-nil _))
            ∙ ap check_length (
                short_of-bytes_of_short host host (length payload) [] (omega (arith, v.len_passes)))
            ∙ rw
                (
                  signed16_lem (length payload) (omega (arith, v.len_passes)),
                  le→ltb max_length (length payload) v.len_passes,
                )
                refl)
          (omega (arith, v.len_passes))
      ∙ rw e refl

  -- The replies, as they go on the wire.
  feeds-requests :
      (payloads : List Bytes) (accepted sent : Bytes) (s : Sender)
      → Ordered accepted sent s
      → length s.send_queue + length payloads ≤ max_sendque_size + 1
      → All (IsRequest codec) payloads
      → (s' : Sender) × (feeds (echo_protocol host codec) (length_frames host payloads) (head []) s
          ≡ (head [], s'))
        × Ordered (accepted ++ length_frames host (replies payloads)) sent s'
  unfolding feeds
  feeds-requests [] accepted sent s o room v = (s, refl, rw append-nil o)
  feeds-requests (payload ∷ payloads) accepted sent s o room v =
      let (s1, e, o1, grown) = answer-Ordered accepted sent payload s o (omega arith) v.0 in
      let (s2, e', o2) =
        feeds-requests payloads (accepted ++ length_frame host (reply codec payload)) sent s1 o1
          (omega arith) v.1 in
      (
        s2,
        feeds-request payload (length_frames host payloads) s s1 v.0 e ∙ e',
        rw append_assoc at o2,
      )

  -- However the network cuts the frames of some requests, a session that is at a header, whose queue
  -- has room for as many replies, answers each of them with the reply to it, in their order.
  pub replies_in_order :
      (payloads chunks : List Bytes) (r : Reader) (accepted sent : Bytes) (s : Sender)
      → Ordered accepted sent s
      → length s.send_queue + length payloads ≤ max_sendque_size + 1
      → All (IsRequest codec) payloads
      → All IsChunk chunks
      → joined chunks ≡ length_frames host payloads
      → Shows 2 r (head [])
      → (s' : Sender) × (state_of
            (echo_protocol host codec)
            max_length
            (receive_all (echo_protocol host codec) max_length chunks r s)
          ≡ some s')
        × Ordered (accepted ++ length_frames host (replies payloads)) sent s'
  replies_in_order payloads chunks r accepted sent s o room v nonempty same shown =
      let (s', e, o') = feeds-requests payloads accepted sent s o room v in
      let arrives : feeds (echo_protocol host codec) (joined chunks) (head []) s ≡ (head [], s') =
        ap (λ (bs : Bytes). feeds (echo_protocol host codec) bs (head []) s) same ∙ e in
      (
        s',
        state_of-receive_all (echo_protocol host codec) max_length chunks r (head []) s shown
              nonempty (λ q. cc (q, arrives))
            ∙ ap (λ (g : Frame × Sender). some g.1) arrives,
        o',
      )
