-- ===== src/Json/Echoes.antt =====
-- What JsonServer/Session.cpp sends back for a list of messages.
use asio_network.Base.{
  ℕ, ◌+◌, ◌%◌, ◌^◌, ◌≤◌, ◌≡◌, refl, sym, ap, ◌∙◌, Option, some, List, [], ◌∷◌, ◌++◌, append_assoc,
  append-nil, arith, length, length-append, replicate, length-replicate, take-append, All, le→ltb,
}
use asio_network.Base.Int.{pos}
use asio_network.Wire.Memory.{Bytes, write_at-middle}
use asio_network.Wire.Host.{Host, bytes_of_short, short_of-bytes_of_short}
use asio_network.Wire.Exec.{done}
use asio_network.Wire.Node.{MsgNode, clear, clear_block, length_node}
use asio_network.Wire.Node.Laws.{
  length_node_lem, plain_node_lem, put_nul-middle, signed16_lem, length-bytes_of_short,
}
use asio_network.Sender.{Sender, max_sendque_size, send}
use asio_network.Sender.Order.{Ordered, send-Ordered}
use asio_network.Echo.{max_length, send_buffer}
use asio_network.Echo.Replies.{
  length_frame, length_frames, text_node, text_node-IsSendable, text_node-text,
}
use asio_network.Json.{
  Reading, head_read, msg_read, JsonSession, open_json, handle_read_head, handle_read_msg, echo_msg,
  arrives_in, serve,
}

-- The session waits for a header, in a node that is clear.
pub record IsAtRest (w : JsonSession) : Type 0 where
  pub reads_head : w.reading ≡ head_read
  pub head_clear :
      w.recv_head_node ≡ record { block = 0 ∷ 0 ∷ 0 ∷ []; total_len = pos 2; cur_len = 0 }

-- The reads of some messages: a header and a message in turn.
abbrev pub reads_of : Host → List Bytes → List Bytes
reads_of sender [] = []
reads_of sender (payload ∷ payloads) =
    bytes_of_short sender (length payload) ∷ payload ∷ reads_of sender payloads

-- A session with a clear header, that waits for it.
abbrev rest_at : JsonSession → Sender → Option MsgNode → JsonSession
rest_at w s m = record w {
  recv_head_node = record { block = 0 ∷ 0 ∷ 0 ∷ []; total_len = pos 2; cur_len = 0 };
  recv_msg_node = m;
  sender = s;
  reading = head_read;
}

-- The same with the header read and a node made for the message.
abbrev opened : JsonSession → Sender → Bytes → Bytes → JsonSession
opened w s front payload = record w {
  recv_head_node = record { block = front ++ (0 ∷ []); total_len = pos 2; cur_len = 0 };
  recv_msg_node = some (record {
    block = replicate (length payload) 0 ++ (0 ∷ []);
    total_len = pos (length payload);
    cur_len = 0;
  });
  sender = s;
  reading = msg_read;
}

module _ (sender host : Host) (w : JsonSession) (s : Sender) (payload : Bytes)
    (passes : length payload ≤ max_length) where
  head_arrives :
      (m : Option MsgNode)
      → arrives_in host head_read m (bytes_of_short sender (length payload)) (rest_at w s m)
        ≡ done (opened w s (bytes_of_short sender (length payload)) payload)
  unfolding arrives_in handle_read_head open_json
  head_arrives m =
      rw
        (
          write_at-middle [] (0 ∷ 0 ∷ []) (0 ∷ []) (bytes_of_short sender (length payload)) 0 refl
              (sym (length-bytes_of_short sender (length payload))),
          length-bytes_of_short sender (length payload),
          short_of-bytes_of_short sender host (length payload) (0 ∷ []) (omega (arith, passes)),
          signed16_lem (length payload) (omega (arith, passes)),
          le→ltb max_length (length payload) passes,
          plain_node_lem (length payload),
        )
        refl

  head_cleared :
      clear (record {
        block = bytes_of_short sender (length payload) ++ (0 ∷ []);
        total_len = pos 2;
        cur_len = 0;
      })
      ≡ done (record { block = 0 ∷ 0 ∷ 0 ∷ []; total_len = pos 2; cur_len = 0 })
  unfolding clear clear_block
  head_cleared =
      rw
        (write_at-middle [] (bytes_of_short sender (length payload)) (0 ∷ []) (0 ∷ 0 ∷ []) 0 refl
          (length-bytes_of_short sender (length payload)))
        refl

  echo_node :
      length_node host (payload ++ (0 ∷ [])) (length payload % 2 ^ 16)
      ≡ done (text_node host payload)
  unfolding text_node
  echo_node =
      ap (λ (len : ℕ). length_node host (payload ++ (0 ∷ [])) len) fits
      ∙ length_node_lem host (payload ++ (0 ∷ [])) (length payload) (omega (arith, passes))
          (omega (arith, length-append payload (0 ∷ [])))
      ∙ rw (take-append (length payload) payload (0 ∷ []) refl)
    where
      fits : length payload % 2 ^ 16 ≡ length payload
      fits = omega (arith, passes)

  msg_arrives :
      (s' : Sender)
      → send (done (text_node host payload)) s ≡ done s'
      → let m : Option MsgNode = some (record {
        block = replicate (length payload) 0 ++ (0 ∷ []);
        total_len = pos (length payload);
        cur_len = 0;
      }) in
        arrives_in host msg_read m payload
          (opened w s (bytes_of_short sender (length payload)) payload)
        ≡ done (
            rest_at w s' (
              some (record {
                block = payload ++ (0 ∷ []);
                total_len = pos (length payload);
                cur_len = 0;
              })))
  unfolding arrives_in handle_read_msg echo_msg send_buffer
  msg_arrives s' e =
      rw
        (
          write_at-middle [] (replicate (length payload) 0) (0 ∷ []) payload 0 refl
              (length-replicate {A = ℕ} (length payload) 0),
          put_nul-middle payload [] 0 (length payload) refl,
          echo_node,
          e,
          head_cleared,
        )
        refl

module _ (client host : Host) where
  serve-rest :
      (payloads : List Bytes) (w : JsonSession) (s : Sender) (m : Option MsgNode)
      (accepted sent : Bytes)
      → Ordered accepted sent s
      → length s.send_queue + length payloads ≤ max_sendque_size + 1
      → All (λ (payload : Bytes). length payload ≤ max_length) payloads
      → (w' : JsonSession) × (serve host (reads_of client payloads) (rest_at w s m) ≡ done w')
        × IsAtRest w'
        × Ordered (accepted ++ length_frames host payloads) sent w'.sender
        × (w'.server ≡ w.server)
  unfolding serve
  serve-rest [] w s m accepted sent o room small =
      (rest_at w s m, refl, record { reads_head = refl; head_clear = refl }, rw append-nil o, refl)
  serve-rest (payload ∷ payloads) w s m accepted sent o room small =
      let (s', e, o', grown) =
        send-Ordered accepted sent (text_node host payload) (text_node-IsSendable host payload) s
          o in
      let o1 : Ordered (accepted ++ length_frame host payload) sent s' =
        rw
          (le→ltb max_sendque_size (length s.send_queue) (omega arith), text_node-text host payload)
          at o' in
      let received : MsgNode = record {
        block = payload ++ (0 ∷ []);
        total_len = pos (length payload);
        cur_len = 0;
      } in
      let (w', e', rest, o2, same) =
        serve-rest payloads w s' (some received) (accepted ++ length_frame host payload) sent o1
          (omega arith) small.1 in
      (
        w',
        rw
            (
              head_arrives client host w s payload small.0 m,
              msg_arrives client host w s payload small.0 s' e,
            )
            e',
        rest,
        rw append_assoc at o2,
        same,
      )

  -- A session that waits for a header, and whose queue has room for as many replies, reads some
  -- messages of lengths up to MAX_LENGTH, each a header and a message: it sends each of them back,
  -- in order, is still in the server's map, and waits for the next header with a clear node.
  pub echoes_in_order :
      (payloads : List Bytes) (w : JsonSession) (accepted sent : Bytes)
      → IsAtRest w
      → Ordered accepted sent w.sender
      → length (w.sender).send_queue + length payloads ≤ max_sendque_size + 1
      → All (λ (payload : Bytes). length payload ≤ max_length) payloads
      → (w' : JsonSession) × (serve host (reads_of client payloads) w ≡ done w')
        × IsAtRest w'
        × Ordered (accepted ++ length_frames host payloads) sent w'.sender
        × (w'.server ≡ w.server)
  echoes_in_order payloads w accepted sent rest o room small =
      let same : rest_at w w.sender w.recv_msg_node ≡ w =
        ap (λ (h : MsgNode). record w { recv_head_node = h; reading = head_read })
          (sym rest.head_clear)
        ∙ ap (λ (q : Reading). record w { reading = q }) (sym rest.reads_head) in
      let (w', e, rested, o', server) =
        serve-rest payloads w w.sender w.recv_msg_node accepted sent o room small in
      (
        w',
        ap (λ (v : JsonSession). serve host (reads_of client payloads) v) (sym same) ∙ e,
        rested,
        o',
        server,
      )
