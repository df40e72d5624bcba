-- ===== src/Client/Served.antt =====
-- A client and LogicServer together: the request, the worker's answer, and the reply.
use asio_network.Base.{
  ℕ, ◌+◌, ◌≤◌, ◌≡◌, refl, sym, ap, ◌∙◌, some, List, [], ◌∷◌, ◌++◌, append-nil, arith, length, All,
  length-append, take-length,
}
use asio_network.Wire.Memory.{Bytes}
use asio_network.Wire.Host.{Host}
use asio_network.Wire.Exec.{done, value_or}
use asio_network.Framing.Stream.{head}
use asio_network.Framing.Reader.{Reader}
use asio_network.Framing.Reader.Shows.{Shows}
use asio_network.Framing.Reader.Chunks.{joined, IsChunk, receive_all, state_of}
use asio_network.Logic.{LogicSystem, msg_hello_world, register_callbacks, deal_front}
use asio_network.Sender.{max_sendque_size}
use asio_network.Sender.Order.{Ordered}
use asio_network.Session.{CSession, csession_protocol}
use asio_network.Session.Format.{max_length}
use asio_network.Session.Receive.{
  Message, IsMessage, frame, logic_node, with_posted, receive_all-frames,
}
use asio_network.Session.Hello.{
  JsonText, Sessions, with_session, hello_reply, hello_world_callback, hello_world_answers,
}
use asio_network.Client.{
  client_buffer, NumberBytes, StartsWithShort, Sends, Receives, tlv_request, tlv_reply,
}
use asio_network.Session.Nodes.{length-frame}
use asio_network.Client.Tlv.{tlv_request_lem, tlv_reply_lem}

abbrev hello_request : Bytes → Message
hello_request text = record { msg_id = msg_hello_world; payload = text }

-- A client whose `int`s start with their low halves sends a MSG_HELLO_WORLD request, where `send` takes
-- all that it is offered and `receive` gives all that it is asked for and that is there. However the
-- network cuts it, the session that it reaches, at a header, posts exactly this request; the worker's
-- answer puts the frame of its reply behind all that the session has accepted; and from that frame
-- the client reads the reply's text, whatever follows.
tlv_client_served :
    (client server : Host) (int_byte : NumberBytes) (json : JsonText) (sessions : Sessions)
    (send : Sends) (receive : Receives) (uuid id : ℕ)
    (text data_text bytes accepted sent rest : Bytes) (chunks : List Bytes) (r : Reader)
    (logic : LogicSystem)
    → StartsWithShort client int_byte
    → length text + 4 ≤ client_buffer
    → ((bs : Bytes) → send bs ≡ done (length bs))
    → ((size : ℕ) (stream : Bytes) → size ≤ length stream → receive size stream ≡ done size)
    → tlv_request client int_byte send msg_hello_world text ≡ done bytes
    → All IsChunk chunks
    → joined chunks ≡ bytes
    → Shows 4 r (head [])
    → json.id text ≡ done id
    → json.text text ≡ done data_text
    → IsMessage (record { msg_id = id; payload = hello_reply json text data_text })
    → Ordered accepted sent (sessions uuid).sender
    → length ((sessions uuid).sender).send_queue ≤ max_sendque_size
    → let reply : Message = record { msg_id = id; payload = hello_reply json text data_text } in
      (state_of
          (csession_protocol server uuid)
          max_length
          (receive_all (csession_protocol server uuid) max_length chunks r logic)
        ≡ some (with_posted logic (logic_node uuid (hello_request text) ∷ [])))
      × ((c : CSession) × (deal_front
              (register_callbacks (hello_world_callback server json))
              (logic_node uuid (hello_request text))
              sessions
            ≡ done (with_session sessions uuid c))
          × Ordered (accepted ++ frame server reply) sent c.sender)
      × (tlv_reply client receive (frame server reply ++ rest) ≡ done reply.payload)
tlv_client_served client server int_byte json sessions send receive uuid id text data_text bytes
      accepted sent rest chunks r logic starts fits sends_all gives_all sends nonempty same shown
      has_id has_data valid o room =
    let m : Message = hello_request text in
    let same_bytes : bytes ≡ frame client m = ap (value_or bytes) (
      sym sends
      ∙ tlv_request_lem client int_byte starts send m (length (frame client m)) (omega arith) fits
          (sends_all (frame client m))
      ∙ ap done (take-length (length (frame client m)) (frame client m) (omega arith))) in
    let m_valid : IsMessage m = record {
      id_fits = omega arith;
      id_passes = refl;
      len_passes = omega arith;
    } in
    let (c, dealt, after, _) =
      hello_world_answers server json sessions uuid id text data_text accepted sent has_id has_data
        valid o room in
    (
      receive_all-frames client server uuid (m ∷ []) chunks r logic (m_valid, tt) nonempty
          (same ∙ same_bytes ∙ sym (append-nil (frame client m))) shown,
      (c, dealt, after),
      tlv_reply_lem client server receive answer rest (length answer.payload)
            (omega (arith, valid.len_passes))
            (gives_all 4 (frame server answer ++ rest)
              (omega (arith, length-append (frame server answer) rest, length-frame server answer)))
            (gives_all (length answer.payload) (answer.payload ++ rest)
              (omega (arith, length-append answer.payload rest)))
          ∙ ap done (take-length (length answer.payload) answer.payload (omega arith)),
    )
  where
    answer : Message
    answer = record { msg_id = id; payload = hello_reply json text data_text }
