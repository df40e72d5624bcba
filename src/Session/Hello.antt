-- ===== src/Session/Hello.antt =====
-- HelloWorldCallback of LogicServer/LogicSystem.cpp, which answers on the session of a message.
use asio_network.Base.{ℕ, ◌+◌, ◌≤◌, ◌≡◌, refl, ◌++◌, ◌==◌, if◌then◌else◌, length, le→ltb}
use asio_network.Wire.Memory.{Bytes}
use asio_network.Wire.Host.{Host}
use asio_network.Wire.Exec.{Exec, done, ◌>>=◌}
use asio_network.Logic.{Callback, msg_hello_world, register_callbacks, dispatch, deal_front}
use asio_network.Sender.{max_sendque_size}
use asio_network.Sender.Order.{Ordered, send-Ordered}
use asio_network.Echo.{receipt, read_full_node}
use asio_network.Session.{CSession, send_string}
use asio_network.Session.Receive.{Message, IsMessage, frame, logic_node}
use asio_network.Session.Nodes.{
  message_node, message_node-IsSendable, message_node-text, send_string_lem,
}

-- jsoncpp, for the value that is parsed from a text: `id` is the low 16 bits of its member "id" as an
-- int, and `text` its member "data" as a string, where both may throw; `styled` is the value written
-- out, with the second text for its member "data".
pub record JsonText : Type 0 where
  pub id : Bytes → Exec ℕ
  pub text : Bytes → Exec Bytes
  pub styled : Bytes → Bytes → Bytes

-- The sessions by their uuids. A message keeps its session alive.
abbrev pub Sessions : Type 0
Sessions = ℕ → CSession

abbrev pub with_session : Sessions → ℕ → CSession → Sessions
with_session sessions uuid c j = if uuid == j then c else sessions j

-- What is sent back for a text whose member "data" is `data_text`.
abbrev pub hello_reply : JsonText → Bytes → Bytes → Bytes
hello_reply json msg_data data_text = json.styled msg_data (receipt ++ data_text)

module _ (host : Host) (json : JsonText) where
  -- HelloWorldCallback, lines 18-28.
  unfoldable pub hello_world_callback : Callback Sessions
  hello_world_callback session msg_id msg_data sessions = do
    id ← json.id msg_data
    data_text ← json.text msg_data
    c ← send_string host (hello_reply json msg_data data_text) id (sessions session)
    done (with_session sessions session c)

  -- The worker answers a MSG_HELLO_WORLD message whose text has an id and data, and whose reply is a
  -- message that passes a reader's checks, on its own session, if there is room in the queue: the
  -- reply's frame comes after all that the session has accepted, no other session changes, and the
  -- queue grows by one at most.
  pub hello_world_answers :
      (sessions : Sessions) (uuid id : ℕ) (payload data_text accepted sent : Bytes)
      → json.id payload ≡ done id
      → json.text payload ≡ done data_text
      → IsMessage (record { msg_id = id; payload = hello_reply json payload data_text })
      → Ordered accepted sent (sessions uuid).sender
      → length ((sessions uuid).sender).send_queue ≤ max_sendque_size
      → (c : CSession) × (deal_front
            (register_callbacks hello_world_callback)
            (logic_node uuid (record { msg_id = msg_hello_world; payload = payload }))
            sessions
          ≡ done (with_session sessions uuid c))
        × Ordered
            (accepted
              ++ frame host (record { msg_id = id; payload = hello_reply json payload data_text }))
            sent
            c.sender
        × (length (c.sender).send_queue ≤ length ((sessions uuid).sender).send_queue + 1)
  unfolding deal_front dispatch register_callbacks hello_world_callback
  hello_world_answers sessions uuid id payload data_text accepted sent has_id has_data valid o
        room =
      let m : Message = record { msg_id = id; payload = hello_reply json payload data_text } in
      let (s, e, o', grows) =
        send-Ordered accepted sent (message_node host m) (message_node-IsSendable host m)
          (sessions uuid).sender o in
      (
        record (sessions uuid) { sender = s },
        rw
            (
              read_full_node payload,
              has_id,
              has_data,
              send_string_lem host m (sessions uuid) valid,
              e,
            )
            refl,
        rw
            (
              le→ltb max_sendque_size (length ((sessions uuid).sender).send_queue) room,
              message_node-text host m,
            )
            at o',
        grows,
      )
