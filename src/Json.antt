-- ===== src/Json.antt =====
-- JsonServer/Session.h and Session.cpp: a session that reads exactly a header, then exactly a
-- message, and sends the message back. Its HandleRead, which is never bound to a read, is in `Framed`.
pub mod Echoes
pub mod Framed
use asio_network.Base.{
  ℕ, ◌+◌, ◌%◌, ◌^◌, Bool, true, false, Option, none, some, List, [], ◌∷◌, ltb, if◌then◌else◌,
  length,
}
use asio_network.Base.Int.{ℤ, pos, signed16, above, to_size}
use asio_network.Wire.Memory.{Bytes, write_at}
use asio_network.Wire.Host.{Host, short_of}
use asio_network.Wire.Exec.{Exec, done, undefined, throws, ◌>>=◌, defined}
use asio_network.Wire.Node.{MsgNode, plain_node, put_nul, clear, head_length}
use asio_network.Sender
use asio_network.Sender.{Sender, new_sender}
use asio_network.Server.{CServer, clear_session}
use asio_network.Echo.{max_length, send_buffer}

-- The `async_read` that is under way: into the whole header node, into the whole message node, or
-- none.
pub data Reading : Type 0 where
  head_read msg_read no_read : Reading

pub record JsonSession : Type 0 where
  pub uuid : ℕ
  pub recv_head_node : MsgNode
  pub recv_msg_node : Option MsgNode
  pub sender : Sender
  pub socket_open : Bool
  pub b_close : Bool
  pub server : CServer ℕ
  pub reading : Reading

-- The constructor. `_b_close` is not initialised.
unfoldable pub new_json_session : ℕ → Bool → CServer ℕ → Exec JsonSession
new_json_session uuid close_flag server = do
  node ← plain_node (pos head_length)
  done (record {
    uuid = uuid;
    recv_head_node = node;
    recv_msg_node = none;
    sender = new_sender;
    socket_open = true;
    b_close = close_flag;
    server = server;
    reading = no_read;
  })

unfoldable pub start_json : JsonSession → Exec JsonSession
start_json w = do
  node ← clear w.recv_head_node
  done (record w { recv_head_node = node; reading = head_read })

unfoldable pub close_json : JsonSession → JsonSession
close_json w = record w { socket_open = false; b_close = true }

-- `Close(); _server->ClearSession(_uuid); return;`
unfoldable pub close_and_clear : JsonSession → JsonSession
unfolding close_json
close_and_clear w = record (close_json w) {
  server = clear_session w.server w.uuid;
  reading = no_read;
}

-- Lines 300-315: the header is read.
unfoldable pub open_json : Option ℕ → JsonSession → Exec JsonSession
unfolding close_and_clear
open_json none w = undefined
open_json (some data_len) w =
    if above (signed16 data_len) max_length then done (close_and_clear w) else (do
      node ← plain_node (signed16 data_len)
      done (record w { recv_msg_node = some node; reading = msg_read }))

module _ (host : Host) where
  -- HandleReadHead, lines 291-321.
  unfoldable pub handle_read_head : Bool → ℕ → JsonSession → Exec JsonSession
  unfolding open_json close_and_clear
  handle_read_head error bytes_transferred w =
      if error
      then done (close_and_clear w)
      else if ltb bytes_transferred head_length
      then done (close_and_clear w)
      else open_json (short_of host w.recv_head_node.block) w

  -- Lines 326-337, through the pointer `_recv_msg_node`.
  unfoldable pub echo_msg : Option MsgNode → JsonSession → Exec JsonSession
  echo_msg none w = undefined
  echo_msg (some m) w = do
    block ← put_nul m.block m.total_len
    s ← send_buffer host block (to_size m.total_len % 2 ^ 16) w.sender
    head ← clear w.recv_head_node
    done (record w {
      recv_msg_node = some (record m { block = block });
      sender = s;
      recv_head_node = head;
      reading = head_read;
    })

  -- HandleReadMsg, lines 323-343.
  unfoldable pub handle_read_msg : Bool → ℕ → JsonSession → Exec JsonSession
  unfolding echo_msg close_and_clear
  handle_read_msg error bytes_transferred w =
      if error then done (close_and_clear w) else echo_msg w.recv_msg_node w

  -- The bytes arrive in the node that is read into, and its handler runs without an error.
  unfoldable pub arrives_in : Reading → Option MsgNode → Bytes → JsonSession → Exec JsonSession
  unfolding handle_read_head handle_read_msg
  arrives_in head_read m bytes w = do
    block ← defined (write_at w.recv_head_node.block 0 bytes)
    handle_read_head false (length bytes)
        (record w { recv_head_node = record (w.recv_head_node) { block = block } })
  arrives_in msg_read none bytes w = undefined
  arrives_in msg_read (some m) bytes w = do
    block ← defined (write_at m.block 0 bytes)
    handle_read_msg false (length bytes)
        (record w { recv_msg_node = some (record m { block = block }) })
  arrives_in no_read m bytes w = done w

  -- One `async_read` after the other completes, with these bytes.
  unfoldable pub serve : List Bytes → JsonSession → Exec JsonSession
  unfolding arrives_in
  serve [] w = done w
  serve (bytes ∷ reads) w = arrives_in w.reading w.recv_msg_node bytes w >>= λ w'. serve reads w'

-- HandleWrite, lines 72-92.
unfoldable pub handle_json_write : Bool → JsonSession → Exec JsonSession
handle_json_write error w = do
  s ← Sender.handle_write error w.sender
  done (
      if error
      then record w { sender = s; server = clear_session w.server w.uuid }
      else record w { sender = s })
