-- ===== src/Session.antt =====
-- LogicServer/CSession.h and CSession.cpp. IOContextPoolServer has the same text, and
-- IOThreadPoolServer the same but that it binds the handlers to a strand.
pub mod Format
pub mod Receive
pub mod Faults
pub mod Nodes
pub mod Send
pub mod Lifetime
pub mod Hello
use asio_network.Base.{
  ℕ, ◌+◌, ◌%◌, ◌^◌, Bool, true, false, Option, none, some, List, [], ◌∷◌, ◌++◌, if◌then◌else◌,
  length, refl, drop,
}
use asio_network.Base.Int.{pos, signed16, above}
use asio_network.Wire.Memory.{Bytes}
use asio_network.Wire.Host.{Host, short_of}
use asio_network.Wire.Exec.{Exec, done, undefined, throws, ◌>>=◌}
use asio_network.Wire.Node.{MsgNode, msg_node, send_node, head_total_len, head_id_len}
use asio_network.Wire.Node.Laws.{msg_node_lem}
use asio_network.Framing.Protocol.{Protocol, Header, invalid, announce, full_node}
use asio_network.Framing.Reader.{
  RecvNode, Reader, Outcome, reading, cleared, idle, out_of_fuel, handle_bytes,
}
use asio_network.Logic.{LogicNode, LogicSystem, post_msg2que}
use asio_network.Sender
use asio_network.Sender.{Sender, new_sender}
use asio_network.Server.{CServer, clear_session}
use Format.{csession_header, csession_header_front, head_pos, max_length}

module _ (host : Host) where
  -- A complete message is posted to the logic system with the session that it came from.
  abbrev pub post_node : ℕ → ℕ → MsgNode → LogicSystem → Exec LogicSystem
  post_node uuid msg_id node logic = done (
      post_msg2que logic
        (record { session = uuid; recvnode = record { node = node; msg_id = msg_id } }))

  abbrev pub csession_protocol : ℕ → Protocol LogicSystem
  csession_protocol uuid = record {
    head_len = head_total_len;
    head_pos = head_pos;
    header = csession_header host;
    new_node = msg_node;
    deliver_node = post_node uuid;
    deliver = λ msg_id payload. post_node uuid msg_id (full_node payload);
    header_front = csession_header_front host;
    new_node_lem = msg_node_lem;
    deliver_lem = λ id payload x. refl;
  }

-- The state of a session. `_b_head_parse` is in `reader`.
pub record CSession : Type 0 where
  pub uuid : ℕ
  pub reader : Reader
  pub sender : Sender
  pub socket_open : Bool
  pub b_close : Bool

-- The constructor. It initialises neither `_b_head_parse` nor `_b_close`: what memory holds there
-- are the two flags.
unfoldable pub new_session : ℕ → Bool → Bool → Exec CSession
new_session uuid head_flag close_flag = do
  node ← msg_node (pos head_total_len)
  done (record {
    uuid = uuid;
    reader = record { b_head_parse = head_flag; recv_head_node = node; recv_msg_node = none };
    sender = new_sender;
    socket_open = true;
    b_close = close_flag;
  })

unfoldable pub close : CSession → CSession
close s = record s { socket_open = false; b_close = true }

-- A session with what its handlers act on. `reading` is whether an `async_read_some` is under way.
pub record World : Type 0 where
  pub session : CSession
  pub logic : LogicSystem
  pub server : CServer ℕ
  pub reading : Bool

-- `Start()`: its `memset` and the read into `_data`.
unfoldable pub start : World → World
start w = record w { reading = true }

-- `_server->ClearSession(_uuid)`.
unfoldable pub clear_self : World → World
clear_self w = record w { server = clear_session w.server w.session.uuid }

-- How HandleRead leaves the world, once its loop has ended.
unfoldable pub after_bytes : World → Outcome LogicSystem → Exec World
unfolding clear_self
after_bytes w (reading r logic) =
    done (record w { session = record (w.session) { reader = r }; logic = logic; reading = true })
after_bytes w (cleared r logic) = done (
    clear_self
      (record w { session = record (w.session) { reader = r }; logic = logic; reading = false }))
after_bytes w (idle r logic) =
    done (record w { session = record (w.session) { reader = r }; logic = logic; reading = false })
after_bytes w out_of_fuel = undefined

module _ (host : Host) where
  -- HandleRead, lines 67-186. `buffer` is `_data`, which `memset` erases before each read.
  unfoldable pub handle_read : Bool → Bytes → ℕ → World → Exec World
  unfolding after_bytes
  handle_read error buffer bytes_transferred w =
      if error
      then done (clear_self (record w { session = close w.session; reading = false }))
      else (do
        o ←
            handle_bytes (csession_protocol host w.session.uuid) buffer w.session.reader
              bytes_transferred w.logic
        after_bytes w o)

  -- HandleWrite, lines 45-65.
  unfoldable pub handle_write : Bool → World → Exec World
  unfolding clear_self
  handle_write error w = do
    s ← Sender.handle_write error w.session.sender
    let w' = record w { session = record (w.session) { sender = s } }
    done (if error then clear_self w' else w')

  -- Send(const char*, short, short), lines 188-208: `msg` is what may be read behind the pointer.
  unfoldable pub send_chars : Bytes → ℕ → ℕ → CSession → Exec CSession
  send_chars msg max_length msg_id c = do
    s ← Sender.send (send_node host msg max_length msg_id) c.sender
    done (record c { sender = s })

  -- Send(std::string, short), lines 210-231: `size()` is converted to `short`.
  unfoldable pub send_string : Bytes → ℕ → CSession → Exec CSession
  send_string msg msg_id c = do
    s ← Sender.send (send_node host (msg ++ (0 ∷ [])) (length msg % 2 ^ 16) msg_id) c.sender
    done (record c { sender = s })
