-- ===== src/Echo.antt =====
-- AsyncEchoServer2/Session.h and Session.cpp: requests in protobuf, answered on the same session.
pub mod Replies
use asio_network.Base.{
  ℕ, zero, suc, ◌+◌, ◌%◌, ◌^◌, ◌<◌, ◌≡◌, refl, ap, ◌∙◌, Bool, true, false, Option, none, some, List,
  [], ◌∷◌, ◌++◌, arith, if◌then◌else◌, length, length-append, take-append,
}
use asio_network.Base.Int.{ℤ, pos, signed16, above, to_size}
use asio_network.Wire.Memory.{Bytes, read_at, read_at-inside}
use asio_network.Wire.Host.{Host, short_of}
use asio_network.Wire.Exec.{Exec, done, undefined, throws, ◌>>=◌, defined}
use asio_network.Wire.Node.{MsgNode, plain_node, length_node, head_length}
use asio_network.Wire.Node.Laws.{plain_node_lem}
use asio_network.Framing.Protocol.{Protocol, Header, invalid, announce, full_node}
use asio_network.Framing.Reader.{Reader, Outcome, reading, cleared, idle, out_of_fuel, handle_bytes}
use asio_network.Sender
use asio_network.Sender.{Sender, new_sender}
use asio_network.Server.{CServer, clear_session}

-- MsgData of the generated msg.pb.h, a parameter: `parse` is the fields after `ParseFromString`,
-- whose result the program does not look at, and `serialize` what `SerializeToString` leaves in
-- an empty string.
pub record MsgData : Type 0 where
  pub parse : Bytes → ℕ × Bytes
  pub serialize : ℕ → Bytes → Bytes

-- MAX_LENGTH of Session.h.
abbrev pub max_length : ℕ
max_length = 2048

-- "server has receive data: ".
abbrev pub receipt : Bytes
receipt =
    115 ∷ 101 ∷ 114 ∷ 118 ∷ 101 ∷ 114 ∷ 32 ∷ 104 ∷ 97 ∷ 115 ∷ 32 ∷ 114 ∷ 101 ∷ 99 ∷ 101 ∷ 105 ∷ 118
    ∷ 101 ∷ 32 ∷ 100 ∷ 97 ∷ 116 ∷ 97 ∷ 58 ∷ 32 ∷ []

unfoldable pub check_length : Option ℕ → Option Header
check_length none = none
check_length (some data_len) =
    some (if above (signed16 data_len) max_length then invalid else announce 0 data_len)

-- The header, lines 117-125. There is no id: 0 stands for it.
unfoldable pub length_header : Host → Bytes → Option Header
unfolding check_length
length_header host block = check_length (short_of host block)

pub length_header_front :
    (host : Host) (front rest : Bytes)
    → length front ≡ 2
    → length_header host (front ++ rest) ≡ length_header host front
unfolding length_header short_of
length_header_front host (a ∷ b ∷ []) rest e = refl
length_header_front host [] rest e = absurd (omega arith)
length_header_front host (a ∷ []) rest e = absurd (omega arith)
length_header_front host (a ∷ b ∷ c ∷ front) rest e = absurd (omega arith)

pub head_length_pos : 0 < 2
head_length_pos = omega arith

-- What is in a complete node: `std::string(_msg, _total_len)`.
pub read_full_node :
    (payload : Bytes)
    → read_at (full_node payload).block 0 (to_size (full_node payload).total_len) ≡ some payload
read_full_node payload =
    read_at-inside (payload ++ (0 ∷ [])) 0 (length payload)
      (omega (arith, length-append payload (0 ∷ [])))
    ∙ ap some (take-append (length payload) payload (0 ∷ []) refl)

-- Lines 148-159, and 195-206 in the same words: what is sent back.
unfoldable pub reply : MsgData → Bytes → Bytes
reply codec payload = codec.serialize (codec.parse payload).0 (receipt ++ (codec.parse payload).1)

module _ (host : Host) where
  -- Send(std::string), lines 251-270: `size()` is converted to `short`.
  unfoldable pub send_text : Bytes → Sender → Exec Sender
  send_text msg s = Sender.send (length_node host (msg ++ (0 ∷ [])) (length msg % 2 ^ 16)) s

  -- Send(char*, int), lines 229-249: `msg` is what may be read behind the pointer, and `len` the
  -- bit pattern of the `short` that the length becomes.
  unfoldable pub send_buffer : Bytes → ℕ → Sender → Exec Sender
  send_buffer msg len s = Sender.send (length_node host msg len) s

  module _ (codec : MsgData) where
    unfoldable pub answer : Bytes → Sender → Exec Sender
    unfolding send_text reply
    answer payload s = send_text (reply codec payload) s

    -- The same from the node: lines 148-160.
    unfoldable pub answer_node : MsgNode → Sender → Exec Sender
    unfolding answer
    answer_node node s = do
      payload ← defined (read_at node.block 0 (to_size node.total_len))
      answer payload s

    pub answer_node_lem :
        (payload : Bytes) (s : Sender) → answer_node (full_node payload) s ≡ answer payload s
    unfolding answer_node
    answer_node_lem payload s = rw (read_full_node payload) refl

    abbrev pub echo_protocol : Protocol Sender
    echo_protocol = record {
      head_len = head_length;
      head_pos = head_length_pos;
      header = length_header host;
      new_node = plain_node;
      deliver_node = λ id node s. answer_node node s;
      deliver = λ id payload s. answer payload s;
      header_front = length_header_front host;
      new_node_lem = plain_node_lem;
      deliver_lem = λ id payload s. answer_node_lem payload s;
    }

-- A session with what its handlers act on, as in `Session`; the sender is the state of the framing
-- loop, which answers through it.
pub record EchoSession : Type 0 where
  pub uuid : ℕ
  pub reader : Reader
  pub sender : Sender
  pub socket_open : Bool
  pub b_close : Bool
  pub server : CServer ℕ
  pub reading : Bool

-- The constructor: two members stay uninitialised, as in CSession.
unfoldable pub new_echo_session : ℕ → Bool → Bool → CServer ℕ → Exec EchoSession
new_echo_session uuid head_flag close_flag server = do
  node ← plain_node (pos head_length)
  done (record {
    uuid = uuid;
    reader = record { b_head_parse = head_flag; recv_head_node = node; recv_msg_node = none };
    sender = new_sender;
    socket_open = true;
    b_close = close_flag;
    server = server;
    reading = false;
  })

unfoldable pub start_echo : EchoSession → EchoSession
start_echo w = record w { reading = true }

unfoldable pub close_echo : EchoSession → EchoSession
close_echo w = record w { socket_open = false; b_close = true }

unfoldable pub clear_echo : EchoSession → EchoSession
clear_echo w = record w { server = clear_session w.server w.uuid }

unfoldable pub after_echo_bytes : EchoSession → Outcome Sender → Exec EchoSession
unfolding clear_echo
after_echo_bytes w (reading r s) = done (record w { reader = r; sender = s; reading = true })
after_echo_bytes w (cleared r s) =
    done (clear_echo (record w { reader = r; sender = s; reading = false }))
after_echo_bytes w (idle r s) = done (record w { reader = r; sender = s; reading = false })
after_echo_bytes w out_of_fuel = undefined

module _ (host : Host) (codec : MsgData) where
  -- HandleRead, lines 91-227.
  unfoldable pub handle_echo_read : Bool → Bytes → ℕ → EchoSession → Exec EchoSession
  unfolding after_echo_bytes close_echo clear_echo
  handle_echo_read error buffer bytes_transferred w =
      if error then done (clear_echo (close_echo (record w { reading = false }))) else (do
        o ← handle_bytes (echo_protocol host codec) buffer w.reader bytes_transferred w.sender
        after_echo_bytes w o)

-- HandleWrite, lines 69-89.
unfoldable pub handle_echo_write : Bool → EchoSession → Exec EchoSession
unfolding clear_echo
handle_echo_write error w = do
  s ← Sender.handle_write error w.sender
  done (if error then clear_echo (record w { sender = s }) else record w { sender = s })
