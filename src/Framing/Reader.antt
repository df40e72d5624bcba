-- ===== src/Framing/Reader.antt =====
-- The receiving half of a session and the loop of HandleRead over one chunk of the socket's bytes.
-- The loop is one text in CSession.cpp, AsyncEchoServer2/Session.cpp and JsonServer/Session.cpp,
-- up to what `Protocol` abstracts from; the comments name the lines of the first.
pub mod Shows
pub mod Window
pub mod Agrees
pub mod Refine
pub mod Loop
pub mod Chunks
use asio_network.Base.{
  ℕ, zero, suc, ◌+◌, ◌-◌, Bool, true, false, Option, none, some, ltb, ◌==◌, if◌then◌else◌,
}
use asio_network.Base.Int.{pos, signed16, to_size, minus_ℕ}
use asio_network.Wire.Memory.{Bytes, read_at}
use asio_network.Wire.Exec.{Exec, done, undefined, throws, ◌>>=◌, defined}
use asio_network.Wire.Node.{MsgNode, put_nul, clear, remaining, fill}
use asio_network.Framing.Protocol.{Protocol, Header, invalid, announce}

-- The node of a message, with its id.
pub record RecvNode : Type 0 where
  pub node : MsgNode
  pub msg_id : ℕ

pub record Reader : Type 0 where
  pub b_head_parse : Bool
  pub recv_head_node : MsgNode
  -- A null pointer is `none`.
  pub recv_msg_node : Option RecvNode

-- How HandleRead ends: it has armed the next `async_read_some`; it has called ClearSession; or it
-- has done neither, which is the case of no bytes at all.
pub data Outcome (X : Type 0) : Type 0 where
  reading : Reader → X → Outcome X
  cleared : Reader → X → Outcome X
  idle : Reader → X → Outcome X
  -- The model's own: the loop had more rounds than fuel.
  out_of_fuel : Outcome X

-- One round of the loop: HandleRead returns, or the loop goes on with `copy_len` and
-- `bytes_transferred`.
pub data Turn (X : Type 0) : Type 0 where
  ends : Outcome X → Turn X
  again : (copy_len bytes_transferred : ℕ) → Reader → X → Turn X

-- `memcpy(node->_data + node->_cur_len, _data + copy_len, n); node->_cur_len += n;`
unfoldable pub receive : Bytes → MsgNode → ℕ → ℕ → Exec MsgNode
receive buffer node copy_len n = do
  bytes ← defined (read_at buffer copy_len n)
  node' ← fill node bytes
  done (record node' { cur_len = node.cur_len + n })

module _ {X : Type 0} (P : Protocol X) (buffer : Bytes) where
  open P use {head_len, header, new_node, deliver_node}

  -- The message node is complete: store the NUL, hand it on, and go back to the header.
  unfoldable pub finish : Reader → RecvNode → ℕ → ℕ → X → Exec (Turn X)
  finish r m copy_len bytes_transferred x = do
    block ← put_nul m.node.block m.node.total_len
    let m' = record m { node = record (m.node) { block = block } }
    x' ← deliver_node m.msg_id (m'.node) x
    head ← clear r.recv_head_node
    let r' : Reader = record {
      b_head_parse = false;
      recv_head_node = head;
      recv_msg_node = some m';
    }
    done (
        if bytes_transferred == 0
        then ends (reading r' x')
        else again copy_len bytes_transferred r' x')

  -- Lines 124-144, and 146-177 once the header is behind: the rest of a message of which `want`
  -- bytes are missing.
  unfoldable pub message_part : Reader → RecvNode → ℕ → ℕ → ℕ → X → Exec (Turn X)
  unfolding receive finish
  message_part r m want copy_len bytes_transferred x =
      if ltb bytes_transferred want
      then (do
        node ← receive buffer m.node copy_len bytes_transferred
        done (
            ends (
              reading
                (record r { b_head_parse = true; recv_msg_node = some (record m { node = node }) })
                x)))
      else (do
        node ← receive buffer m.node copy_len want
        finish r (record m { node = node }) (copy_len + want) (bytes_transferred - want) x)

  -- Lines 90-144: the header is complete.
  unfoldable pub open_message : Reader → Header → ℕ → ℕ → X → Exec (Turn X)
  unfolding message_part
  open_message r invalid copy_len bytes_transferred x = done (ends (cleared r x))
  open_message r (announce id len) copy_len bytes_transferred x = do
    node ← new_node (signed16 len)
    message_part r (record { node = node; msg_id = id }) (to_size (signed16 len)) copy_len
        bytes_transferred x

  -- Lines 73-144.
  unfoldable pub head_part : Reader → ℕ → ℕ → X → Exec (Turn X)
  unfolding receive open_message
  head_part r copy_len bytes_transferred x =
      let want = to_size (minus_ℕ (pos head_len) r.recv_head_node.cur_len) in
      if ltb (r.recv_head_node.cur_len + bytes_transferred) head_len
      then (do
        node ← receive buffer r.recv_head_node copy_len bytes_transferred
        done (ends (reading (record r { recv_head_node = node }) x)))
      else (do
        bytes ← defined (read_at buffer copy_len want)
        node ← fill r.recv_head_node bytes
        h ← defined (header node.block)
        open_message (record r { recv_head_node = node }) h (copy_len + want)
            (bytes_transferred - want) x)

  -- Lines 146-177.
  unfoldable pub body_part : Reader → Option RecvNode → ℕ → ℕ → X → Exec (Turn X)
  unfolding message_part
  body_part r none copy_len bytes_transferred x = undefined
  body_part r (some m) copy_len bytes_transferred x =
      message_part r m (remaining m.node) copy_len bytes_transferred x

  -- The body of the loop.
  unfoldable pub turn : Reader → ℕ → ℕ → X → Exec (Turn X)
  unfolding head_part body_part
  turn r copy_len bytes_transferred x =
      if r.b_head_parse
      then body_part r r.recv_msg_node copy_len bytes_transferred x
      else head_part r copy_len bytes_transferred x

  -- `while (bytes_transferred > 0)`.
  unfoldable pub read_loop : ℕ → Reader → ℕ → ℕ → X → Exec (Outcome X)
  unfolding turn
  read_loop zero r copy_len bytes_transferred x =
      done (if bytes_transferred == 0 then idle r x else out_of_fuel)
  read_loop (suc fuel) r copy_len bytes_transferred x = elim (bytes_transferred == 0) [
    | true ↦ done (idle r x)
    | false ↦ turn r copy_len bytes_transferred x >>= λ t. elim t [
      | ends o ↦ done o
      | again c n r' x' ↦ read_loop fuel r' c n x'
    ]
  ]

  -- Each round takes a byte at least.
  unfoldable pub handle_bytes : Reader → ℕ → X → Exec (Outcome X)
  unfolding read_loop
  handle_bytes r bytes_transferred x = read_loop bytes_transferred r 0 bytes_transferred x
