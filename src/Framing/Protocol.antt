-- ===== src/Framing/Protocol.antt =====
-- What the HandleRead loops of the servers differ in: the header, the constructor of the message
-- node, and what is done with a complete message.
use asio_network.Base.{ℕ, ◌<◌, ◌≡◌, Option, [], ◌∷◌, ◌++◌, length, replicate}
use asio_network.Base.Int.{ℤ, pos}
use asio_network.Wire.Memory.{Bytes}
use asio_network.Wire.Exec.{Exec, done}
use asio_network.Wire.Node.{MsgNode}

-- What a complete header says: it is refused, or a message of this id and length follows. Both
-- numbers are bit patterns of `short`s.
pub data Header : Type 0 where
  invalid : Header
  announce : (id len : ℕ) → Header

-- A node that holds `payload`, complete.
abbrev pub full_node : Bytes → MsgNode
full_node payload = record {
  block = payload ++ (0 ∷ []);
  total_len = pos (length payload);
  cur_len = length payload;
}

-- `X` is the state that complete messages act on.
pub record Protocol (X : Type 0) : Type 0 where
  pub head_len : ℕ
  pub head_pos : 0 < head_len
  -- The header, from the block of the header node; `none` is a read outside the block.
  pub header : Bytes → Option Header
  pub new_node : ℤ → Exec MsgNode
  -- What the code does with a complete node, and what that means for its payload.
  pub deliver_node : ℕ → MsgNode → X → Exec X
  pub deliver : ℕ → Bytes → X → Exec X
  -- The header is in the first `head_len` bytes.
  pub header_front :
      (front rest : Bytes) → length front ≡ head_len → header (front ++ rest) ≡ header front
  pub new_node_lem :
      (n : ℕ)
      → new_node (pos n)
        ≡ done (record { block = replicate n 0 ++ (0 ∷ []); total_len = pos n; cur_len = 0 })
  pub deliver_lem :
      (id : ℕ) (payload : Bytes) (x : X)
      → deliver_node id (full_node payload) x ≡ deliver id payload x
