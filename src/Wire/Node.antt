-- ===== src/Wire/Node.antt =====
-- The message nodes of MsgNode.cpp, and those of AsyncEchoServer2/Session.cpp and
-- JsonServer/Session.cpp, which differ in their header.
pub mod Laws
use asio_network.Base.{ℕ, ◌+◌, ◌≡◌, List, [], ◌∷◌, replicate}
use asio_network.Base.Int.{ℤ, pos, negsuc, signed16, to_size, add_ℕ, minus_ℕ}
use asio_network.Wire.Memory.{Bytes, write_at, read_at}
use asio_network.Wire.Host.{Host, bytes_of_short}
use asio_network.Wire.Exec.{Exec, done, undefined, throws, ◌>>=◌, defined}

-- `block` is what `_data` (or `_msg`) points to.
pub record MsgNode : Type 0 where
  pub block : Bytes
  pub total_len : ℤ
  pub cur_len : ℕ

-- `new char[n]()`: zeroed, and `std::bad_array_new_length` for a negative n.
unfoldable pub new_array : ℤ → Exec Bytes
new_array (pos n) = done (replicate n 0)
new_array (negsuc n) = throws

-- `block[i] = '\0'`.
unfoldable pub put_nul : Bytes → ℤ → Exec Bytes
put_nul block (pos i) = defined (write_at block i (0 ∷ []))
put_nul block (negsuc i) = undefined

-- The constructor of MsgNode.cpp, which stores a final NUL.
unfoldable pub msg_node : ℤ → Exec MsgNode
unfolding new_array put_nul
msg_node total_len = do
  block ← new_array (add_ℕ total_len 1)
  block ← put_nul block total_len
  done (record { block = block; total_len = total_len; cur_len = 0 })

-- That of AsyncEchoServer2 and JsonServer, which stores none.
unfoldable pub plain_node : ℤ → Exec MsgNode
unfolding new_array
plain_node total_len = do
  block ← new_array (add_ℕ total_len 1)
  done (record { block = block; total_len = total_len; cur_len = 0 })

-- `memset(_data, '\0', _total_len); _cur_len = 0;`
unfoldable pub clear_block : Bytes → ℤ → Exec Bytes
clear_block block (pos n) = defined (write_at block 0 (replicate n 0))
clear_block block (negsuc n) = undefined

unfoldable pub clear : MsgNode → Exec MsgNode
unfolding clear_block
clear node = do
  block ← clear_block node.block node.total_len
  done (record node { block = block; cur_len = 0 })

-- `_total_len - _cur_len` where it is compared with a `size_t`.
abbrev pub remaining : MsgNode → ℕ
remaining node = to_size (minus_ℕ node.total_len node.cur_len)

-- `memcpy(_data + _cur_len, bytes, n)`.
unfoldable pub fill : MsgNode → Bytes → Exec MsgNode
fill node bytes = do
  block ← defined (write_at node.block node.cur_len bytes)
  done (record node { block = block })

-- HEAD_ID_LEN, HEAD_DATA_LEN and HEAD_TOTAL_LEN of MsgNode.h.
abbrev pub head_id_len : ℕ
head_id_len = 2

abbrev pub head_data_len : ℕ
head_data_len = 2

abbrev pub head_total_len : ℕ
head_total_len = 4

-- HEAD_LENGTH of AsyncEchoServer2 and JsonServer.
abbrev pub head_length : ℕ
head_length = 2

module _ (host : Host) where
  -- SendNode: id, length and payload. `max_len` and `msg_id` are bit patterns of `short`s, and
  -- `msg` is what may be read behind the pointer.
  unfoldable pub send_node : Bytes → ℕ → ℕ → Exec MsgNode
  send_node msg max_len msg_id = do
    node ← msg_node (add_ℕ (signed16 max_len) head_total_len)
    block ← defined (write_at node.block 0 (bytes_of_short host msg_id))
    block ← defined (write_at block head_id_len (bytes_of_short host max_len))
    payload ← defined (read_at msg 0 (to_size (signed16 max_len)))
    block ← defined (write_at block (head_id_len + head_data_len) payload)
    block ← put_nul block node.total_len
    done (record node { block = block })

  -- MsgNode(const char*, short) of AsyncEchoServer2 and JsonServer: length and payload.
  unfoldable pub length_node : Bytes → ℕ → Exec MsgNode
  length_node msg total_len = do
    node ← plain_node (add_ℕ (signed16 total_len) head_length)
    block ← defined (write_at node.block 0 (bytes_of_short host total_len))
    payload ← defined (read_at msg 0 (to_size (signed16 total_len)))
    block ← defined (write_at block head_length payload)
    block ← put_nul block node.total_len
    done (record node { block = block })
