-- ===== src/Sender.antt =====
-- The sending half of a session: the queue behind Send and HandleWrite, one text in CSession.cpp,
-- AsyncEchoServer2/Session.cpp and JsonServer/Session.cpp up to the node that Send builds. Every
-- handler holds `_send_lock` while it runs, so that each is one step.
pub mod Order
use asio_network.Base.{ℕ, Bool, true, false, List, [], ◌∷◌, ◌++◌, ltb, if◌then◌else◌, length}
use asio_network.Base.Int.{to_size}
use asio_network.Wire.Memory.{Bytes, read_at}
use asio_network.Wire.Exec.{Exec, done, undefined, ◌>>=◌, defined}
use asio_network.Wire.Node.{MsgNode}

-- MAX_SENDQUE_SIZE, and MAX_QUESIZE of the other two.
abbrev pub max_sendque_size : ℕ
max_sendque_size = 1024

pub record Sender : Type 0 where
  pub send_queue : List MsgNode
  -- The buffers of the `async_send`s that have been started and whose handlers have not run.
  pub in_flight : List Bytes
  -- ClearSession has been called.
  pub cleared : Bool

-- `async_send(buffer(node->_data, node->_total_len), HandleWrite)`.
unfoldable pub async_send : Sender → MsgNode → Exec Sender
async_send s node = do
  bytes ← defined (read_at node.block 0 (to_size node.total_len))
  done (record s { in_flight = s.in_flight ++ (bytes ∷ []) })

-- Start on the front of the queue, which is there.
unfoldable pub start_front : Sender → List MsgNode → Exec Sender
unfolding async_send
start_front s [] = undefined
start_front s (node ∷ rest) = async_send s node

-- Send, lines 188-208: `make` is the construction of the node, which comes after the test.
unfoldable pub send : Exec MsgNode → Sender → Exec Sender
unfolding start_front
send make s =
    let send_queue_size = length s.send_queue in
    if ltb max_sendque_size send_queue_size then done s else (do
      node ← make
      let s' = record s { send_queue = s.send_queue ++ (node ∷ []) }
      if ltb 0 send_queue_size then done s' else start_front s' s'.send_queue)

-- HandleWrite on success: `pop()`, undefined on an empty queue, and on to the next node.
unfoldable pub pop_and_start : Sender → List MsgNode → Exec Sender
unfolding start_front
pop_and_start s [] = undefined
pop_and_start s (node ∷ []) = done (record s { send_queue = [] })
pop_and_start s (node ∷ next ∷ rest) =
    let s' = record s { send_queue = next ∷ rest } in start_front s' s'.send_queue

-- HandleWrite, lines 45-65.
unfoldable pub handle_write : Bool → Sender → Exec Sender
unfolding pop_and_start
handle_write error s =
    if error then done (record s { cleared = true }) else pop_and_start s s.send_queue

abbrev pub new_sender : Sender
new_sender = record { send_queue = []; in_flight = []; cleared = false }
