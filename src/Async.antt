-- ===== src/Async.antt =====
-- AsyncServer/Session.h and Session.cpp: a session that writes and reads as much as the socket takes
-- and gives at a time. Two of its bind expressions leave out the object; they are read as binding
-- `this`, as the others do.
pub mod Writes
pub mod Reads
use asio_network.Base.{
  ℕ, ◌+◌, ◌-◌, Bool, true, false, Option, none, some, List, [], ◌∷◌, ◌++◌, ltb, if◌then◌else◌,
  length, drop, replicate,
}
use asio_network.Wire.Memory.{Bytes, write_at}
use asio_network.Wire.Exec.{Exec, done, undefined, ◌>>=◌, defined}

-- RECVSIZE.
abbrev pub recvsize : ℕ
recvsize = 1024

-- MsgNode: no NUL is stored here. A length is taken to fit an `int`.
pub record PartNode : Type 0 where
  pub msg : Bytes
  pub total_len : ℕ
  pub cur_len : ℕ

-- MsgNode(const char*, int) and MsgNode(int), whose memory is not initialised: it is a parameter.
abbrev pub copy_node : Bytes → PartNode
copy_node buf = record { msg = buf; total_len = length buf; cur_len = 0 }

abbrev pub empty_node : Bytes → PartNode
empty_node memory = record { msg = memory; total_len = length memory; cur_len = 0 }

-- The handler that a write or a read is started with.
pub data Handler : Type 0 where
  write_callback write_all_callback read_callback read_all_callback : Handler

-- What a write refers to: the string that WriteToSocket was called with, which belongs to its caller
-- and held these bytes at the call, or bytes of a node of the queue, which nobody changes.
pub data Offered : Type 0 where
  of_string of_node : Bytes → Offered

-- The constructor is declared and nowhere defined.
pub record PartSession : Type 0 where
  pub send_queue : List PartNode
  pub send_pending : Bool
  pub recv_node : Option PartNode
  pub recv_pending : Bool
  -- The writes under way, as what the socket is offered, and the reads, as the room for bytes.
  pub writes : List (Offered × Handler)
  pub reads : List (ℕ × Handler)

-- `buffer(node->_msg + node->_cur_len, node->_total_len - node->_cur_len)`.
abbrev pub unsent : PartNode → Bytes
unsent node = drop node.cur_len node.msg

-- WriteToSocket, lines 21-32, and WriteAll2Socket, lines 34-45, by the handler that they bind. It is
-- read as bound to this session and called with the count, as it is on lines 62 and 101: as they stand,
-- lines 28 and 41 name no object, and cannot be compiled. `buffer(buf)` refers to the caller's string.
unfoldable pub write_buffer : Handler → Bytes → PartSession → PartSession
write_buffer handler buf s =
    let s' = record s { send_queue = s.send_queue ++ (copy_node buf ∷ []) } in
    if s.send_pending
    then s'
    else record s' { writes = s.writes ++ ((of_string buf, handler) ∷ []); send_pending = true }

abbrev pub write_to_socket : Bytes → PartSession → PartSession
write_to_socket = write_buffer write_callback

abbrev pub write_all_to_socket : Bytes → PartSession → PartSession
write_all_to_socket = write_buffer write_all_callback

-- Lines 68-80, and 91-104 in the same words: `pop()` has left this queue.
unfoldable pub after_pop : List PartNode → PartSession → PartSession
after_pop [] s = record s { send_queue = []; send_pending = false }
after_pop (node ∷ rest) s = record s {
  send_queue = node ∷ rest;
  writes = s.writes ++ ((of_node (unsent node), write_callback) ∷ []);
}

-- Lines 55-80, on the queue.
unfoldable pub advance_front : ℕ → List PartNode → PartSession → Exec PartSession
unfolding after_pop
advance_front n [] s = undefined
advance_front n (node ∷ rest) s =
    let node' = record node { cur_len = node.cur_len + n } in
    done (
      if ltb (node.cur_len + n) node.total_len
      then record s {
        send_queue = node' ∷ rest;
        writes = s.writes ++ ((of_node (unsent node'), write_callback) ∷ []);
      }
      else after_pop rest s)

-- WriteCallBack, lines 47-81.
unfoldable pub on_write : Bool → ℕ → PartSession → Exec PartSession
unfolding advance_front
on_write error n s = if error then done s else advance_front n s.send_queue s

-- Lines 91-104: `pop()` of an empty queue is undefined.
unfoldable pub pop_front : List PartNode → PartSession → Exec PartSession
unfolding after_pop
pop_front [] s = undefined
pop_front (node ∷ rest) s = done (after_pop rest s)

-- WriteAllCallBack, lines 83-105.
unfoldable pub on_write_all : Bool → ℕ → PartSession → Exec PartSession
unfolding pop_front
on_write_all error n s = if error then done s else pop_front s.send_queue s

-- ReadFromSocket, lines 107-118, and ReadAllFromSocket, lines 120-131. `memory` is what `new` finds.
unfoldable pub read_buffer : Handler → Bytes → PartSession → PartSession
read_buffer handler memory s = if s.recv_pending then s else record s {
  recv_node = some (empty_node memory);
  reads = s.reads ++ ((length memory, handler) ∷ []);
  recv_pending = true;
}

-- Lines 135-148, through the pointer `_recv_node`.
unfoldable pub advance_read : ℕ → Option PartNode → PartSession → Exec PartSession
advance_read n none s = undefined
advance_read n (some node) s =
    let node' = record node { cur_len = node.cur_len + n } in
    done (
      if ltb (node.cur_len + n) node.total_len
      then record s {
        recv_node = some node';
        reads = s.reads ++ ((node.total_len - (node.cur_len + n), read_callback) ∷ []);
      }
      else record s { recv_pending = false; recv_node = none })

-- ReadCallBack, lines 133-148, which does not look at the error.
unfoldable pub on_read : Bool → ℕ → PartSession → Exec PartSession
unfolding advance_read
on_read error n s = advance_read n s.recv_node s

-- ReadAllCallBack, lines 151-158.
unfoldable pub on_read_all : Bool → ℕ → PartSession → Exec PartSession
on_read_all error n s = elim s.recv_node [
  | none ↦ undefined
  | some node ↦ done (record s { recv_pending = false; recv_node = none })
]
