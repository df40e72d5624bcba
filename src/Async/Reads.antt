-- ===== src/Async/Reads.antt =====
-- What ReadFromSocket and ReadCallBack make of the socket's bytes.
use asio_network.Base.{
  ℕ, ◌+◌, ◌-◌, ◌≤◌, ◌≡◌, refl, ap, ◌∙◌, inl, inr, Bool, false, Option, none, some, List, [], ◌∷◌,
  ◌++◌, arith, ltb, length, length-append, take, length-take, Bool-cases, ltb→le,
}
use asio_network.Wire.Memory.{
  Bytes, write_at, write_at-inside, written, length-written, take-written,
}
use asio_network.Wire.Exec.{Exec, done, undefined, ◌>>=◌, defined}
use asio_network.Async.{
  Offered, PartNode, PartSession, Handler, write_callback, write_all_callback, read_callback,
  read_all_callback, advance_read, on_read, on_read_all, read_buffer, empty_node,
}

-- The socket's bytes are in the node before the handler runs.
unfoldable pub store : Bytes → Option PartNode → Exec (Option PartNode)
store bytes none = undefined
store bytes (some node) = do
  block ← defined (write_at node.msg node.cur_len bytes)
  done (some (record node { msg = block }))

unfoldable pub run_read : Handler → Bool → ℕ → PartSession → Exec PartSession
run_read read_callback error n s = on_read error n s
run_read read_all_callback error n s = on_read_all error n s
run_read write_callback error n s = undefined
run_read write_all_callback error n s = undefined

-- The read under way ends with as many of these bytes as there is room for, and perhaps an error.
unfoldable pub end_read : Bool → Bytes → List (ℕ × Handler) → PartSession → Exec PartSession
unfolding store run_read
end_read error bytes [] s = done s
end_read error bytes ((room, handler) ∷ flight) s = do
  node ← store (take room bytes) s.recv_node
  run_read handler error (length (take room bytes)) (record s { recv_node = node; reads = flight })

-- A session, and all that the socket has given it. An event is the end of a read.
abbrev pub Ended : Type 0
Ended = Bool × Bytes

abbrev pub given : List (ℕ × Handler) → Bytes → Bytes
given [] bytes = []
given ((room, handler) ∷ flight) bytes = take room bytes

unfoldable pub end_reads : List Ended → PartSession → Bytes → Exec (PartSession × Bytes)
end_reads [] s received = done (s, received)
end_reads ((error, bytes) ∷ ends) s received =
    end_read error bytes s.reads s >>= λ s'. end_reads ends s' (received ++ given s.reads bytes)

-- A read for `size` bytes: its node starts with what has been received, and the one read under way
-- has the room that is left; or the node was filled and dropped.
pub data Fills (size : ℕ) (s : PartSession) (received : Bytes) : Type 0 where
  is_filling :
      (node : PartNode)
      → s.recv_node ≡ some node
      → s.reads ≡ (node.total_len - node.cur_len, read_callback) ∷ []
      → node.total_len ≡ size
      → length node.msg ≡ size
      → node.cur_len ≡ length received
      → node.cur_len ≤ size
      → take node.cur_len node.msg ≡ received
      → Fills size s received
  is_filled :
      s.recv_node ≡ none
      → s.reads ≡ []
      → s.recv_pending ≡ false
      → length received ≡ size
      → Fills size s received

module _ (size : ℕ) (queue : List PartNode) (send_pending recv_pending : Bool)
    (writes : List (Offered × Handler)) where
  abbrev state : Option PartNode → List (ℕ × Handler) → PartSession
  state node reads = record {
    send_queue = queue;
    send_pending = send_pending;
    recv_node = node;
    recv_pending = recv_pending;
    writes = writes;
    reads = reads;
  }

  ends-filling :
      (error : Bool) (bytes received : Bytes) (node : PartNode)
      → node.total_len ≡ size
      → length node.msg ≡ size
      → node.cur_len ≡ length received
      → node.cur_len ≤ size
      → take node.cur_len node.msg ≡ received
      → let room = node.total_len - node.cur_len in
        (s' : PartSession) × (end_read error bytes
            ((room, read_callback) ∷ [])
            (state (some node) ((room, read_callback) ∷ []))
          ≡ done s')
        × Fills size s' (received ++ take room bytes)
  unfolding end_read on_read advance_read
  ends-filling error bytes received node total len cur fits same =
      let got : Bytes = take (node.total_len - node.cur_len) bytes in
      let inside : node.cur_len + length got ≤ length node.msg =
        omega (arith, length-take (node.total_len - node.cur_len) bytes) in
      rw (write_at-inside node.msg node.cur_len got inside)
        (elim (Bool-cases (ltb (node.cur_len + length got) node.total_len)) [
          | inl more ↦ rw more (
            _,
            refl,
            is_filling
                (record node {
                  msg = written node.msg node.cur_len got;
                  cur_len = node.cur_len + length got;
                })
                refl refl total (length-written node.msg node.cur_len got inside ∙ len)
                (omega (arith, cur, length-append received got)) (omega (arith, inside))
                (take-written node.msg node.cur_len got (node.cur_len + length got) inside refl
                  ∙ ap (λ (bs : Bytes). bs ++ got) same),
          )
          | inr over ↦ rw over (
            _,
            refl,
            is_filled refl refl refl
                (omega (arith, inside, ltb→le _ _ over, length-append received got)),
          )
        ])

  ends_parts :
      (error : Bool) (bytes received : Bytes) (n : Option PartNode) (r : List (ℕ × Handler))
      → Fills size (state n r) received
      → (s' : PartSession) × (end_read error bytes r (state n r) ≡ done s')
        × Fills size s' (received ++ given r bytes)
  unfolding end_read
  ends_parts error bytes received n r (is_filling node en er total len cur fits same) =
      rw (en, er) (ends-filling error bytes received node total len cur fits same)
  ends_parts error bytes received n r (is_filled en er ep all) =
      rw (en, er) (_, refl, is_filled refl refl ep (omega (arith, all, length-append received [])))

end_reads-Fills :
    (size : ℕ) (ends : List Ended) (s : PartSession) (received : Bytes)
    → Fills size s received
    → (s' : PartSession) × (received' : Bytes) × (end_reads ends s received ≡ done (s', received'))
      × Fills size s' received'
unfolding end_reads
end_reads-Fills size [] s received v = (s, received, refl, v)
end_reads-Fills size ((error, bytes) ∷ ends) s received v =
    let (s1, e, v1) =
      ends_parts size s.send_queue s.send_pending s.recv_pending s.writes error bytes received
        s.recv_node s.reads v in
    let (s2, r2, e', v2) = end_reads-Fills size ends s1 (received ++ given s.reads bytes) v1 in
    (s2, r2, rw e e', v2)

starts_parts :
    (memory : Bytes) (s : PartSession) (p : Bool) (r : List (ℕ × Handler))
    → p ≡ false
    → r ≡ []
    → Fills
        (length memory)
        (read_buffer read_callback memory (record s { recv_pending = p; reads = r }))
        []
unfolding read_buffer
starts_parts memory s p r pending none_left =
    rw (pending, none_left)
      (is_filling (empty_node memory) refl (ap (λ (k : ℕ). (k, read_callback) ∷ []) room) refl refl
        refl (omega arith) refl)
  where
    room : length memory ≡ length memory - 0
    room = omega arith

-- ReadFromSocket of a session that reads nothing, with the memory of its node: however the socket
-- cuts its bytes and whatever errors it reports, the reads never leave the node. There is one read
-- under way, for exactly the room that is left behind the bytes received so far, until the node has
-- been filled exactly; an error does not end it.
pub read_from_socket-Fills :
    (ends : List Ended) (memory : Bytes) (s : PartSession)
    → s.recv_pending ≡ false
    → s.reads ≡ []
    → (s' : PartSession) × (received : Bytes) × (end_reads ends
          (read_buffer read_callback memory s)
          []
        ≡ done (s', received))
      × Fills (length memory) s' received
read_from_socket-Fills ends memory s pending none_left =
    end_reads-Fills (length memory) ends (read_buffer read_callback memory s) []
      (starts_parts memory s s.recv_pending s.reads pending none_left)
