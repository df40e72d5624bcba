-- ===== src/Async/Writes.antt =====
-- The bytes that WriteToSocket and WriteCallBack put on the wire, however little the socket takes.
pub mod Keeps
pub mod Silence
use asio_network.Base.{
  ℕ, ◌+◌, ◌≤◌, ◌≡◌, refl, sym, ap, ◌∙◌, inl, inr, Bool, true, false, List, [], ◌∷◌, ◌++◌,
  append_assoc, append-nil, arith, ltb, if◌then◌else◌, length, take, drop, length-take, length-drop,
  drop-length, take-append-drop_taken, drop-drop, Bool-cases, ltb→le,
}
use asio_network.Wire.Memory.{Bytes}
use asio_network.Wire.Exec.{Exec, done, undefined, ◌>>=◌}
use asio_network.Framing.Reader.Chunks.{joined}
use asio_network.Async.{
  Option, Offered, of_string, of_node, PartNode, copy_node, PartSession, Handler, write_callback,
  write_all_callback, read_callback, read_all_callback, write_buffer, write_to_socket, unsent,
  after_pop, advance_front, on_write, on_write_all,
}

-- What a caller's string of these bytes holds when the socket reads it: the string may have been
-- changed, or be gone, and then reading it is undefined.
abbrev pub Held : Type 0
Held = Bytes → Exec Bytes

-- What can happen: somebody calls WriteToSocket; the socket takes at most so many of the bytes that
-- the write refers to, as they are by then; or the write under way fails.
pub data Happens : Type 0 where
  says : Bytes → Happens
  takes : Held → ℕ → Happens
  fails : Happens

-- A session, all that WriteToSocket has been given, and what the socket has taken.
pub record Traffic : Type 0 where
  pub session : PartSession
  pub accepted : Bytes
  pub sent : Bytes

-- The handler of a write; the others are not bound to writes.
unfoldable pub run_handler : Handler → Bool → ℕ → PartSession → Exec PartSession
run_handler write_callback error n s = on_write error n s
run_handler write_all_callback error n s = on_write_all error n s
run_handler read_callback error n s = undefined
run_handler read_all_callback error n s = undefined

unfoldable pub now_holds : Held → Offered → Exec Bytes
now_holds held (of_string buf) = held buf
now_holds held (of_node bytes) = done bytes

-- The write under way ends, with an error or with as many bytes taken as there are up to `n`.
unfoldable pub end_write : Bool → Held → ℕ → List (Offered × Handler) → Traffic → Exec Traffic
unfolding run_handler now_holds
end_write error held n [] t = done t
end_write error held n ((offered, handler) ∷ flight) t =
    (if error then done [] else now_holds held offered) >>= λ bytes.
    let taken = take n bytes in
    run_handler handler error (length taken) (record (t.session) { writes = flight }) >>= λ s.
    done (record t { session = s; sent = t.sent ++ taken })

unfoldable pub happen : Happens → Traffic → Exec Traffic
unfolding end_write
happen (says buf) t =
    done (record t { session = write_to_socket buf t.session; accepted = t.accepted ++ buf })
happen (takes held n) t = end_write false held n t.session.writes t
happen fails t = end_write true done 0 t.session.writes t

unfoldable pub all_happen : List Happens → Traffic → Exec Traffic
all_happen [] t = done t
all_happen (h ∷ hs) t = happen h t >>= λ t'. all_happen hs t'

abbrev pub nodes : List Bytes → List PartNode
nodes [] = []
nodes (buf ∷ bufs) = copy_node buf ∷ nodes bufs

-- A string of a caller that is written keeps its bytes.
abbrev pub IsKept : Happens → Type 0
IsKept (takes held n) = (buf : Bytes) → held buf ≡ done buf
IsKept _ = Unit

-- The bytes that a write referred to when it was started.
abbrev pub offered_bytes : Offered → Bytes
offered_bytes (of_string buf) = buf
offered_bytes (of_node bytes) = bytes

-- Nothing is queued and no write under way; or one write is, of the rest of the front; or a write
-- has failed, and none is under way.
pub data Streams (t : Traffic) : Type 0 where
  is_idle :
      t.session.send_queue ≡ []
      → t.session.send_pending ≡ false
      → t.session.writes ≡ []
      → t.sent ≡ t.accepted
      → Streams t
  is_writing :
      (offered : Offered) (node : PartNode) (rest : List Bytes)
      → t.session.send_queue ≡ node ∷ nodes rest
      → t.session.send_pending ≡ true
      → t.session.writes ≡ (offered, write_callback) ∷ []
      → offered_bytes offered ≡ unsent node
      → node.total_len ≡ length node.msg
      → node.cur_len ≤ node.total_len
      → t.sent ++ (unsent node ++ joined rest) ≡ t.accepted
      → Streams t
  is_silent :
      (lost : Bytes)
      → t.session.send_pending ≡ true
      → t.session.writes ≡ []
      → t.sent ++ lost ≡ t.accepted
      → Streams t
