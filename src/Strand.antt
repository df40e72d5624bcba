-- ===== src/Strand.antt =====
-- The receiving half of a session of IOThreadPoolServer (IOThreadPoolServer/CSession.cpp). Handlers may
-- be run by several threads; a session binds its own to a strand, which runs them one after the other.
-- Between two steps of a handler anything else may happen, a completion of the read that this same
-- handler has armed included.
pub mod Follows
pub mod Queued
pub mod Keeps
pub mod Leaves
pub mod Posts
pub mod Shared
use asio_network.Base.{
  ℕ, ◌+◌, Bool, true, false, ◌&&◌, List, [], ◌∷◌, ◌++◌, ltb, ◌==◌, if◌then◌else◌, length, take,
  drop,
}
use asio_network.Wire.Memory.{Bytes}
use asio_network.Wire.Host.{Host}
use asio_network.Wire.Exec.{Exec, done, undefined, ◌>>=◌}
use asio_network.Framing.Reader.{
  Reader, reading, cleared, idle, out_of_fuel, Turn, ends, again, turn,
}
use asio_network.Framing.Reader.Loop.{received_in}
use asio_network.Logic.{LogicSystem}
use asio_network.Session.{csession_protocol}
use asio_network.Session.Format.{max_length}

-- What `bind_executor(_strand, ...)` queues when an operation completes. Of HandleWrite, whose effect
-- is Sender's, there is here that it takes its turn.
pub data Handler : Type 0 where
  read_done : (error : Bool) → Bytes → Handler
  write_done : Handler

-- What the strand's handler is about to do.
pub data Running : Type 0 where
  nobody : Running
  -- The test of the loop, with HandleRead's `copy_len` and `bytes_transferred`.
  in_loop : (buffer : Bytes) (copy_len bytes_transferred : ℕ) → Running
  -- The next read is armed, and `_b_head_parse` has still to get its value (lines 116-121).
  leaving : Bool → Running
  failing : Running
  writing : Running

pub record Stranded : Type 0 where
  pub reader : Reader
  -- The logic system, as far as this session posts to it.
  pub logic : LogicSystem
  -- What the peer has sent and no read has taken.
  pub incoming : Bytes
  pub read_armed : Bool
  pub strand : List Handler
  pub running : Running
  pub socket_open : Bool
  -- ClearSession has been called.
  pub is_cleared : Bool

-- The read takes up to `n` bytes; it fails; a write ends; a thread of the pool takes the front of the
-- strand; the running handler takes a step.
pub data Event : Type 0 where
  gives : ℕ → Event
  breaks : Event
  write_ends : Event
  dispatches : Event
  goes_on : Event

-- A read takes at least a byte.
unfoldable pub give : Bytes → Bytes → Stranded → Stranded
give [] rest s = s
give (b ∷ bytes) rest s = record s {
  incoming = rest;
  read_armed = false;
  strand = s.strand ++ (read_done false (b ∷ bytes) ∷ []);
}

unfoldable pub dispatch_front : Running → List Handler → Stranded → Stranded
dispatch_front nobody [] s = s
dispatch_front nobody (read_done false chunk ∷ rest) s = record s {
  strand = rest;
  running = in_loop (received_in max_length chunk) 0 (length chunk);
}
dispatch_front nobody (read_done true chunk ∷ rest) s = record s {
  strand = rest;
  running = failing;
}
dispatch_front nobody (write_done ∷ rest) s = record s { strand = rest; running = writing }
dispatch_front (in_loop buffer c n) q s = s
dispatch_front (leaving flag) q s = s
dispatch_front failing q s = s
dispatch_front writing q s = s

-- After a round. Where HandleRead sets `_b_head_parse`, it has armed the read before; where it resets
-- it, it arms the read after. A round by itself does not run out of fuel.
unfoldable pub after_turn : Bytes → Stranded → Turn LogicSystem → Exec Stranded
after_turn buffer s (ends (reading r logic)) = done (record s {
  reader = record r { b_head_parse = r.b_head_parse && s.reader.b_head_parse };
  logic = logic;
  read_armed = true;
  running = leaving r.b_head_parse;
})
after_turn buffer s (ends (cleared r logic)) =
    done (record s { reader = r; logic = logic; running = nobody; is_cleared = true })
after_turn buffer s (ends (idle r logic)) =
    done (record s { reader = r; logic = logic; running = nobody })
after_turn buffer s (ends out_of_fuel) = undefined
after_turn buffer s (again c n r logic) =
    done (record s { reader = r; logic = logic; running = in_loop buffer c n })

module _ (host : Host) (uuid : ℕ) where
  -- HandleRead, lines 67-186, a step at a time: the loop's test and a round, the end of the handler,
  -- or, on an error, `Close()` and `ClearSession(_uuid)`.
  unfoldable pub strand_step : Running → Stranded → Exec Stranded
  unfolding after_turn
  strand_step nobody s = done s
  strand_step (in_loop buffer c n) s = elim (n == 0) [
    | true ↦ done (record s { running = nobody })
    | false ↦ turn (csession_protocol host uuid) buffer s.reader c n s.logic >>= λ t.
        after_turn buffer s t
  ]
  strand_step (leaving flag) s =
      done (record s { reader = record (s.reader) { b_head_parse = flag }; running = nobody })
  strand_step failing s =
      done (record s { socket_open = false; is_cleared = true; running = nobody })
  strand_step writing s = done (record s { running = nobody })

  unfoldable pub on_strand : Event → Stranded → Exec Stranded
  unfolding strand_step give dispatch_front
  on_strand (gives n) s =
      let k = if ltb max_length n then max_length else n in
      done (if s.read_armed then give (take k s.incoming) (drop k s.incoming) s else s)
  on_strand breaks s = done (
      if s.read_armed
      then record s { read_armed = false; strand = s.strand ++ (read_done true [] ∷ []) }
      else s)
  on_strand write_ends s = done (record s { strand = s.strand ++ (write_done ∷ []) })
  on_strand dispatches s = done (dispatch_front s.running s.strand s)
  on_strand goes_on s = strand_step s.running s

  unfoldable pub run_strand : List Event → Stranded → Exec Stranded
  run_strand [] s = done s
  run_strand (e ∷ events) s = on_strand e s >>= λ s'. run_strand events s'

-- How many steps of its own a handler has at most still to take.
unfoldable pub steps_left : Running → ℕ
steps_left nobody = 0
steps_left (in_loop buffer c n) = n + 1
steps_left (leaving flag) = 1
steps_left failing = 1
steps_left writing = 1

-- `Start()` of a session, lines 33-39, whose `_b_head_parse` is as it should be.
unfoldable pub start_on_strand : Reader → LogicSystem → Bytes → Stranded
start_on_strand reader logic incoming = record {
  reader = reader;
  logic = logic;
  incoming = incoming;
  read_armed = true;
  strand = [];
  running = nobody;
  socket_open = true;
  is_cleared = false;
}
