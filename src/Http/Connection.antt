-- ===== src/Http/Connection.antt =====
-- The life of an http_connection of BeastHttpServer/BeastHttpServer.cpp: the read, the write and the
-- deadline, whose handlers keep it alive.
pub mod Lives
use asio_network.Base.{
  ℕ, ◌+◌, Bool, true, false, ◌&&◌, Option, none, some, List, [], ◌∷◌, ◌++◌, if◌then◌else◌,
}
use asio_network.Wire.Exec.{Exec, done, ◌>>=◌}
use asio_network.Http.{Request, Response, Rendering, Program, process_request}

-- The operations that are under way, what has become of the socket and the timer, every response
-- whose write has been started, and how many operations have ended.
pub record Connection : Type 0 where
  pub reading : Bool
  -- `_request`, once a read has filled it.
  pub request : Option Request
  pub writing : Option Response
  pub waiting : Bool
  -- `_deadline.cancel()` has been called.
  pub cancelled : Bool
  pub socket_open : Bool
  pub shut_down : Bool
  pub written : List Response
  pub ended : ℕ

-- How an operation ends. The wait ends without an error at the deadline, also where that is reached
-- just before it is cancelled, and with one only after it has been cancelled.
pub data HttpEvent : Type 0 where
  has_read : Request → HttpEvent
  read_fails : HttpEvent
  write_ends : (error : Bool) → HttpEvent
  expires : HttpEvent
  wait_fails : HttpEvent

-- start(), lines 34-37, with check_deadline and read_request.
unfoldable pub start_connection : Connection
start_connection = record {
  reading = true;
  request = none;
  writing = none;
  waiting = true;
  cancelled = false;
  socket_open = true;
  shut_down = false;
  written = [];
  ended = 0;
}

-- Lines 162-166: the handler of the write does not look at its error.
unfoldable pub after_write : Option Response → Connection → Connection
after_write none c = c
after_write (some r) c = record c {
  writing = none;
  shut_down = true;
  cancelled = true;
  ended = c.ended + 1;
}

-- Lines 50-54.
unfoldable pub after_wait : Bool → Connection → Connection
after_wait error c = record c {
  waiting = false;
  socket_open = if error then c.socket_open else false;
  ended = c.ended + 1;
}

module _ (render : Rendering) where
  -- Lines 59-65: process_request ends in write_response, which starts the write.
  unfoldable pub answer_request : Request → Connection → Program → Exec (Connection × Program)
  answer_request q c p = do
    rp ← process_request render q p
    done (
      record c {
        reading = false;
        writing = some rp.0;
        written = c.written ++ (rp.0 ∷ []);
        ended = c.ended + 1;
      },
      rp.1,
    )

  -- An event that does not fit what is under way cannot happen, and does nothing.
  unfoldable pub on_http : HttpEvent → Connection → Program → Exec (Connection × Program)
  unfolding answer_request after_write after_wait
  on_http (has_read q) c p =
      if c.reading then answer_request q (record c { request = some q }) p else done (c, p)
  on_http read_fails c p =
      done (if c.reading then record c { reading = false; ended = c.ended + 1 } else c, p)
  on_http (write_ends error) c p = done (after_write c.writing c, p)
  on_http expires c p = done (if c.waiting then after_wait false c else c, p)
  on_http wait_fails c p = done (if c.waiting && c.cancelled then after_wait true c else c, p)

  unfoldable pub run_http : List HttpEvent → Connection → Program → Exec (Connection × Program)
  run_http [] c p = done (c, p)
  run_http (e ∷ events) c p = on_http e c p >>= λ cp. run_http events cp.0 cp.1
