-- ===== src/Service.antt =====
-- IOThreadPoolServer as a whole: the receiving halves of the sessions on their strands and the worker
-- (Fleet), the callback of the worker, and the sending halves, whose HandleWrite takes its turn on the
-- strand (IOThreadPoolServer/CSession.cpp and LogicSystem.cpp).
pub mod Waits
pub mod Begun
pub mod Questions
pub mod Writing
pub mod Answered
pub mod Serves
pub mod Runs
pub mod Clients
use asio_network.Base.{
  ℕ, ◌+◌, Bool, true, false, List, [], ◌∷◌, ◌++◌, ltb, ◌==◌, if◌then◌else◌, length,
}
use asio_network.Wire.Memory.{Bytes}
use asio_network.Wire.Host.{Host}
use asio_network.Wire.Exec.{Exec, done, undefined, ◌>>=◌}
use asio_network.Framing.Reader.{Reader}
use asio_network.Logic.{LogicNode, register_callbacks, deal_front}
use asio_network.Sender
use asio_network.Session.{CSession}
use asio_network.Session.Hello.{JsonText, Sessions, with_session, hello_world_callback}
use asio_network.Strand.{
  Event, gives, breaks, write_ends, dispatches, goes_on, Handler, read_done, write_done, Running,
  nobody, in_loop, leaving, failing, writing, Stranded,
}
use asio_network.Fleet.{Fleet, FleetEvent, at_session, take_front, on_fleet, start_fleet}

-- `sessions` are the sending halves, and `sent` what the completed writes have put on the wire.
pub record Service : Type 0 where
  pub fleet : Fleet
  pub sessions : Sessions
  pub sent : ℕ → Bytes

-- Something happens to a session, or the worker takes the front of its queue.
pub data ServiceEvent : Type 0 where
  session_event : ℕ → Event → ServiceEvent
  worker_deals : ServiceEvent

-- The completions of writes among the handlers that are queued or running.
abbrev pub writes_in : List Handler → ℕ
writes_in [] = 0
writes_in (read_done error chunk ∷ q) = writes_in q
writes_in (write_done ∷ q) = writes_in q + 1

abbrev pub writes_now : Running → ℕ
writes_now writing = 1
writes_now nobody = 0
writes_now (in_loop buffer c n) = 0
writes_now (leaving flag) = 0
writes_now failing = 0

abbrev pub writes_waiting : Stranded → ℕ
writes_waiting s = writes_in s.strand + writes_now s.running

abbrev pub sent_more : (ℕ → Bytes) → ℕ → Bytes → ℕ → Bytes
sent_more sent k bytes j = if k == j then sent j ++ bytes else sent j

-- HandleWrite without an error, lines 45-58: its write is the first that is under way.
unfoldable pub end_first_write : ℕ → List Bytes → Service → Exec Service
end_first_write k [] w = undefined
end_first_write k (bytes ∷ flight) w = do
  s ← Sender.handle_write false (record ((w.sessions k).sender) { in_flight = flight })
  done (record w {
    sessions = with_session w.sessions k (record (w.sessions k) { sender = s });
    sent = sent_more w.sent k bytes;
  })

-- What the running handler does to the sending half.
unfoldable pub handler_writes : Running → ℕ → Service → Exec Service
unfolding end_first_write
handler_writes writing k w = end_first_write k ((w.sessions k).sender).in_flight w
handler_writes nobody k w = done w
handler_writes (in_loop buffer c n) k w = done w
handler_writes (leaving flag) k w = done w
handler_writes failing k w = done w

module _ (host : Host) where
  unfoldable pub receiving_half : ℕ → Event → Service → Exec Service
  receiving_half k e w = do
    fleet ← on_fleet host (at_session k e) w.fleet
    done (record w { fleet = fleet })

  -- A write ends where one is under way whose completion is not queued yet.
  unfoldable pub on_session : ℕ → Event → Service → Exec Service
  unfolding handler_writes receiving_half
  on_session k write_ends w =
      if ltb (writes_waiting (w.fleet.sessions k)) (length ((w.sessions k).sender).in_flight)
      then receiving_half k write_ends w
      else done w
  on_session k goes_on w =
      handler_writes (w.fleet.sessions k).running k w >>= λ w'. receiving_half k goes_on w'
  on_session k (gives n) w = receiving_half k (gives n) w
  on_session k breaks w = receiving_half k breaks w
  on_session k dispatches w = receiving_half k dispatches w

module _ (host : Host) (json : JsonText) where
  -- DealMsg on a message, lines 52-62: the callback runs before the `pop()`, under the lock.
  unfoldable pub worker_takes : List LogicNode → Service → Exec Service
  worker_takes [] w = done w
  worker_takes (node ∷ rest) w = do
    sessions ← deal_front (register_callbacks (hello_world_callback host json)) node w.sessions
    done (record w { fleet = take_front (node ∷ rest) w.fleet; sessions = sessions })

  unfoldable pub on_service : ServiceEvent → Service → Exec Service
  unfolding on_session worker_takes
  on_service (session_event k e) w = on_session host k e w
  on_service worker_deals w = worker_takes w.fleet.logic.msg_que w

  unfoldable pub run_service : List ServiceEvent → Service → Exec Service
  run_service [] w = done w
  run_service (e ∷ events) w = on_service e w >>= λ w'. run_service events w'

-- Sessions that have been accepted and started, and have sent nothing.
unfoldable pub start_service : (ℕ → Reader) → (ℕ → Bytes) → Sessions → Service
start_service readers streams sessions = record {
  fleet = start_fleet readers streams;
  sessions = sessions;
  sent = λ k. [];
}
