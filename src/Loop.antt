-- ===== src/Loop.antt =====
-- IOContextPoolServer as a whole (IOContextPoolServer/CServer.cpp, CSession.cpp and LogicSystem.cpp):
-- every session is made on the io_context of main, whose one thread runs the handlers of them all, each
-- to its end, while the worker of the logic system takes the messages. There is no strand.
pub mod Simulates
pub mod Moves
pub mod Counts
pub mod Single
pub mod Clients
use asio_network.Base.{
  ℕ, Bool, true, false, Option, none, some, List, [], ◌∷◌, ◌++◌, ◌==◌, if◌then◌else◌, length,
}
use asio_network.Wire.Memory.{Bytes}
use asio_network.Wire.Host.{Host}
use asio_network.Wire.Exec.{Exec, done, ◌>>=◌}
use asio_network.Framing.Reader.{Reader}
use asio_network.Session.Hello.{JsonText, Sessions}
use asio_network.Strand.{
  Event, gives, breaks, write_ends, dispatches, goes_on, Running, nobody, in_loop, leaving, failing,
  writing,
}
use asio_network.Service.{
  Service, ServiceEvent, worker_deals, on_session, on_service, start_service,
}

-- `ready` is the sessions whose operations have completed, in that order; their handlers are the
-- `strand` of each, here only a list. `current` is the session whose handler runs.
pub record Loop : Type 0 where
  pub service : Service
  pub ready : List ℕ
  pub current : Option ℕ

-- A read takes up to `n` bytes, a read fails, a write ends.
pub data Completion : Type 0 where
  reads : ℕ → Completion
  fails : Completion
  writes : Completion

pub data LoopEvent : Type 0 where
  completes : ℕ → Completion → LoopEvent
  calls_next : LoopEvent
  handles : LoopEvent
  deals : LoopEvent

abbrev pub as_event : Completion → Event
as_event (reads n) = gives n
as_event fails = breaks
as_event writes = write_ends

-- Whether the completion has a handler to call.
abbrev pub ready_after : ℕ → Service → Service → List ℕ → List ℕ
ready_after k w w' ready =
    if length (w'.fleet.sessions k).strand == length (w.fleet.sessions k).strand
    then ready
    else ready ++ (k ∷ [])

abbrev pub still_current : Running → ℕ → Option ℕ
still_current nobody k = none
still_current (in_loop buffer c n) k = some k
still_current (leaving flag) k = some k
still_current failing k = some k
still_current writing k = some k

module _ (host : Host) where
  -- The thread of main calls the handler of the first operation that has completed.
  unfoldable pub call_next : Option ℕ → List ℕ → Loop → Exec Loop
  call_next none (k ∷ rest) w = do
    service ← on_session host k dispatches w.service
    done (record w { service = service; ready = rest; current = some k })
  call_next none [] w = done w
  call_next (some k) ready w = done w

  -- A step of HandleRead, lines 67-186, or of HandleWrite, lines 45-58.
  unfoldable pub handle : Option ℕ → Loop → Exec Loop
  handle none w = done w
  handle (some k) w = do
    service ← on_session host k goes_on w.service
    done (record w {
      service = service;
      current = still_current (service.fleet.sessions k).running k;
    })

  unfoldable pub queue_completion : ℕ → Completion → Loop → Exec Loop
  queue_completion k c w = do
    service ← on_session host k (as_event c) w.service
    done (record w { service = service; ready = ready_after k w.service service w.ready })

module _ (host : Host) (json : JsonText) where
  unfoldable pub on_loop : LoopEvent → Loop → Exec Loop
  unfolding call_next handle queue_completion
  on_loop (completes k c) w = queue_completion host k c w
  on_loop calls_next w = call_next host w.current w.ready w
  on_loop handles w = handle host w.current w
  on_loop deals w = do
    service ← on_service host json worker_deals w.service
    done (record w { service = service })

  unfoldable pub run_loop : List LoopEvent → Loop → Exec Loop
  run_loop [] w = done w
  run_loop (e ∷ events) w = on_loop e w >>= λ w'. run_loop events w'

unfoldable pub start_loop : (ℕ → Reader) → (ℕ → Bytes) → Sessions → Loop
start_loop readers streams sessions = record {
  service = start_service readers streams sessions;
  ready = [];
  current = none;
}
