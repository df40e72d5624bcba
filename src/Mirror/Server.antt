-- ===== src/Mirror/Server.antt =====
-- AsyncEchoServer/CServer.cpp: the accepts, and the sessions of the server together.
use asio_network.Base.{ℕ, zero, suc, ◌+◌, ◌≡◌, Bool, true, false, List, [], ◌∷◌, ◌++◌, length, All}
use asio_network.Wire.Memory.{Bytes}
use asio_network.Mirror.{MirrorSession, Event, Traffic, new_mirror, start_mirror, on_event}
use asio_network.Mirror.Alternates.{Echoes}

-- `pending` are the sessions for whose sockets an `async_accept` is under way, `sessions` those that have
-- been started, with their traffic, and `unused` counts those that have been deleted without. Nobody
-- keeps a session: a started one deletes itself.
pub record MirrorServer : Type 0 where
  pub pending : List MirrorSession
  pub sessions : List Traffic
  pub unused : ℕ
  pub made : ℕ

-- An accept ends, with an error or without; the memory is that of the session which is made next. Or
-- something happens to a session that has been started.
pub data ServerEvent : Type 0 where
  accept_ends : (error : Bool) → Bytes → ServerEvent
  at_session : ℕ → Event → ServerEvent

-- start_accept, lines 8-15.
unfoldable pub accept_next : Bytes → MirrorServer → MirrorServer
accept_next memory s = record s {
  pending = s.pending ++ (new_mirror memory ∷ []);
  made = s.made + 1;
}

-- handle_accept, lines 17-25, up to its call of start_accept.
unfoldable pub take_session : Bool → MirrorSession → MirrorServer → MirrorServer
take_session true new_session s = record s { unused = s.unused + 1 }
take_session false new_session s = record s {
  sessions =
      s.sessions
      ++ (record {
        session = start_mirror new_session;
        received = [];
        offered = [];
        sent = [];
        cut = false;
      }
          ∷ []);
}

unfoldable pub handle_mirror_accept :
    Bool → Bytes → List MirrorSession → MirrorServer → MirrorServer
unfolding take_session accept_next
handle_mirror_accept error memory [] s = s
handle_mirror_accept error memory (new_session ∷ rest) s =
    accept_next memory (take_session error new_session (record s { pending = rest }))

-- A handler of session `i` runs.
unfoldable pub handler_runs : ℕ → Event → List Traffic → List Traffic
handler_runs i e [] = []
handler_runs zero e (t ∷ ts) = on_event t.session.operations e t ∷ ts
handler_runs (suc i) e (t ∷ ts) = t ∷ handler_runs i e ts

unfoldable pub on_mirror_server : ServerEvent → MirrorServer → MirrorServer
unfolding handle_mirror_accept handler_runs
on_mirror_server (accept_ends error memory) s = handle_mirror_accept error memory s.pending s
on_mirror_server (at_session i e) s = record s { sessions = handler_runs i e s.sessions }

unfoldable pub run_mirror_server : List ServerEvent → MirrorServer → MirrorServer
run_mirror_server [] s = s
run_mirror_server (e ∷ es) s = run_mirror_server es (on_mirror_server e s)

-- The constructor, lines 3-6.
unfoldable pub start_mirror_server : Bytes → MirrorServer
unfolding accept_next
start_mirror_server memory =
    accept_next memory (record { pending = []; sessions = []; unused = 0; made = 0 })

-- One accept is under way, for a session that nothing has happened to; every session that has been
-- started alternates and delivers; and no other sessions have been made but those that were deleted at once.
pub record Accepts (s : MirrorServer) : Type 0 where
  pub memory : Bytes
  pub one_pending : s.pending ≡ new_mirror memory ∷ []
  pub alternate : All Echoes s.sessions
  pub accounted : s.made ≡ length s.sessions + s.unused + 1
