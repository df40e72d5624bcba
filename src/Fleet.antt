-- ===== src/Fleet.antt =====
-- The sessions of IOThreadPoolServer together: each on its strand (IOThreadPoolServer/CSession.cpp), all
-- posting to one logic system, whose worker takes their messages (IOThreadPoolServer/LogicSystem.cpp).
pub mod Isolated
pub mod Served
pub mod Answers
use asio_network.Base.{ℕ, Bool, true, false, List, [], ◌∷◌, ◌++◌, ◌==◌, if◌then◌else◌}
use asio_network.Wire.Memory.{Bytes}
use asio_network.Wire.Host.{Host}
use asio_network.Wire.Exec.{Exec, done, ◌>>=◌}
use asio_network.Framing.Reader.{Reader}
use asio_network.Logic.{LogicNode, LogicSystem}
use asio_network.Strand.{Event, Stranded, on_strand, start_on_strand}

-- A session is known by its uuid. The logic system is theirs all: what a session holds of it is what
-- it saw at its last step. `dealt` is what the worker has taken, first to last.
pub record Fleet : Type 0 where
  pub sessions : ℕ → Stranded
  pub logic : LogicSystem
  pub dealt : List LogicNode

-- Something happens to a session, or the worker takes a message.
pub data FleetEvent : Type 0 where
  at_session : ℕ → Event → FleetEvent
  deals : FleetEvent

unfoldable pub replaced : (ℕ → Stranded) → ℕ → Stranded → ℕ → Stranded
replaced sessions k s j = if j == k then s else sessions j

-- `front()` and `pop()`, lines 52-62; what the callback does with the message is in Session/Hello.
unfoldable pub take_front : List LogicNode → Fleet → Fleet
take_front [] w = w
take_front (node ∷ rest) w = record w {
  logic = record (w.logic) { msg_que = rest };
  dealt = w.dealt ++ (node ∷ []);
}

module _ (host : Host) where
  unfoldable pub on_fleet : FleetEvent → Fleet → Exec Fleet
  unfolding replaced take_front
  on_fleet (at_session k e) w = do
    s ← on_strand host k e (record (w.sessions k) { logic = w.logic })
    done (record w { sessions = replaced w.sessions k s; logic = s.logic })
  on_fleet deals w = done (take_front w.logic.msg_que w)

  unfoldable pub run_fleet : List FleetEvent → Fleet → Exec Fleet
  run_fleet [] w = done w
  run_fleet (e ∷ events) w = on_fleet e w >>= λ w'. run_fleet events w'

abbrev pub no_logic : LogicSystem
no_logic = record { msg_que = []; b_stop = false }

-- Sessions that have been accepted and started, each with its reader and its peer's bytes.
unfoldable pub start_fleet : (ℕ → Reader) → (ℕ → Bytes) → Fleet
start_fleet readers streams = record {
  sessions = λ k. start_on_strand (readers k) no_logic (streams k);
  logic = no_logic;
  dealt = [];
}
