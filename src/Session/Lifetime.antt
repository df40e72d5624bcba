-- ===== src/Session/Lifetime.antt =====
-- What a run of HandleRead does to the session, the logic system and the server together.
use asio_network.Base.{◌<◌, ◌≡◌, ◌≢◌, true, false, length}
use asio_network.Wire.Memory.{Bytes}
use asio_network.Wire.Host.{Host}
use asio_network.Wire.Exec.{Exec, done}
use asio_network.Framing.Stream.{Frame, rejected, broken, feeds}
use asio_network.Framing.Reader.{Reader}
use asio_network.Framing.Reader.Shows.{Shows}
use asio_network.Framing.Reader.Loop.{still_reading, was_cleared, received_in, handle_bytes-Reaches}
use asio_network.Logic.{LogicSystem}
use asio_network.Server.{clear_session}
use asio_network.Session.{World, csession_protocol, handle_read, after_bytes, clear_self}
use asio_network.Session.Format.{max_length}

-- How HandleRead may leave the world `w` for the stream state `goal`: the next read is armed and the
-- server untouched; or a header was refused, no read is armed, and the server has dropped the session.
pub data Leaves (w : World) (goal : Frame × LogicSystem) (t : Exec World) : Type 0 where
  goes_on :
      (r : Reader) (f : Frame) (logic : LogicSystem)
      → t
        ≡ done (record w {
          session = record (w.session) { reader = r };
          logic = logic;
          reading = true;
        })
      → Shows 4 r f
      → goal ≡ (f, logic)
      → Leaves w goal t
  leaves :
      (r : Reader) (logic : LogicSystem)
      → t
        ≡ done (record w {
          session = record (w.session) { reader = r };
          logic = logic;
          server = clear_session w.server w.session.uuid;
          reading = false;
        })
      → goal ≡ (rejected, logic)
      → Leaves w goal t

module _ (host : Host) where
  -- HandleRead of a chunk of at least one byte, without an error, goes on reading with the messages
  -- of the chunk posted, or refuses a header and leaves the server, as the stream machine says,
  -- unless that is `broken`.
  pub handle_read-Leaves :
      (w : World) (f : Frame) (chunk : Bytes)
      → Shows 4 w.session.reader f
      → 0 < length chunk
      → (feeds (csession_protocol host w.session.uuid) chunk f w.logic).0 ≢ broken
      → Leaves w
          (feeds (csession_protocol host w.session.uuid) chunk f w.logic)
          (handle_read host false (received_in max_length chunk) (length chunk) w)
  unfolding handle_read after_bytes clear_self
  handle_read-Leaves w f chunk shown nonempty sane =
      elim (handle_bytes-Reaches (csession_protocol host w.session.uuid) max_length w.session.reader
        f chunk w.logic shown nonempty sane) [
          | still_reading r f' logic e shown' goal ↦ goes_on r f' logic (rw e) shown' goal
          | was_cleared r logic e goal ↦ leaves r logic (rw e) goal
        ]
