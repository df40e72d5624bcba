-- ===== src/Mirror.antt =====
-- AsyncEchoServer/Session.cpp: a session that reads a chunk, sends it back, and only
-- then reads again.
pub mod Alternates
pub mod Server
use asio_network.Base.{
  ltb, ℕ, Bool, true, false, Option, none, some, List, [], ◌∷◌, ◌++◌, if◌then◌else◌, length, take,
  drop, replicate,
}
use asio_network.Wire.Memory.{Bytes}
use asio_network.Wire.Exec.{Exec, done, undefined, ◌>>=◌}
use asio_network.Framing.Reader.Loop.{received_in}

-- `max_length` of Session.h.
abbrev pub chunk_size : ℕ
chunk_size = 1024

-- An asynchronous operation that is under way.
pub data Operation : Type 0 where
  reads : Operation
  -- `async_send` of these bytes.
  sends : Bytes → Operation

pub record MirrorSession : Type 0 where
  pub buffer : Bytes
  pub operations : List Operation
  -- `delete this` has run.
  pub deleted : Bool

abbrev pub erased : Bytes
erased = replicate chunk_size 0

-- The constructor; `memset` comes with Start.
abbrev pub new_mirror : Bytes → MirrorSession
new_mirror memory = record { buffer = memory; operations = []; deleted = false }

unfoldable pub start_mirror : MirrorSession → MirrorSession
start_mirror s = record s { buffer = erased; operations = s.operations ++ (reads ∷ []) }

unfoldable pub delete_mirror : MirrorSession → MirrorSession
delete_mirror s = record s { deleted = true }

-- handle_read, lines 21-34.
unfoldable pub handle_mirror_read : Bool → ℕ → MirrorSession → MirrorSession
unfolding delete_mirror
handle_mirror_read error bytes_transferred s =
    if error
    then delete_mirror s
    else record s { operations = s.operations ++ (sends (take bytes_transferred s.buffer) ∷ []) }

-- handle_write, lines 36-48.
unfoldable pub handle_mirror_write : Bool → MirrorSession → MirrorSession
unfolding delete_mirror
handle_mirror_write error s =
    if error
    then delete_mirror s
    else record s { buffer = erased; operations = s.operations ++ (reads ∷ []) }

-- How the operation that is under way ends: the read with an error or a chunk, the send with an
-- error or after it has taken so many bytes, or all if there are fewer. An event that does not fit the operation cannot happen, and does nothing.
pub data Event : Type 0 where
  read_fails : Event
  arrives : Bytes → Event
  send_fails : Event
  sent_out : (bytes_transferred : ℕ) → Event

-- The session, with all that it has read, all that its completed sends were given, what these have
-- taken of it, and whether one has taken less than it was given.
pub record Traffic : Type 0 where
  pub session : MirrorSession
  pub received : Bytes
  pub offered : Bytes
  pub sent : Bytes
  pub cut : Bool

unfoldable pub on_event : List Operation → Event → Traffic → Traffic
unfolding handle_mirror_read handle_mirror_write
on_event (reads ∷ rest) read_fails t = record t {
  session = handle_mirror_read true 0 (record (t.session) { operations = rest });
}
on_event (reads ∷ rest) (arrives chunk) t = record t {
  session =
      handle_mirror_read false (length chunk)
        (record (t.session) { buffer = received_in chunk_size chunk; operations = rest });
  received = t.received ++ chunk;
}
on_event (sends bytes ∷ rest) send_fails t = record t {
  session = handle_mirror_write true (record (t.session) { operations = rest });
}
on_event (sends bytes ∷ rest) (sent_out n) t = record t {
  session = handle_mirror_write false (record (t.session) { operations = rest });
  offered = t.offered ++ bytes;
  sent = t.sent ++ take n bytes;
  cut = if t.cut then true else ltb n (length bytes);
}
on_event _ _ t = t

unfoldable pub events : List Event → Traffic → Traffic
unfolding on_event
events [] t = t
events (e ∷ es) t = events es (on_event t.session.operations e t)
