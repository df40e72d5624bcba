-- ===== src/Sync.antt =====
-- SyncServer/server.cpp: the blocking server.
pub mod Setup
pub mod Client
pub mod Accepts
pub mod Echo
use Prim.Native.Char.{code}
use Prim.Native.String.{String}
use asio_network.Base.{
  ℕ, zero, suc, ◌+◌, ◌-◌, Bool, true, false, Option, none, some, List, [], ◌∷◌, ◌++◌, leb,
  if◌then◌else◌, length, take, drop, replicate,
}
use asio_network.Wire.Memory.{Bytes}

-- MAX_LENGTH of server.cpp.
abbrev pub buffer_length : ℕ
buffer_length = 1024

abbrev pub text_of : String → Bytes
text_of String.[] = []
text_of (String.◌∷◌ c s) = code c ∷ text_of s

abbrev pub hello_world : Bytes
hello_world = text_of "hello world"

-- How far write_to_socket has come: it has returned, or it is at the test of its loop with this
-- `total_bytes_written`. `written_bytes` is what the socket has taken.
pub data Progress : Type 0 where
  returned : (written_bytes : Bytes) → Progress
  looping : (total : ℕ) (written_bytes : Bytes) → Progress

-- Lines 141-145 for `fuel` rounds. `write_some` is how many bytes the socket takes of those that it
-- is offered, in the round with so much fuel left.
unfoldable pub write_loop : (ℕ → Bytes → ℕ) → ℕ → ℕ → Bytes → Progress
write_loop write_some zero total written_bytes = looping total written_bytes
write_loop write_some (suc fuel) total written_bytes =
    let offered = drop total hello_world in
    let n = write_some fuel offered in
    let rest = write_loop write_some fuel (total + n) (written_bytes ++ take n offered) in
    if leb total (length hello_world) then rest else returned written_bytes

-- Lines 137-146.
unfoldable pub write_to_socket : (ℕ → Bytes → ℕ) → ℕ → Progress
unfolding write_loop
write_to_socket write_some rounds = write_loop write_some rounds 0 []

-- How lines 166-171 go on a chunk: `remote_endpoint` throws; it gives the peer's address and `send`
-- throws, or takes so many bytes of those that it is offered.
pub data Answer : Type 0 where
  no_endpoint send_throws : Answer
  sends : ℕ → Answer

-- What `read_some` gives: the end of the stream, another error, or bytes, which are then answered.
pub data Received : Type 0 where
  eof failed : Received
  got : Bytes → Answer → Received

-- How `session` ends: by the end of the stream, by an exception that it catches, or, for as long as
-- the reads are listed, not yet.
pub data Ending : Type 0 where
  closed caught open_still : Ending

-- Lines 151-177: what the socket takes of each answer, for the results of the reads.
unfoldable pub session : List Received → List Bytes × Ending
session [] = ([], open_still)
session (eof ∷ reads) = ([], closed)
session (failed ∷ reads) = ([], caught)
session (got bytes no_endpoint ∷ reads) = ([], caught)
session (got bytes send_throws ∷ reads) = ([], caught)
session (got bytes (sends n) ∷ reads) =
    let data_block = bytes ++ replicate (buffer_length - length bytes) 0 in
    let rest = session reads in (take n data_block ∷ rest.0, rest.1)
