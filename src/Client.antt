-- ===== src/Client.antt =====
-- The clients of the tools directory, which frame their requests by hand.
pub mod Tlv
pub mod Length
pub mod Served
use asio_network.Base.{
  zero, suc, ℕ, ◌+◌, ◌-◌, ◌*◌, ◌/◌, ◌%◌, ◌^◌, ◌<◌, ◌≤◌, ◌≡◌, refl, ap, ◌∙◌, Bool, true, false,
  Option, none, some, List, [], ◌∷◌, ◌++◌, arith, ◌==◌, if◌then◌else◌, length, drop, take, leb,
  replicate,
}
use asio_network.Base.Int.{ℤ, pos, signed16, to_size}
use asio_network.Wire.Memory.{Bytes, read_at, write_at}
use asio_network.Wire.Host.{Host, bytes_of_short, short_of}
use asio_network.Wire.Exec.{Exec, done, undefined, ◌>>=◌, defined}

-- MAX_LENGTH of the clients.
abbrev pub client_buffer : ℕ
client_buffer = 2048

-- `char send_data[MAX_LENGTH] = { 0 };`
unfoldable pub zeroed : ℕ → Bytes
zeroed size = replicate size 0

-- The byte of a number in memory at an index: of an `int` here, of a `size_t` in ClientDriveByThread.
-- How a machine lays numbers out is a parameter.
abbrev pub NumberBytes : Type 0
NumberBytes = ℕ → ℕ → ℕ

-- An `int` that holds what `host_to_network_short` returns starts with the bytes of that `short`, as
-- it does on machines that keep the low byte first.
pub record StartsWithShort (host : Host) (int_byte : NumberBytes) : Type 0 where
  pub same_first :
      (w : ℕ)
      → w < 2 ^ 16
      → int_byte (host.host_to_network_short w) 0 ≡ host.first_byte (host.host_to_network_short w)
  pub same_second :
      (w : ℕ)
      → w < 2 ^ 16
      → int_byte (host.host_to_network_short w) 1 ≡ host.second_byte (host.host_to_network_short w)

-- tools/checkEndian.cpp.
unfoldable pub is_big_endian : NumberBytes → Bool
is_big_endian int_byte = if int_byte 1 0 == 1 then false else true

-- What main prints of 0x12345678, in either branch.
unfoldable pub printed_bytes : NumberBytes → Bytes
printed_bytes int_byte =
    let num : ℕ = 305419896 in
    int_byte num 0 ∷ int_byte num 1 ∷ int_byte num 2 ∷ int_byte num 3 ∷ []

-- How many bytes `send` takes of those that it is offered, and how many `receive` gives into a buffer
-- of this size, of the bytes that there are to receive; both may throw.
abbrev pub Sends : Type 0
Sends = Bytes → Exec ℕ

abbrev pub Receives : Type 0
Receives = ℕ → Bytes → Exec ℕ

unfoldable pub sent_of : Sends → Bytes → Exec Bytes
sent_of send bytes = do n ← send bytes; done (take n bytes)

unfoldable pub received_of : Receives → ℕ → Bytes → Exec Bytes
received_of receive size stream = do n ← receive size stream; done (take n (take size stream))

-- `boost::asio::buffer` of an array and a size ends with the array.
unfoldable pub capped : ℕ → ℕ
capped size = if leb size client_buffer then size else client_buffer

-- ClientTlvFormat/client.cpp, lines 48-57: what is sent for a request of this id. The length is
-- converted to `unsigned short`.
unfoldable pub tlv_request : Host → NumberBytes → Sends → ℕ → Bytes → Exec Bytes
unfolding sent_of
tlv_request host int_byte send msgid request = do
  let id_network = host.host_to_network_short msgid
  send_data ←
      defined
        (write_at (zeroed client_buffer) 0 (int_byte id_network 0 ∷ int_byte id_network 1 ∷ []))
  send_data ← defined (write_at send_data 2 (bytes_of_short host (length request % 2 ^ 16)))
  send_data ← defined (write_at send_data 4 request)
  offered ← defined (read_at send_data 0 (length request + 4))
  sent_of send offered

-- Lines 60-74, for the bytes that are there to receive: the text that is parsed. What `receive` does
-- not give of the header is not initialised.
unfoldable pub tlv_reply : Host → Receives → Bytes → Exec Bytes
unfolding received_of capped
tlv_reply host receive stream = do
  reply_head ← received_of receive 4 stream
  replylen ← defined (short_of host (drop 2 reply_head))
  reply ←
      received_of receive (capped (to_size (signed16 replylen))) (drop (length reply_head) stream)
  reply_msg ← defined (write_at (zeroed client_buffer) 0 reply)
  defined (read_at reply_msg 0 (length reply))

-- JsonSerializeClient/JsonClient.cpp, lines 42-48, and ProtobufSerializeClient/client.cpp, lines
-- 40-46: what is sent for a request.
unfoldable pub length_request : Host → Sends → Bytes → Exec Bytes
unfolding sent_of
length_request host send request = do
  send_data ←
      defined (write_at (zeroed client_buffer) 0 (bytes_of_short host (length request % 2 ^ 16)))
  send_data ← defined (write_at send_data 2 request)
  offered ← defined (read_at send_data 0 (length request + 2))
  sent_of send offered

-- JsonClient.cpp, lines 51-59, and client.cpp, lines 49-57: the length that is read, the bytes that are
-- received for it, and `reply_msg`.
unfoldable pub reply_block : Host → Receives → Bytes → Exec (ℕ × Bytes × Bytes)
unfolding received_of capped
reply_block host receive stream = do
  reply_head ← received_of receive 2 stream
  replylen ← defined (short_of host reply_head)
  reply ←
      received_of receive (capped (to_size (signed16 replylen))) (drop (length reply_head) stream)
  reply_msg ← defined (write_at (zeroed client_buffer) 0 reply)
  done (to_size (signed16 replylen), reply, reply_msg)

-- JsonClient.cpp, line 62, parses as many bytes as were received.
unfoldable pub length_reply : Host → Receives → Bytes → Exec Bytes
unfolding reply_block
length_reply host receive stream = do
  (replylen, reply, reply_msg) ← reply_block host receive stream
  defined (read_at reply_msg 0 (length reply))

-- ProtobufSerializeClient/client.cpp, line 60, parses as many as the header says.
unfoldable pub protobuf_reply : Host → Receives → Bytes → Exec Bytes
unfolding reply_block
protobuf_reply host receive stream = do
  (replylen, reply, reply_msg) ← reply_block host receive stream
  defined (read_at reply_msg 0 replylen)

-- ClientDriveByThread.cpp, lines 36-42: what the sending thread writes in each round, the length as
-- the first two bytes of a `size_t`.
unfoldable pub drive_request : NumberBytes → Bytes → Bytes
drive_request size_byte msg = size_byte (length msg) 0 ∷ size_byte (length msg) 1 ∷ msg
