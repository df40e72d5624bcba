-- ===== src/Tests/Clients.antt =====
-- Runs of the clients against the servers.
use asio_network.Base.{List, ◌/◌, ◌%◌, ◌≡◌, refl, [], ◌∷◌, ◌++◌, arith, ◌==◌, if◌then◌else◌}
use asio_network.Wire.Memory.{Bytes}
use asio_network.Wire.Host.{big_endian, little_endian}
use asio_network.Wire.Exec.{done}
use asio_network.Sender.{new_sender}
use asio_network.Echo.{echo_protocol}
use asio_network.Echo.Replies.{length_frame}
use asio_network.Client.{
  NumberBytes, StartsWithShort, Sends, Receives, tlv_request, tlv_reply, length_request,
  length_reply, protobuf_reply, drive_request,
}
use asio_network.Client.Tlv.{tlv_client_round_trip}
use asio_network.Session.Receive.{Message, frame}
use asio_network.Wire.Host.{bytes_of_short}
use asio_network.Base.{take, replicate, length, ◌≤◌}
use asio_network.Client.Length.{LowByteFirst, length_client_round_trip, drive_request_refused}
use asio_network.Base.{List}
use asio_network.Framing.Reader.{Reader, cleared}
use asio_network.Framing.Reader.Chunks.{joined, receive_all}
use asio_network.Tests.Servers.{plain_data, echo_reader, echo_reader-Shows}

-- Numbers as x86 keeps them, as far as their first two bytes go.
unfoldable pub low_first : NumberBytes
low_first n i = if i == 0 then n % 256 else n / 256

pub low_first-StartsWithShort : StartsWithShort little_endian low_first
unfolding low_first little_endian
low_first-StartsWithShort = record { same_first = λ w small. refl; same_second = λ w small. refl }

abbrev hello_world : Bytes
hello_world = 104 ∷ 101 ∷ 108 ∷ 108 ∷ 111 ∷ 32 ∷ 119 ∷ 111 ∷ 114 ∷ 108 ∷ 100 ∷ []

abbrev asked : Message
asked = record { msg_id = 1001; payload = 104 ∷ 105 ∷ [] }

abbrev told : Message
told = record { msg_id = 1001; payload = hello_world }

-- A socket of which a `receive` gives no more than seven bytes, while `send` takes all.
abbrev takes_all : Sends
takes_all bytes = done (length bytes)

abbrev at_most_seven : Receives
at_most_seven size stream = done (length (take 7 (take size stream)))

length_client_round_trip_example :
    (length_request little_endian takes_all (104 ∷ 105 ∷ [])
      ≡ done (take 4 (length_frame little_endian (104 ∷ 105 ∷ []))))
    × (length_reply little_endian at_most_seven (length_frame big_endian hello_world ++ (9 ∷ []))
        ≡ done (take 7 hello_world))
    × (protobuf_reply little_endian at_most_seven (length_frame big_endian hello_world ++ (9 ∷ []))
        ≡ done (take 7 hello_world ++ replicate 4 0))
unfolding bytes_of_short
length_client_round_trip_example =
    length_client_round_trip little_endian big_endian takes_all at_most_seven (104 ∷ 105 ∷ [])
      hello_world (9 ∷ []) 4 7 (omega arith) (omega arith) refl refl refl (omega arith)

tlv_client_round_trip_example :
    (tlv_request little_endian low_first takes_all 1001 (104 ∷ 105 ∷ [])
      ≡ done (take 6 (frame little_endian asked)))
    × (length (frame little_endian asked) ≤ 6
        → tlv_request little_endian low_first takes_all 1001 (104 ∷ 105 ∷ [])
          ≡ done (frame little_endian asked))
    × (tlv_reply little_endian at_most_seven (frame big_endian told ++ (9 ∷ []))
        ≡ done (take 7 hello_world))
    × (length hello_world ≤ 7
        → tlv_reply little_endian at_most_seven (frame big_endian told ++ (9 ∷ []))
          ≡ done hello_world)
unfolding bytes_of_short
tlv_client_round_trip_example =
    tlv_client_round_trip little_endian big_endian low_first takes_all at_most_seven asked told
      (9 ∷ []) 6 7 low_first-StartsWithShort (omega arith) (omega arith) (omega arith) refl refl
      refl

low_first-LowByteFirst : LowByteFirst low_first
unfolding low_first
low_first-LowByteFirst = record { low_first = λ n small. refl; then_high = λ n small. omega arith }

-- The message, with a byte behind it, cut behind its first byte.
abbrev driven : List Bytes
driven = (11 ∷ []) ∷ (0 ∷ (hello_world ++ (1 ∷ []))) ∷ []

driven_lem : joined driven ≡ drive_request low_first hello_world ++ (1 ∷ [])
unfolding drive_request low_first
driven_lem = refl

drive_request_refused_example :
    (r : Reader) × (receive_all
        (echo_protocol big_endian plain_data)
        2048
        driven
        echo_reader
        new_sender
      ≡ done (cleared r new_sender))
drive_request_refused_example =
    drive_request_refused big_endian plain_data low_first hello_world (1 ∷ []) driven echo_reader
      new_sender low_first-LowByteFirst (omega arith) (omega arith) (omega arith, (omega arith, tt))
      driven_lem echo_reader-Shows
