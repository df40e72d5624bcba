-- ===== src/Tests/Servers.antt =====
-- Runs of the echo servers and of the pools.
use asio_network.Base.{none, ℕ, ◌≡◌, refl, true, false, some, List, [], ◌∷◌, arith, length}
use asio_network.Base.Int.{pos}
use asio_network.Wire.Memory.{Bytes}
use asio_network.Wire.Host.{big_endian, bytes_of_short}
use asio_network.Wire.Exec.{done, throws}
use asio_network.Framing.Stream.{head}
use asio_network.Framing.Reader.{Reader}
use asio_network.Framing.Reader.Shows.{Shows, in_head}
use asio_network.Framing.Reader.Chunks.{receive_all, state_of}
use asio_network.Sender.{Sender, new_sender}
use asio_network.Sender.Order.{Ordered}
use asio_network.Echo.{MsgData, reply, echo_protocol}
use asio_network.Echo.Replies.{IsRequest, replies, length_frames, replies_in_order}
use asio_network.Json.{JsonSession, head_read, serve}
use asio_network.Json.Echoes.{IsAtRest, reads_of, echoes_in_order}
use asio_network.Pool.Threads.{new_thread_pool, stop_threads, stop-new_thread_pool}

-- A codec whose messages are their data.
abbrev pub plain_data : MsgData
plain_data = record { parse = λ bytes. (0, bytes); serialize = λ id bytes. bytes }

abbrev pub echo_reader : Reader
echo_reader = record {
  b_head_parse = false;
  recv_head_node = record { block = 0 ∷ 0 ∷ 0 ∷ []; total_len = pos 2; cur_len = 0 };
  recv_msg_node = none;
}

pub echo_reader-Shows : Shows 2 echo_reader (head [])
echo_reader-Shows =
    in_head [] refl
      (record {
        is_node = record { total_len_eq = refl; room = refl };
        received = refl;
        cur_len_eq = refl;
        within = omega arith;
      })
      (omega arith)

pub new_sender-Ordered : Ordered [] [] new_sender
new_sender-Ordered = record {
  sendable = tt;
  one_write = refl;
  in_order = refl;
  bounded = omega arith;
}

abbrev requests : List Bytes
requests = (97 ∷ 98 ∷ []) ∷ (99 ∷ []) ∷ []

abbrev request_chunks : List Bytes
request_chunks = (0 ∷ []) ∷ (2 ∷ 97 ∷ 98 ∷ 0 ∷ []) ∷ (1 ∷ 99 ∷ []) ∷ []

one_byte-IsRequest : (b : ℕ) → IsRequest plain_data (b ∷ [])
unfolding reply
one_byte-IsRequest b = record { len_passes = omega arith; reply_fits = omega arith }

two_bytes-IsRequest : (a b : ℕ) → IsRequest plain_data (a ∷ b ∷ [])
unfolding reply
two_bytes-IsRequest a b = record { len_passes = omega arith; reply_fits = omega arith }

frames-requests : (0 ∷ 2 ∷ 97 ∷ 98 ∷ 0 ∷ 1 ∷ 99 ∷ []) ≡ length_frames big_endian requests
unfolding bytes_of_short big_endian
frames-requests = refl

replies_in_order_example :
    (s : Sender) × (state_of (echo_protocol big_endian plain_data) 2048 (
        receive_all
          (echo_protocol big_endian plain_data)
          2048
          request_chunks
          echo_reader
          new_sender)
      ≡ some s)
    × Ordered (length_frames big_endian (replies big_endian plain_data requests)) [] s
replies_in_order_example =
    replies_in_order big_endian plain_data requests request_chunks echo_reader [] [] new_sender
      new_sender-Ordered (omega arith) (two_bytes-IsRequest 97 98, (one_byte-IsRequest 99, tt))
      (omega arith, (omega arith, (omega arith, tt))) frames-requests echo_reader-Shows

abbrev json_session : JsonSession
json_session = record {
  uuid = 1;
  recv_head_node = record { block = 0 ∷ 0 ∷ 0 ∷ []; total_len = pos 2; cur_len = 0 };
  recv_msg_node = none;
  sender = new_sender;
  socket_open = true;
  b_close = false;
  server = record { sessions = (1, 1) ∷ []; accepting = [] };
  reading = head_read;
}

echoes_in_order_example :
    (w : JsonSession) × (serve big_endian (reads_of big_endian requests) json_session ≡ done w)
    × IsAtRest w
    × Ordered (length_frames big_endian requests) [] w.sender
    × (w.server ≡ json_session.server)
echoes_in_order_example =
    echoes_in_order big_endian big_endian requests json_session [] []
      (record { reads_head = refl; head_clear = refl }) new_sender-Ordered (omega arith)
      (omega arith, (omega arith, tt))

stop-new_thread_pool_example :
    (length (new_thread_pool 4).threads ≡ 8) × (stop_threads (new_thread_pool 4) ≡ throws)
stop-new_thread_pool_example = stop-new_thread_pool 4 (omega arith)
