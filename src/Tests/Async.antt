-- ===== src/Tests/Async.antt =====
-- Runs of AsyncServer's session, and of JsonServer's HandleRead.
use asio_network.Base.{◌++◌, ◌≡◌, ◌≢◌, refl, true, false, none, List, [], ◌∷◌}
use asio_network.Wire.Memory.{Bytes}
use asio_network.Wire.Host.{big_endian, short_of}
use asio_network.Wire.Exec.{done}
use asio_network.Framing.Stream.{
  head, body, broken, feeds, feed, opened_by, opened_at, complete, settled,
}
use asio_network.Sender.{new_sender}
use asio_network.Echo.{length_header, check_length}
use asio_network.Json.Framed.{JsonValue, in_parts}
use asio_network.Async.{PartSession, copy_node, write_callback, read_buffer, read_callback}
use asio_network.Async.{of_string}
use asio_network.Async.Writes.{Happens, Traffic, says, takes, fails, all_happen, Streams, is_idle}
use asio_network.Async.Writes.Keeps.{all_happen-Streams}
use asio_network.Async.Writes.Silence.{failed_write_silences}
use asio_network.Async.Reads.{Ended, end_reads, Fills, read_from_socket-Fills}

abbrev at_rest : PartSession
at_rest = record {
  send_queue = [];
  send_pending = false;
  recv_node = none;
  recv_pending = false;
  writes = [];
  reads = [];
}

abbrev nothing_said : Traffic
nothing_said = record { session = at_rest; accepted = []; sent = [] }

abbrev happenings : List Happens
happenings =
    says (1 ∷ 2 ∷ 3 ∷ []) ∷ takes done 2 ∷ says (4 ∷ []) ∷ takes done 5 ∷ fails ∷ says (5 ∷ []) ∷ []

all_happen-Streams_example :
    (t : Traffic) × (all_happen happenings nothing_said ≡ done t) × Streams t
all_happen-Streams_example =
    all_happen-Streams happenings nothing_said
      (tt, ((λ buf. refl), (tt, ((λ buf. refl), (tt, (tt, tt)))))) (is_idle refl refl refl refl)

abbrev writing : Traffic
writing = record {
  session = record at_rest {
    send_queue = copy_node (1 ∷ 2 ∷ []) ∷ [];
    send_pending = true;
    writes = (of_string (1 ∷ 2 ∷ []), write_callback) ∷ [];
  };
  accepted = 1 ∷ 2 ∷ [];
  sent = [];
}

failed_write_silences_example :
    (t : Traffic) × (all_happen (fails ∷ says (3 ∷ []) ∷ takes done 9 ∷ []) writing ≡ done t)
    × (t.sent ≡ [])
    × (t.session.writes ≡ [])
    × (t.session.send_queue ≡ writing.session.send_queue ++ (copy_node (3 ∷ []) ∷ []))
failed_write_silences_example =
    failed_write_silences (says (3 ∷ []) ∷ takes done 9 ∷ []) writing (of_string (1 ∷ 2 ∷ [])) refl
      refl

abbrev ends : List Ended
ends = (false, 7 ∷ 8 ∷ []) ∷ (true, []) ∷ (false, 9 ∷ 9 ∷ 9 ∷ []) ∷ []

read_from_socket-Fills_example :
    (s : PartSession) × (received : Bytes) × (end_reads ends
        (read_buffer read_callback (0 ∷ 0 ∷ 0 ∷ []) at_rest)
        []
      ≡ done (s, received))
    × Fills 3 s received
read_from_socket-Fills_example = read_from_socket-Fills ends (0 ∷ 0 ∷ 0 ∷ []) at_rest refl refl

-- A JSON library for which a text is its own data, and every id is an `int`.
abbrev plain_value : JsonValue
plain_value = record {
  id_as_int = λ text. done tt;
  data_as_string = λ text. done text;
  styled = λ text data_text. data_text;
}

-- A header that announces two bytes, and the first of them.
abbrev begun : Bytes
begun = 0 ∷ 2 ∷ 104 ∷ []

feeds-begun :
    feeds (in_parts big_endian plain_value) begun (head []) new_sender
    ≡ (body 0 2 (104 ∷ []), new_sender)
unfolding feeds feed opened_by opened_at complete settled length_header check_length short_of
    big_endian
feeds-begun = refl

begun-sane : (feeds (in_parts big_endian plain_value) begun (head []) new_sender).0 ≢ broken
begun-sane q = cc (q, feeds-begun)
