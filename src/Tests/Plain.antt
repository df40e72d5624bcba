-- ===== src/Tests/Plain.antt =====
-- Runs of the HTTP server and of the blocking server.
use asio_network.Base.{
  true, false, none, some, ℕ, ◌+◌, ◌≤◌, ◌≡◌, List, [], ◌∷◌, arith, length, take,
}
use asio_network.Wire.Memory.{Bytes}
use asio_network.Wire.Exec.{done}
use asio_network.Base.Int.{pos}
use asio_network.Sender.{new_sender}
use asio_network.Session.{CSession}
use asio_network.Session.Hello.{JsonText, Sessions}
use asio_network.Http.{Verb, Request, Response, Rendering, Program, bytes_of, process_request}
use asio_network.Http.Responses.{IsComplete, status_of, process_request_answers}
use asio_network.Http.Connection.{
  Connection, HttpEvent, has_read, write_ends, expires, wait_fails, start_connection, run_http,
}
use asio_network.Http.Connection.Lives.{Lives, start_connection-Lives}
use asio_network.Sync.{looping, hello_world, write_to_socket}
use asio_network.Sync.Echo.{write_to_socket_never_returns}

-- A library that writes numbers as one byte and finds an empty member in every text.
abbrev plain_rendering : Rendering
plain_rendering = record {
  number = λ n. n ∷ [];
  email = λ text. some (done []);
  failure = bytes_of "{}";
  success = λ text. text;
}

abbrev get_count : Request
get_count = record { version = 11; method = Verb.get; target = bytes_of "/count"; body = [] }

abbrev post_email : Request
post_email = record {
  version = 10;
  method = Verb.post;
  target = bytes_of "/email";
  body = bytes_of "{}";
}

abbrev program : Program
program = record { count = 4; now = 0 }

process_request_answers_example :
    (r : Response) × (p : Program) × (process_request plain_rendering get_count program
      ≡ done (r, p))
    × IsComplete get_count r
    × (r.result ≡ status_of get_count)
    × (p.count ≡ 1 + 4)
process_request_answers_example = process_request_answers plain_rendering get_count program tt

-- A socket that takes everything.
abbrev takes_all : ℕ → Bytes → ℕ
takes_all round bytes = length bytes

takes_all_lem : (round : ℕ) (bytes : Bytes) → takes_all round bytes ≤ length bytes
takes_all_lem round bytes = omega arith

write_to_socket_never_returns_example :
    (t : ℕ) × (write_to_socket takes_all 7 ≡ looping t (take t hello_world)) × (t ≤ 11)
write_to_socket_never_returns_example = write_to_socket_never_returns takes_all takes_all_lem 7

-- The second answer is cut, and on a third chunk `send` throws.
abbrev answered : List (Bytes × ℕ)
answered = (1 ∷ 2 ∷ [], 1024) ∷ (3 ∷ [], 5) ∷ []

-- A JSON library for which a text is its own data, with the id 7.
abbrev pub plain_json : JsonText
plain_json = record {
  id = λ text. done 7;
  text = λ text. done text;
  styled = λ text data_text. data_text;
}

abbrev pub idle_session : CSession
idle_session = record {
  uuid = 3;
  reader = record {
    b_head_parse = false;
    recv_head_node = record { block = 0 ∷ 0 ∷ 0 ∷ 0 ∷ 0 ∷ []; total_len = pos 4; cur_len = 0 };
    recv_msg_node = none;
  };
  sender = new_sender;
  socket_open = true;
  b_close = false;
}

abbrev pub idle_sessions : Sessions
idle_sessions _ = idle_session

-- The deadline is reached while the answer is being written.
abbrev http_events : List HttpEvent
http_events = has_read get_count ∷ expires ∷ has_read post_email ∷ write_ends true ∷ wait_fails ∷ []

start_connection-Lives_example :
    (c : Connection) × (p : Program) × (run_http plain_rendering http_events start_connection
        program
      ≡ done (c, p))
    × Lives c
start_connection-Lives_example =
    start_connection-Lives plain_rendering http_events program (tt, (tt, tt))
