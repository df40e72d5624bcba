-- ===== src/Tests/Services.antt =====
-- Runs of IOThreadPoolServer as a whole.
use asio_network.Base.{ℕ, ◌≡◌, refl, List, [], ◌∷◌, ◌++◌}
use asio_network.Wire.Memory.{Bytes, read_at, write_at}
use asio_network.Wire.Host.{big_endian, little_endian, short_of, bytes_of_short, swap_bytes}
use asio_network.Wire.Exec.{done, value_or}
use asio_network.Wire.Node.{msg_node, send_node, new_array, put_nul, clear, clear_block, fill}
use asio_network.Framing.Reader.{
  turn, receive, finish, message_part, open_message, head_part, body_part,
}
use asio_network.Logic.{post_msg2que, register_callbacks, deal_front, dispatch}
use asio_network.Sender.{send, handle_write, async_send}
use asio_network.Session.{send_string}
use asio_network.Session.Format.{csession_header, check_id, check_len}
use asio_network.Session.Receive.{frames}
use asio_network.Session.Hello.{hello_world_callback}
use asio_network.Strand.{
  gives, write_ends, dispatches, goes_on, give, dispatch_front, after_turn, strand_step, on_strand,
  start_on_strand,
}
use asio_network.Fleet.{replaced, take_front, on_fleet, start_fleet}
use asio_network.Fleet.Answers.{requests, replies, IsQuiet}
use asio_network.Service.{
  Service, ServiceEvent, session_event, worker_deals, start_service, run_service, on_service,
  on_session, worker_takes, receiving_half, handler_writes, end_first_write,
}
use asio_network.Service.Clients.{Opens, service_sends_replies, clients_served}
use asio_network.Tests.Servers.{new_sender-Ordered}
use asio_network.Tests.Plain.{plain_json, idle_sessions}
use asio_network.Tests.Fleets.{readers, senders, questions, questions-AreQuestions, questions-fit}
use asio_network.Tests.{fresh_reader-Shows}

-- The peer of session 1 asks its question, and gets the answer.
abbrev events : List ServiceEvent
events =
    session_event 1 (gives 100)
    ∷ session_event 1 dispatches
    ∷ session_event 1 goes_on
    ∷ worker_deals
    ∷ session_event 1 write_ends
    ∷ session_event 1 goes_on
    ∷ session_event 1 dispatches
    ∷ session_event 1 goes_on
    ∷ []

abbrev opening : Service
opening = start_service readers (λ k. frames (senders k) (requests (questions k))) idle_sessions

pub questions-Opens : Opens plain_json questions readers idle_sessions
questions-Opens = record {
  asked = questions-AreQuestions;
  shown = λ k. fresh_reader-Shows;
  nothing_sent = λ k. new_sender-Ordered;
  room = questions-fit;
}

unfoldable served : Service
served = value_or opening (run_service big_endian plain_json events opening)

run-served :
    (run_service big_endian plain_json events opening ≡ done served)
    × IsQuiet (served.fleet.sessions 1)
    × (served.fleet.logic.msg_que ≡ [])
    × (((served.sessions 1).sender).send_queue ≡ [])
unfolding served run_service on_service on_session worker_takes receiving_half handler_writes
    end_first_write start_service on_fleet replaced take_front start_fleet on_strand start_on_strand
    give dispatch_front strand_step after_turn turn receive finish message_part open_message
    head_part body_part csession_header check_id check_len short_of bytes_of_short swap_bytes
    big_endian little_endian post_msg2que msg_node send_node new_array put_nul clear clear_block
    fill read_at write_at deal_front register_callbacks dispatch hello_world_callback send_string
    send handle_write async_send
run-served = (refl, record { all_read = refl; none_queued = refl; none_running = refl }, refl, refl)

service_sends_replies_example :
    (w : Service) × (run_service big_endian plain_json events opening ≡ done w)
    × ((k : ℕ)
        → (left : Bytes) × (w.sent k ++ left
            ≡ frames big_endian (replies plain_json (questions k))))
service_sends_replies_example =
    service_sends_replies senders big_endian plain_json questions events readers idle_sessions
      questions-Opens

clients_served_example : served.sent 1 ≡ frames big_endian (replies plain_json (questions 1))
clients_served_example =
    clients_served senders big_endian plain_json questions events readers idle_sessions served 1
      questions-Opens run-served.0 run-served.1 run-served.2 run-served.3
