-- ===== src/Tests/Loops.antt =====
-- Runs of IOContextPoolServer as a whole.
use asio_network.Base.{ℕ, ◌≡◌, refl, List, [], ◌∷◌, ◌++◌}
use asio_network.Wire.Memory.{Bytes, read_at, write_at}
use asio_network.Wire.Host.{big_endian, little_endian, short_of, bytes_of_short, swap_bytes}
use asio_network.Wire.Exec.{done, value_or}
use asio_network.Wire.Node.{msg_node, send_node, new_array, put_nul, clear, clear_block, fill}
use asio_network.Framing.Reader.{
  turn, receive, finish, message_part, open_message, head_part, body_part,
}
use asio_network.Logic.{post_msg2que, register_callbacks, deal_front, dispatch}
use asio_network.Sender.{send, handle_write, async_send}
use asio_network.Session.{send_string}
use asio_network.Session.Format.{csession_header, check_id, check_len}
use asio_network.Session.Receive.{frames}
use asio_network.Session.Hello.{hello_world_callback}
use asio_network.Strand.{give, dispatch_front, after_turn, strand_step, on_strand, start_on_strand}
use asio_network.Fleet.{replaced, take_front, on_fleet, start_fleet}
use asio_network.Fleet.Answers.{requests, replies}
use asio_network.Service.{
  start_service, run_service, on_service, on_session, worker_takes, receiving_half, handler_writes,
  end_first_write,
}
use asio_network.Tests.Plain.{plain_json, idle_sessions}
use asio_network.Tests.Fleets.{readers, senders, questions}
use asio_network.Base.{none}
use asio_network.Loop.{
  Loop, LoopEvent, completes, calls_next, handles, deals, reads, writes, run_loop, on_loop,
  call_next, handle, queue_completion, start_loop,
}
use asio_network.Loop.Single.{IsSingle}
use asio_network.Loop.Clients.{loop_sends_replies, loop_clients_served}
use asio_network.Tests.Services.{questions-Opens}

-- The peer of session 1 asks its question, and gets the answer.
abbrev events : List LoopEvent
events =
    completes 1 (reads 100)
    ∷ calls_next
    ∷ handles
    ∷ deals
    ∷ completes 1 writes
    ∷ handles
    ∷ calls_next
    ∷ handles
    ∷ []

abbrev opening : Loop
opening = start_loop readers (λ k. frames (senders k) (requests (questions k))) idle_sessions

unfoldable looped : Loop
looped = value_or opening (run_loop big_endian plain_json events opening)

run-looped :
    (run_loop big_endian plain_json events opening ≡ done looped)
    × (looped.ready ≡ [])
    × (looped.current ≡ none)
    × ((looped.service.fleet.sessions 1).incoming ≡ [])
    × (looped.service.fleet.logic.msg_que ≡ [])
    × (((looped.service.sessions 1).sender).send_queue ≡ [])
unfolding looped run_loop on_loop call_next handle queue_completion start_loop run_service
    on_service on_session worker_takes receiving_half handler_writes end_first_write start_service
    on_fleet replaced take_front start_fleet on_strand start_on_strand give dispatch_front
    strand_step after_turn turn receive finish message_part open_message head_part body_part
    csession_header check_id check_len short_of bytes_of_short swap_bytes big_endian little_endian
    post_msg2que msg_node send_node new_array put_nul clear clear_block fill read_at write_at
    deal_front register_callbacks dispatch hello_world_callback send_string send handle_write
    async_send
run-looped = (refl, refl, refl, refl, refl, refl)

loop_sends_replies_example :
    (w : Loop) × (run_loop big_endian plain_json events opening ≡ done w)
    × IsSingle w
    × ((k : ℕ)
        → (left : Bytes) × (w.service.sent k ++ left
            ≡ frames big_endian (replies plain_json (questions k))))
loop_sends_replies_example =
    loop_sends_replies senders big_endian plain_json questions events readers idle_sessions
      questions-Opens

loop_clients_served_example :
    looped.service.sent 1 ≡ frames big_endian (replies plain_json (questions 1))
loop_clients_served_example =
    loop_clients_served senders big_endian plain_json questions events readers idle_sessions looped
      1 questions-Opens run-looped.0 run-looped.1 run-looped.2 run-looped.3 run-looped.4
      run-looped.5
