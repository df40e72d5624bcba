-- ===== src/Tests.antt =====
-- Runs of the development at small inputs.
pub mod Servers
pub mod Plain
pub mod Async
pub mod Clients
pub mod Strands
pub mod Fleets
pub mod Services
pub mod Loops
pub mod Blocking
pub mod Mains
use asio_network.Base.{
  length, ◌<◌, ◌≤◌, ◌≡◌, ◌≢◌, refl, sym, Bool, true, false, none, some, List, [], ◌∷◌, ◌++◌, arith,
  All,
}
use asio_network.Base.Int.{pos}
use asio_network.Wire.Memory.{Bytes, read_at, write_at}
use asio_network.Wire.Host.{little_endian, big_endian, bytes_of_short, short_of, swap_bytes}
use asio_network.Wire.Exec.{done, undefined, Fails}
use asio_network.Wire.Node.{MsgNode, msg_node, send_node, new_array, put_nul}
use asio_network.Framing.Stream.{head, broken, feeds, feed, opened_by, opened_at, complete, settled}
use asio_network.Framing.Reader.{Reader, handle_bytes}
use asio_network.Framing.Reader.Shows.{Shows, in_head}
use asio_network.Framing.Reader.Chunks.{EndAlike, cut_anywhere, IsChunk, receive_all, state_of}
use asio_network.Wire.Node.Laws.{send_node-Fails}
use asio_network.Framing.Protocol.{Protocol, announce}
use asio_network.Framing.Reader.Loop.{Reaches, received_in, handle_bytes-Reaches}
use asio_network.Logic.{
  LogicSystem, LogicNode, Callback, register_callbacks, drain, deal_front, dispatch, post_msg2que,
}
use asio_network.Logic.Order.{
  Event, post, stops, works, Dispatcher, run, ended_with, call_all, shutdown,
}
use asio_network.Logic.Wakeup.{
  State, Steps, Reach, here, next, initial, deciding, asleep, joining, locks, decides, sleeps,
  posts, no_lost_wakeup,
}
use asio_network.Logic.Wakeup.Lost.{IsHung, stop_can_hang}
use asio_network.Sender.Order.{Ordered, accepts}
use asio_network.Server.{CServer, lookup, clear_session, handle_accept}
use asio_network.Session.Faults.{negative_length-Fails}
use asio_network.Session.Lifetime.{Leaves, handle_read-Leaves}
use asio_network.Sender.{
  Sender, handle_write, pop_and_start, new_sender, send, start_front, async_send,
}
use asio_network.Session.{World, handle_read, send_string, CSession, csession_protocol}
use asio_network.Session.Format.{csession_header, check_id, check_len, max_length}
use asio_network.Session.Receive.{
  logic_node, Message, IsMessage, frames, logic_nodes, with_posted, receive_all-frames,
}
use asio_network.Session.Send.{
  IsInOrder, unused-IsInOrder, complete_write, Ask, says, written_out, Link, run_asks, ask, unused,
  exchange,
}

abbrev pub hello : Message
hello = record { msg_id = 1001; payload = 104 ∷ 105 ∷ [] }

abbrev pub nothing : Message
nothing = record { msg_id = 5; payload = [] }

abbrev pub both : List Message
both = hello ∷ nothing ∷ []

abbrev pub both_bytes : Bytes
both_bytes = 3 ∷ 233 ∷ 0 ∷ 2 ∷ 104 ∷ 105 ∷ 0 ∷ 5 ∷ 0 ∷ 0 ∷ []

abbrev cut : List Bytes
cut = (3 ∷ 233 ∷ 0 ∷ []) ∷ (2 ∷ 104 ∷ []) ∷ (105 ∷ 0 ∷ 5 ∷ 0 ∷ 0 ∷ []) ∷ []

abbrev pub fresh_reader : Reader
fresh_reader = record {
  b_head_parse = false;
  recv_head_node = record { block = 0 ∷ 0 ∷ 0 ∷ 0 ∷ 0 ∷ []; total_len = pos 4; cur_len = 0 };
  recv_msg_node = none;
}

pub fresh_reader-Shows : Shows 4 fresh_reader (head [])
fresh_reader-Shows =
    in_head [] refl
      (record {
        is_node = record { total_len_eq = refl; room = refl };
        received = refl;
        cur_len_eq = refl;
        within = omega arith;
      })
      (omega arith)

abbrev pub no_messages : LogicSystem
no_messages = record { msg_que = []; b_stop = false }

pub hello-IsMessage : IsMessage hello
hello-IsMessage = record { id_fits = omega arith; id_passes = refl; len_passes = omega arith }

pub nothing-IsMessage : IsMessage nothing
nothing-IsMessage = record { id_fits = omega arith; id_passes = refl; len_passes = omega arith }

cut-IsChunk : All IsChunk cut
cut-IsChunk = (omega arith, (omega arith, (omega arith, tt)))

pub frames-both : frames little_endian both ≡ both_bytes
unfolding bytes_of_short little_endian swap_bytes
frames-both = refl

-- What is received at the other end.
receive_all-frames_example :
    state_of
      (csession_protocol big_endian 7)
      max_length
      (receive_all (csession_protocol big_endian 7) max_length cut fresh_reader no_messages)
    ≡ some (with_posted no_messages (logic_nodes 7 both))
receive_all-frames_example =
    receive_all-frames little_endian big_endian 7 both cut fresh_reader no_messages
      (hello-IsMessage, (nothing-IsMessage, tt)) cut-IsChunk (sym frames-both) fresh_reader-Shows

abbrev a_session : CSession
a_session = record {
  uuid = 3;
  reader = fresh_reader;
  sender = new_sender;
  socket_open = true;
  b_close = false;
}

abbrev script : List Ask
script = says hello ∷ says nothing ∷ written_out ∷ written_out ∷ []

abbrev script_end : Link
script_end = record { session = a_session; sent = both_bytes; accepted = both }

run-script : run_asks little_endian (unused a_session) script ≡ done script_end
unfolding run_asks ask complete_write send_string send start_front async_send handle_write
    pop_and_start send_node msg_node new_array put_nul write_at read_at bytes_of_short little_endian
    swap_bytes
run-script = refl

exchange_example :
    state_of
      (csession_protocol big_endian 7)
      max_length
      (receive_all (csession_protocol big_endian 7) max_length cut fresh_reader no_messages)
    ≡ some (with_posted no_messages (logic_nodes 7 both))
exchange_example =
    exchange little_endian big_endian script a_session script_end 7 cut fresh_reader no_messages
      (hello-IsMessage, (nothing-IsMessage, tt)) run-script refl cut-IsChunk refl fresh_reader-Shows

abbrev peer : Protocol LogicSystem
peer = csession_protocol big_endian 7

abbrev posted_both : LogicSystem
posted_both = with_posted no_messages (logic_nodes 7 both)

feeds-both : feeds peer both_bytes (head []) no_messages ≡ (head [], posted_both)
unfolding feeds feed opened_by opened_at complete settled csession_header check_id check_len
    short_of big_endian post_msg2que
feeds-both = refl

both-sane : (feeds peer both_bytes (head []) no_messages).0 ≢ broken
both-sane q = cc (q, feeds-both)

handle_bytes-Reaches_example :
    Reaches peer
      (feeds peer both_bytes (head []) no_messages)
      (handle_bytes peer (received_in 2048 both_bytes) fresh_reader 10 no_messages)
handle_bytes-Reaches_example =
    handle_bytes-Reaches peer 2048 fresh_reader (head []) both_bytes no_messages fresh_reader-Shows
      (omega arith) both-sane

cut_anywhere_example :
    EndAlike peer 2048
      (receive_all peer 2048 cut fresh_reader no_messages)
      (receive_all peer 2048 (both_bytes ∷ []) fresh_reader no_messages)
cut_anywhere_example =
    cut_anywhere peer 2048 cut (both_bytes ∷ []) fresh_reader (head []) no_messages
      fresh_reader-Shows cut-IsChunk (omega arith, tt) refl both-sane

abbrev a_world : World
a_world = record {
  session = record a_session { uuid = 7 };
  logic = no_messages;
  server = record { sessions = []; accepting = [] };
  reading = false;
}

handle_read-Leaves_example :
    Leaves a_world
      (feeds peer both_bytes (head []) no_messages)
      (handle_read big_endian false (received_in max_length both_bytes) 10 a_world)
handle_read-Leaves_example =
    handle_read-Leaves big_endian a_world (head []) both_bytes fresh_reader-Shows (omega arith)
      both-sane

-- The faults.
negative_header : csession_header big_endian (0 ∷ 1 ∷ 255 ∷ 255 ∷ []) ≡ some (announce 1 65535)
unfolding csession_header check_id check_len short_of big_endian
negative_header = refl

negative_length-Fails_example :
    Fails (
      handle_bytes peer
        (received_in max_length (0 ∷ 1 ∷ 255 ∷ 255 ∷ []))
        fresh_reader
        4
        no_messages)
negative_length-Fails_example =
    negative_length-Fails big_endian 7 1 65535 fresh_reader [] (0 ∷ 1 ∷ 255 ∷ 255 ∷ []) no_messages
      fresh_reader-Shows (omega arith) negative_header (omega arith) (omega arith)

-- Nodes and the queue of writes.
send_node-Fails_example : Fails (send_node little_endian (104 ∷ 0 ∷ []) 40000 1)
send_node-Fails_example =
    send_node-Fails little_endian (104 ∷ 0 ∷ []) 40000 1 (omega arith) (omega arith) (omega arith)

-- The logic system. Its callback keeps the texts that it is called with.
abbrev keep : Callback (List Bytes)
keep session id text w = done (w ++ (text ∷ []))

abbrev hello_logic : LogicNode
hello_logic = logic_node 7 hello

abbrev waiting : Dispatcher (List Bytes)
waiting = record {
  system = record { msg_que = hello_logic ∷ []; b_stop = false };
  world = [];
  finished = false;
}

abbrev schedule : List Event
schedule = works ∷ post hello_logic ∷ works ∷ stops ∷ post (logic_node 7 nothing) ∷ []

shutdown_example :
    run
      (register_callbacks keep)
      waiting
      (post hello_logic ∷ works ∷ post hello_logic ∷ stops ∷ works ∷ [])
    ≡ ended_with
        (register_callbacks keep)
        (call_all (register_callbacks keep) (hello_logic ∷ hello_logic ∷ hello_logic ∷ []) [])
shutdown_example =
    shutdown (register_callbacks keep) (post hello_logic ∷ works ∷ post hello_logic ∷ []) waiting tt
      refl refl

drain-hello : drain (register_callbacks keep) (hello_logic ∷ []) [] ≡ done ((104 ∷ 105 ∷ []) ∷ [])
unfolding drain deal_front dispatch register_callbacks read_at
drain-hello = refl

Reach-deciding : Reach (record initial { worker = deciding })
Reach-deciding = next (next here (locks refl)) (decides refl refl refl)

Reach-posted : Reach (record initial { worker = asleep; msg_count = 1; notifying = 1 })
Reach-posted = next (next Reach-deciding (sleeps refl)) (posts refl)

no_lost_wakeup_example : 0 < 1
no_lost_wakeup_example = no_lost_wakeup Reach-posted refl (omega arith)

stop_can_hang_example :
    (t : State) × Steps (record initial { worker = deciding }) t
    × IsHung t
    × (t.b_stop ≡ true)
    × (t.msg_count ≡ 0)
stop_can_hang_example = stop_can_hang Reach-deciding refl refl refl
