-- ===== src/Tests/Strands.antt =====
-- Runs of a session on a strand.
use asio_network.Base.{◌≡◌, ◌≢◌, refl, true, false, some, List, [], ◌∷◌, arith, replicate}
use asio_network.Base.Int.{pos}
use asio_network.Wire.Memory.{read_at, write_at}
use asio_network.Wire.Host.{big_endian, little_endian, short_of}
use asio_network.Wire.Exec.{done}
use asio_network.Wire.Node.{msg_node, new_array, put_nul, clear, clear_block, fill}
use asio_network.Framing.Stream.{head, broken, feeds}
use asio_network.Framing.Reader.{
  turn, receive, finish, message_part, open_message, head_part, body_part,
}
use asio_network.Framing.Reader.Loop.{received_in, received_in-Window}
use asio_network.Session.Format.{max_length}
use asio_network.Framing.Stream.{feed, opened_by}
use asio_network.Logic.{post_msg2que}
use asio_network.Session.Format.{csession_header, check_id, check_len}
use asio_network.Session.Receive.{frames, logic_nodes, with_posted, feeds-frames}
use asio_network.Strand.{
  Event, gives, dispatches, goes_on, write_ends, in_loop, nobody, Stranded, give, dispatch_front,
  after_turn, strand_step, steps_left, on_strand, run_strand, start_on_strand,
}
use asio_network.Strand.Follows.{goal, Follows, is_handled}
use asio_network.Strand.Leaves.{handler_leaves, started-Follows}
use asio_network.Tests.{
  both, both_bytes, hello-IsMessage, nothing-IsMessage, fresh_reader, fresh_reader-Shows,
  no_messages,
}

both-sane :
    (goal big_endian 7
      (head [])
      no_messages
      (frames little_endian both)
      (frames little_endian both)).0
    ≢ broken
both-sane q = cc (
  q,
  feeds-frames little_endian big_endian 7 both no_messages
      (hello-IsMessage, (nothing-IsMessage, tt)),
)

-- The second chunk arrives before the first has left its handler.
abbrev schedule : List Event
schedule =
    gives 3
    ∷ dispatches
    ∷ goes_on
    ∷ write_ends
    ∷ gives 100
    ∷ dispatches
    ∷ goes_on
    ∷ dispatches
    ∷ goes_on
    ∷ dispatches
    ∷ goes_on
    ∷ goes_on
    ∷ goes_on
    ∷ []

abbrev served : Stranded
served = record {
  reader = record fresh_reader {
    recv_msg_node =
        some
          (record { node = record { block = 0 ∷ []; total_len = pos 0; cur_len = 0 }; msg_id = 5 });
  };
  logic = with_posted no_messages (logic_nodes 7 both);
  incoming = [];
  read_armed = true;
  strand = [];
  running = nobody;
  socket_open = true;
  is_cleared = false;
}

run-bytes :
    run_strand big_endian 7 schedule (start_on_strand fresh_reader no_messages both_bytes)
    ≡ done served
unfolding run_strand on_strand start_on_strand give dispatch_front strand_step after_turn turn
    receive finish message_part open_message head_part body_part csession_header check_id check_len
    short_of big_endian post_msg2que msg_node new_array put_nul clear clear_block fill read_at
    write_at
run-bytes = refl

started-Follows_example :
    (s : Stranded) × (run_strand big_endian 7 schedule
        (start_on_strand fresh_reader no_messages (frames little_endian both))
      ≡ done s)
    × Follows big_endian 7 (head []) no_messages (frames little_endian both) s
started-Follows_example =
    started-Follows big_endian 7 schedule fresh_reader no_messages (frames little_endian both)
      fresh_reader-Shows both-sane

-- A handler that has three bytes to handle.
abbrev three_left : Stranded
three_left = record {
  reader = fresh_reader;
  logic = no_messages;
  incoming = [];
  read_armed = false;
  strand = [];
  running = in_loop (received_in max_length (3 ∷ 233 ∷ 0 ∷ [])) 0 3;
  socket_open = true;
  is_cleared = false;
}

three_fed :
    goal big_endian 7 (head []) no_messages (3 ∷ 233 ∷ 0 ∷ []) (3 ∷ 233 ∷ 0 ∷ [])
    ≡ (head (3 ∷ 233 ∷ 0 ∷ []), no_messages)
unfolding feeds feed opened_by
three_fed = refl

three_left-sane :
    (goal big_endian 7 (head []) no_messages (3 ∷ 233 ∷ 0 ∷ []) (3 ∷ 233 ∷ 0 ∷ [])).0 ≢ broken
three_left-sane q = cc (q, three_fed)

three_left-Follows : Follows big_endian 7 (head []) no_messages (3 ∷ 233 ∷ 0 ∷ []) three_left
three_left-Follows =
    is_handled (head []) (3 ∷ 233 ∷ 0 ∷ []) (3 ∷ 233 ∷ 0 ∷ [])
      (received_in max_length (3 ∷ 233 ∷ 0 ∷ [])) 0 3 refl refl refl fresh_reader-Shows
      (received_in-Window max_length (3 ∷ 233 ∷ 0 ∷ [])) (omega arith) refl refl

handler_leaves_example :
    (s : Stranded) × (run_strand big_endian 7
        (replicate (steps_left three_left.running) goes_on)
        three_left
      ≡ done s)
    × (s.running ≡ nobody)
handler_leaves_example =
    handler_leaves big_endian 7 (head []) no_messages (3 ∷ 233 ∷ 0 ∷ []) three_left-sane three_left
      three_left-Follows
