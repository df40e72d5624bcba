-- ===== src/Service/Clients.antt =====
-- What the clients of IOThreadPoolServer get, from its start on.
use asio_network.Base.{
  ℕ, ◌+◌, ◌≤◌, ◌≡◌, refl, sym, ap, ◌∙◌, List, [], ◌++◌, append-nil, arith, length, All,
}
use asio_network.Wire.Memory.{Bytes}
use asio_network.Wire.Host.{Host}
use asio_network.Wire.Exec.{done, value_or}
use asio_network.Framing.Stream.{Frame, head, feeds}
use asio_network.Framing.Reader.{Reader}
use asio_network.Framing.Reader.Shows.{Shows}
use asio_network.Logic.{LogicNode, LogicSystem}
use asio_network.Sender.{max_sendque_size}
use asio_network.Sender.Order.{Ordered}
use asio_network.Session.Receive.{frames, logic_nodes, feeds-frames}
use asio_network.Session.Hello.{JsonText, Sessions}
use asio_network.Strand.{start_on_strand}
use asio_network.Strand.Follows.{is_armed}
use asio_network.Strand.Leaves.{posted_all}
use asio_network.Fleet.{no_logic, start_fleet}
use asio_network.Fleet.Isolated.{nodes_of, alone, posted_by}
use asio_network.Fleet.Answers.{
  Question, requests, replies, IsQuestion, IsQuiet, requests-IsMessage,
}
use asio_network.Service.{Service, ServiceEvent, run_service, start_service}
use asio_network.Service.Answered.{sent_part, all_sent}
use asio_network.Service.Serves.{Serves}
use asio_network.Service.Runs.{run_service-Serves}

-- Every peer asks questions that have answers, no more than a send queue holds, and nothing has been
-- sent to any.
pub record Opens (json : JsonText) (qs : ℕ → List Question) (readers : ℕ → Reader)
    (sessions : Sessions) : Type 0 where
  pub asked : (k : ℕ) → All (IsQuestion json) (qs k)
  pub shown : (k : ℕ) → Shows 4 (readers k) (head [])
  pub nothing_sent : (k : ℕ) → Ordered [] [] (sessions k).sender
  pub room :
      (k : ℕ) → length ((sessions k).sender).send_queue + length (qs k) ≤ max_sendque_size + 1

module _ (senders : ℕ → Host) (host : Host) (json : JsonText) (qs : ℕ → List Question)
    (events : List ServiceEvent) (readers : ℕ → Reader) (sessions : Sessions) where
  abbrev streams : ℕ → Bytes
  streams k = frames (senders k) (requests (qs k))

  started-Serves :
      Opens json qs readers sessions
      → Serves host json qs streams (start_service readers streams sessions)
  unfolding start_service start_fleet start_on_strand
  started-Serves opens = record {
    isolated =
        λ k. is_armed (head []) [] refl refl refl (opens.shown k) refl (unfold feeds in refl);
    answers = λ k. record {
      answered = [];
      remaining = qs k;
      whole = refl;
      taken_eq = refl;
      ordered = opens.nothing_sent k;
      room = opens.room k;
    };
    writes = λ k. omega arith;
  }

  ran-Serves :
      Opens json qs readers sessions
      → (w : Service) × (run_service host json events (start_service readers streams sessions)
          ≡ done w)
        × Serves host json qs streams w
  ran-Serves opens =
      run_service-Serves host json qs streams opens.asked
        (λ k.
          feeds-frames (senders k) host k (requests (qs k)) no_logic
            (requests-IsMessage json host (qs k) (opens.asked k)))
        events (start_service readers streams sessions) (started-Serves opens)

  -- Where every peer of IOThreadPoolServer asks MSG_HELLO_WORLD questions that have answers, and not
  -- more of them than the send queue of its session has room for, and every write takes all that it
  -- is offered: however the events of the sessions, the ends of the writes and the worker follow one
  -- another, the run is defined, and what has been sent to each peer is at every moment a first part
  -- of the frames of the replies to its own questions, in their order.
  pub service_sends_replies :
      Opens json qs readers sessions
      → (w : Service) × (run_service host json events (start_service readers streams sessions)
          ≡ done w)
        × ((k : ℕ) → (left : Bytes) × (w.sent k ++ left ≡ frames host (replies json (qs k))))
  service_sends_replies opens =
      let (w, ran, v) = ran-Serves opens in
      (
        w,
        ran,
        λ k. (_, sent_part host json qs k w.fleet.dealt (w.sessions k) (w.sent k) (v.answers k)),
      )

  -- Where every peer of IOThreadPoolServer asks MSG_HELLO_WORLD questions that have answers, and not
  -- more of them than the send queue of its session has room for, and every write takes all that it
  -- is offered: when all bytes of a peer have been read, its session has no handler left, the worker
  -- has taken every message and the send queue of the session is empty, exactly the replies to all
  -- its questions have been sent to it, in their order, whatever the order of events.
  pub clients_served :
      (w : Service) (k : ℕ)
      → Opens json qs readers sessions
      → run_service host json events (start_service readers streams sessions) ≡ done w
      → IsQuiet (w.fleet.sessions k)
      → w.fleet.logic.msg_que ≡ []
      → ((w.sessions k).sender).send_queue ≡ []
      → w.sent k ≡ frames host (replies json (qs k))
  clients_served w k opens ran quiet all_taken all_written =
      let (w', e, v') = ran-Serves opens in
      let same : w' ≡ w = ap (value_or w) (sym e ∙ ran) in
      let v : Serves host json qs streams w = rw same at v' in
      let posted : posted_by k w.fleet ≡ logic_nodes k (requests (qs k)) =
        ap (λ (logic : LogicSystem). logic.msg_que)
          (posted_all host k no_logic (streams k) (alone k w.fleet) quiet.all_read quiet.none_queued
              quiet.none_running (v.isolated k)
            ∙ ap (λ (g : Frame × LogicSystem). g.1)
                (feeds-frames (senders k) host k (requests (qs k)) no_logic
                  (requests-IsMessage json host (qs k) (opens.asked k)))) in
      all_sent host json qs k w.fleet.dealt (w.sessions k) (w.sent k) (v.answers k)
        (ap (nodes_of k) (sym (append-nil w.fleet.dealt))
          ∙ ap (λ (que : List LogicNode). nodes_of k (w.fleet.dealt ++ que)) (sym all_taken)
          ∙ posted)
        all_written
