-- ===== src/Loop/Clients.antt =====
-- What the clients of IOContextPoolServer get.
use asio_network.Base.{
  ℕ, ◌≡◌, refl, sym, ap, ◌∙◌, inl, inr, none, List, [], ◌∷◌, ◌++◌, arith, length,
}
use asio_network.Wire.Memory.{Bytes}
use asio_network.Wire.Host.{Host}
use asio_network.Wire.Exec.{Exec, done, ◌>>=◌}
use asio_network.Framing.Reader.{Reader}
use asio_network.Session.Receive.{frames}
use asio_network.Session.Hello.{JsonText, Sessions}
use asio_network.Strand.{Handler, start_on_strand}
use asio_network.Fleet.{start_fleet}
use asio_network.Fleet.Answers.{Question, requests, replies, IsQuiet}
use asio_network.Service.{start_service}
use asio_network.Service.Clients.{Opens, service_sends_replies, clients_served}
use asio_network.Loop.{Loop, LoopEvent, run_loop, start_loop}
use asio_network.Loop.Counts.{count}
use asio_network.Loop.Moves.{bind_inv, done_inj}
use asio_network.Loop.Simulates.{run_loop-Simulates}
use asio_network.Loop.Single.{IsSingle, run_loop-IsSingle}

none_waits : (q : List Handler) → 0 ≡ length q → q ≡ []
none_waits [] e = refl
none_waits (h ∷ q) e = absurd (omega (arith, e))

-- With nothing ready and no session at hand, no handler is left.
is_quiet :
    (k : ℕ) (w : Loop)
    → IsSingle w
    → w.ready ≡ []
    → w.current ≡ none
    → (w.service.fleet.sessions k).incoming ≡ []
    → IsQuiet (w.service.fleet.sessions k)
is_quiet k w v none_ready free all_read = record {
  all_read = all_read;
  none_queued =
      none_waits (w.service.fleet.sessions k).strand (ap (count k) (sym none_ready) ∙ v.queued k);
  none_running = elim (v.one k) [ inl busy ↦ cc (busy, free) | inr at_rest ↦ at_rest ];
}

module _ (senders : ℕ → Host) (host : Host) (json : JsonText) (qs : ℕ → List Question)
    (events : List LoopEvent) (readers : ℕ → Reader) (sessions : Sessions) where
  abbrev streams : ℕ → Bytes
  streams k = frames (senders k) (requests (qs k))

  started-IsSingle : IsSingle (start_loop readers streams sessions)
  unfolding start_loop start_service start_fleet start_on_strand
  started-IsSingle = record { queued = λ j. refl; one = λ j. inr refl }

  -- Where every peer of IOContextPoolServer asks MSG_HELLO_WORLD questions that have answers, and
  -- not more of them than the send queue of its session has room for, and every write takes all that
  -- it is offered: whatever completes in whatever order, the run is defined, at most one session has
  -- a handler that runs, every handler that waits has its place in the queue of the io_context of
  -- main, and what has been sent to each peer is a first part of the frames of the replies to its
  -- own questions, in their order.
  pub loop_sends_replies :
      Opens json qs readers sessions
      → (w : Loop) × (run_loop host json events (start_loop readers streams sessions) ≡ done w)
        × IsSingle w
        × ((k : ℕ)
            → (left : Bytes) × (w.service.sent k ++ left ≡ frames host (replies json (qs k))))
  unfolding start_loop
  loop_sends_replies opens =
      let begun : Loop = start_loop readers streams sessions in
      let (done_by, sim) = run_loop-Simulates host json events begun in
      let (service, served, sends) =
        service_sends_replies senders host json qs done_by readers sessions opens in
      let (w, ran, same) =
        bind_inv (run_loop host json events begun) (λ w. done w.service) (sim ∙ served) in
      (
        w,
        ran,
        run_loop-IsSingle host json events begun w ran started-IsSingle,
        rw (done_inj same) sends,
      )

  -- Where every peer of IOContextPoolServer asks MSG_HELLO_WORLD questions that have answers, and
  -- not more of them than the send queue of its session has room for, and every write takes all that
  -- it is offered: when all bytes of a peer have been read, no handler waits or runs, the worker has
  -- taken every message and the send queue of its session is empty, exactly the replies to all its
  -- questions have been sent to it, in their order.
  pub loop_clients_served :
      (w : Loop) (k : ℕ)
      → Opens json qs readers sessions
      → run_loop host json events (start_loop readers streams sessions) ≡ done w
      → w.ready ≡ []
      → w.current ≡ none
      → (w.service.fleet.sessions k).incoming ≡ []
      → w.service.fleet.logic.msg_que ≡ []
      → ((w.service.sessions k).sender).send_queue ≡ []
      → w.service.sent k ≡ frames host (replies json (qs k))
  unfolding start_loop
  loop_clients_served w k opens ran none_ready free all_read all_taken all_written =
      let begun : Loop = start_loop readers streams sessions in
      let (done_by, sim) = run_loop-Simulates host json events begun in
      clients_served senders host json qs done_by readers sessions w.service k opens
        (sym sim ∙ ap (λ (run : Exec Loop). run >>= λ w. done w.service) ran)
        (is_quiet k w (run_loop-IsSingle host json events begun w ran started-IsSingle) none_ready
          free all_read)
        all_taken all_written
