-- ===== src/Service/Runs.antt =====
-- The worker of the whole server, and its runs.
use asio_network.Base.{
  ℕ, ◌≡◌, refl, sym, ap, ◌∙◌, inl, inr, false, Bool-cases, List, [], ◌∷◌, ◌++◌, append-nil,
  append_assoc, arith, ◌==◌, ==_iff, ==_refl, All,
}
use asio_network.Wire.Memory.{Bytes}
use asio_network.Wire.Host.{Host}
use asio_network.Wire.Exec.{done}
use asio_network.Framing.Stream.{Frame, head}
use asio_network.Logic.{LogicNode, LogicSystem}
use asio_network.Session.{CSession}
use asio_network.Session.Receive.{logic_nodes, with_posted}
use asio_network.Session.Hello.{JsonText, with_session}
use asio_network.Strand.Follows.{goal}
use asio_network.Fleet.{Fleet, take_front, no_logic}
use asio_network.Fleet.Isolated.{
  nodes_of, nodes_of-append, Isolated, alone, posted_by, deal-Isolated,
}
use asio_network.Fleet.Answers.{Question, requests, IsQuestion}
use asio_network.Service.{
  Service, ServiceEvent, session_event, worker_deals, worker_takes, on_service, run_service,
}
use asio_network.Service.Answered.{Answers, answer_next}
use asio_network.Service.Begun.{posted-Extends}
use asio_network.Service.Serves.{Serves, on_session-Serves}

module _ (host : Host) (json : JsonText) (qs : ℕ → List Question) (streams : ℕ → Bytes) where
  module _ (asked : (k : ℕ) → All (IsQuestion json) (qs k))
      (arrives : (k : ℕ)
        → goal host k (head []) no_logic (streams k) (streams k)
          ≡ (head [], with_posted no_logic (logic_nodes k (requests (qs k))))) where
    -- What a session has still to get is behind what the worker has taken.
    to_come :
        (x : LogicNode) (rest : List LogicNode) (f : Fleet)
        → f.logic.msg_que ≡ x ∷ rest
        → Isolated host streams f
        → (more : List LogicNode) × (logic_nodes x.session (requests (qs x.session))
            ≡ nodes_of x.session f.dealt ++ (x ∷ more))
    to_come x rest f front isolated =
        let k : ℕ = x.session in
        let (left, e) =
          posted-Extends host k (head []) no_logic (streams k) (alone k f) (isolated k) in
        let all : logic_nodes k (requests (qs k)) ≡ posted_by k f ++ left =
          ap (λ (g : Frame × LogicSystem). (g.1).msg_que) (sym (arrives k))
          ∙ ap (λ (l : LogicSystem). l.msg_que) e in
        let mine : nodes_of k (x ∷ rest) ≡ x ∷ nodes_of k rest = rw (==_refl k) refl in
        (
          nodes_of k rest ++ left,
          all
              ∙ ap (λ (que : List LogicNode). nodes_of k (f.dealt ++ que) ++ left) front
              ∙ ap (λ (nodes : List LogicNode). nodes ++ left)
                  (nodes_of-append k f.dealt (x ∷ rest))
              ∙ append_assoc (nodes_of k f.dealt) (nodes_of k (x ∷ rest)) left
              ∙ ap (λ (nodes : List LogicNode). nodes_of k f.dealt ++ (nodes ++ left)) mine,
        )

    other-Answers :
        (x : LogicNode) (j : ℕ) (dealt : List LogicNode) (c : CSession) (sent : Bytes)
        → (x.session == j) ≡ false
        → Answers host json qs j dealt c sent
        → Answers host json qs j (dealt ++ (x ∷ [])) c sent
    other-Answers x j dealt c sent there a =
        let nothing : nodes_of j (x ∷ []) ≡ [] = rw there refl in
        record {
          answered = a.answered;
          remaining = a.remaining;
          whole = a.whole;
          taken_eq =
              nodes_of-append j dealt (x ∷ [])
              ∙ ap (λ (nodes : List LogicNode). nodes_of j dealt ++ nodes) nothing
              ∙ append-nil (nodes_of j dealt)
              ∙ a.taken_eq;
          ordered = a.ordered;
          room = a.room;
        }

    worker_takes-Serves :
        (que : List LogicNode) (w : Service)
        → w.fleet.logic.msg_que ≡ que
        → Serves host json qs streams w
        → (w' : Service) × (worker_takes host json que w ≡ done w') × Serves host json qs streams w'
    unfolding worker_takes take_front
    worker_takes-Serves [] w front v = (w, refl, v)
    worker_takes-Serves (x ∷ rest) w front v =
        let k : ℕ = x.session in
        let (more, posted) = to_come x rest w.fleet front v.isolated in
        let (c, e, a, grows) =
          answer_next host json qs x w.fleet.dealt more w.sessions (w.sent k) asked posted
            (v.answers k) in
        (
          record w {
            fleet = take_front (x ∷ rest) w.fleet;
            sessions = with_session w.sessions k c;
          },
          rw e refl,
          record {
            isolated = deal-Isolated host streams w.fleet (x ∷ rest) front v.isolated;
            answers = λ j. elim (Bool-cases (k == j)) [
              | inl here ↦ rw (here, sym ((==_iff k j).0 here)) a
              | inr there ↦
                  rw there
                    (other-Answers x j w.fleet.dealt (w.sessions j) (w.sent j) there (v.answers j))
            ];
            writes = λ j. elim (Bool-cases (k == j)) [
              | inl here ↦ rw (here, sym ((==_iff k j).0 here)) (omega (arith, v.writes k, grows))
              | inr there ↦ rw there (v.writes j)
            ];
          },
        )

    on_service-Serves :
        (e : ServiceEvent) (w : Service)
        → Serves host json qs streams w
        → (w' : Service) × (on_service host json e w ≡ done w') × Serves host json qs streams w'
    unfolding on_service
    on_service-Serves (session_event k e) w v =
        on_session-Serves host json qs streams asked arrives k e w v
    on_service-Serves worker_deals w v = worker_takes-Serves w.fleet.logic.msg_que w refl v

    pub run_service-Serves :
        (events : List ServiceEvent) (w : Service)
        → Serves host json qs streams w
        → (w' : Service) × (run_service host json events w ≡ done w')
          × Serves host json qs streams w'
    unfolding run_service
    run_service-Serves [] w v = (w, refl, v)
    run_service-Serves (e ∷ events) w v =
        let (w1, e1, v1) = on_service-Serves e w v in
        let (w2, e2, v2) = run_service-Serves events w1 v1 in (w2, rw e1 e2, v2)
