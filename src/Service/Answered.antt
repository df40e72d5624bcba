-- ===== src/Service/Answered.antt =====
-- What the worker has answered of the questions of a session, and what of that has been written.
use asio_network.Base.{
  ℕ, ◌+◌, ◌<◌, ◌≤◌, ◌≡◌, refl, sym, ap, ◌∙◌, List, [], ◌∷◌, ◌++◌, append-nil, append_assoc, arith,
  ==_refl, length, All,
}
use asio_network.Wire.Memory.{Bytes}
use asio_network.Wire.Host.{Host}
use asio_network.Wire.Exec.{done}
use asio_network.Logic.{LogicNode, register_callbacks, deal_front}
use asio_network.Sender.{max_sendque_size}
use asio_network.Sender.Order.{Ordered, texts}
use asio_network.Wire.Node.{MsgNode}
use asio_network.Session.{CSession}
use asio_network.Session.Receive.{frame, frames, logic_node, logic_nodes}
use asio_network.Session.Nodes.{length-frame, frames-snoc}
use asio_network.Session.Hello.{
  JsonText, Sessions, with_session, hello_world_callback, hello_world_answers,
}
use asio_network.Fleet.Isolated.{nodes_of, nodes_of-append}
use asio_network.Fleet.Answers.{
  no_question, Question, request, requests, reply, replies, IsQuestion, posted-StartsWith,
}
use asio_network.Service.{Service, sent_more, end_first_write}
use asio_network.Service.Questions.{
  requests-snoc, requests-append, replies-snoc, logic_nodes-append, asked_rest, append-cancel,
}
use asio_network.Service.Writing.{finish_parts, more_under_way}

-- The node of a question has been taken.
answered_nodes :
    (x : LogicNode) (dealt : List LogicNode) (answered : List Question) (q : Question)
    → nodes_of x.session dealt ≡ logic_nodes x.session (requests answered)
    → x ≡ logic_node x.session (request q)
    → nodes_of x.session (dealt ++ (x ∷ []))
      ≡ logic_nodes x.session (requests (answered ++ (q ∷ [])))
answered_nodes x dealt answered q taken is_node =
    let k : ℕ = x.session in
    let mine : nodes_of k (x ∷ []) ≡ x ∷ [] = rw (==_refl k) refl in
    nodes_of-append k dealt (x ∷ [])
    ∙ ap (λ (nodes : List LogicNode). nodes_of k dealt ++ nodes) mine
    ∙ ap (λ (nodes : List LogicNode). nodes ++ (x ∷ [])) taken
    ∙ ap (λ (node : LogicNode). logic_nodes k (requests answered) ++ (node ∷ [])) is_node
    ∙ sym (logic_nodes-append k (requests answered) (request q ∷ []))
    ∙ ap (logic_nodes k) (sym (requests-snoc answered q))

module _ (host : Host) (json : JsonText) where
  frames_of-append :
      (ps qs : List Question)
      → frames host (replies json (ps ++ qs))
        ≡ frames host (replies json ps) ++ frames host (replies json qs)
  frames_of-append [] qs = refl
  frames_of-append (p ∷ ps) qs =
      ap (λ (bytes : Bytes). frame host (reply json p) ++ bytes) (frames_of-append ps qs)
      ∙ sym (append_assoc (frame host (reply json p)) _ _)

module _ (host : Host) (json : JsonText) (qs : ℕ → List Question) where
  -- The worker has taken the first questions of a session and accepted their replies, and there is
  -- room for the others.
  pub record Answers (k : ℕ) (dealt : List LogicNode) (c : CSession) (sent : Bytes) : Type 0 where
    pub answered : List Question
    pub remaining : List Question
    pub whole : answered ++ remaining ≡ qs k
    pub taken_eq : nodes_of k dealt ≡ logic_nodes k (requests answered)
    pub ordered : Ordered (frames host (replies json answered)) sent c.sender
    pub room : length (c.sender).send_queue + length remaining ≤ max_sendque_size + 1

  asked_nodes :
      (k : ℕ) (dealt : List LogicNode) (c : CSession) (sent : Bytes) (a : Answers k dealt c sent)
      → logic_nodes k (requests (qs k)) ≡ nodes_of k dealt ++ logic_nodes k (requests a.remaining)
  asked_nodes k dealt c sent a =
      ap (λ (all : List Question). logic_nodes k (requests all)) (sym a.whole)
      ∙ ap (logic_nodes k) (requests-append a.answered a.remaining)
      ∙ logic_nodes-append k (requests a.answered) (requests a.remaining)
      ∙ ap (λ (nodes : List LogicNode). nodes ++ logic_nodes k (requests a.remaining))
          (sym a.taken_eq)

  answered_frames :
      (answered : List Question) (q : Question)
      → frames host (replies json (answered ++ (q ∷ [])))
        ≡ frames host (replies json answered) ++ frame host (reply json q)
  answered_frames answered q =
      ap (frames host) (replies-snoc json answered q)
      ∙ frames-snoc host (replies json answered) (reply json q)

  -- The worker takes the next question of the session.
  pub answer_next :
      (x : LogicNode) (dealt more : List LogicNode) (sessions : Sessions) (sent : Bytes)
      → ((k : ℕ) → All (IsQuestion json) (qs k))
      → logic_nodes x.session (requests (qs x.session)) ≡ nodes_of x.session dealt ++ (x ∷ more)
      → Answers x.session dealt (sessions x.session) sent
      → (c : CSession) × (deal_front
            (register_callbacks (hello_world_callback host json))
            x
            sessions
          ≡ done (with_session sessions x.session c))
        × Answers x.session (dealt ++ (x ∷ [])) c sent
        × (length (((sessions x.session).sender).in_flight) ≤ length ((c.sender).in_flight))
  answer_next x dealt more sessions sent asked posted a =
      let k : ℕ = x.session in
      let next : x ∷ more ≡ logic_nodes k (requests a.remaining) =
        append-cancel (nodes_of k dealt) (x ∷ more) (logic_nodes k (requests a.remaining))
          (sym posted ∙ asked_nodes k dealt (sessions k) sent a) in
      let (q, rest, is_first, is_node, others) = posted-StartsWith json k x more a.remaining next in
      let valid : All (IsQuestion json) (q ∷ rest) =
        rw is_first at (asked_rest json a.answered a.remaining (rw (sym a.whole) at (asked k))) in
      let fits : length ((sessions k).sender).send_queue + (length rest + 1)
          ≤ max_sendque_size + 1 =
        omega (arith, a.room, ap length is_first) in
      let (c, answers, o, grows) =
        hello_world_answers host json sessions k q.id q.payload q.data_text
          (frames host (replies json a.answered)) sent valid.0.has_id valid.0.has_text
          valid.0.reply_valid a.ordered (omega (arith, fits)) in
      (
        c,
        ap
              (λ (node : LogicNode).
                deal_front (register_callbacks (hello_world_callback host json)) node sessions)
              is_node
            ∙ answers,
        record {
          answered = a.answered ++ (q ∷ []);
          remaining = rest;
          whole =
              append_assoc a.answered (q ∷ []) rest
              ∙ ap (λ (r : List Question). a.answered ++ r) (sym is_first)
              ∙ a.whole;
          taken_eq = answered_nodes x dealt a.answered q a.taken_eq is_node;
          ordered = rw (answered_frames a.answered q) o;
          room = omega (arith, fits, grows);
        },
        more_under_way (frames host (replies json a.answered)) (frame host (reply json q)) sent
            (sessions k).sender c.sender a.ordered o
            (omega (arith, length-frame host (reply json q))),
      )

  -- The write under way ends.
  pub write_next :
      (k : ℕ) (dealt : List LogicNode) (w : Service)
      → 0 < length (((w.sessions k).sender).in_flight)
      → Answers k dealt (w.sessions k) (w.sent k)
      → (c : CSession) × (bytes : Bytes) × (end_first_write k ((w.sessions k).sender).in_flight w
          ≡ done (record w {
            sessions = with_session w.sessions k c;
            sent = sent_more w.sent k bytes;
          }))
        × Answers k dealt c (w.sent k ++ bytes)
  unfolding end_first_write
  write_next k dealt w busy a =
      let s = (w.sessions k).sender in
      let (bytes, s', flight, e, o, fewer) =
        finish_parts (frames host (replies json a.answered)) (w.sent k) s.send_queue s.in_flight
          s.cleared a.ordered busy in
      (
        record (w.sessions k) { sender = s' },
        bytes,
        ap (λ (writes : List Bytes). end_first_write k writes w) flight ∙ rw e refl,
        record {
          answered = a.answered;
          remaining = a.remaining;
          whole = a.whole;
          taken_eq = a.taken_eq;
          ordered = o;
          room = omega (arith, fewer, a.room);
        },
      )

  module _ (k : ℕ) (dealt : List LogicNode) (c : CSession) (sent : Bytes)
      (a : Answers k dealt c sent) where
    -- What has been sent, what is queued, and the replies that are not asked for yet.
    pub sent_part :
        sent ++ (texts (c.sender).send_queue ++ frames host (replies json a.remaining))
        ≡ frames host (replies json (qs k))
    sent_part =
        sym (append_assoc sent (texts (c.sender).send_queue) _)
        ∙ ap (λ (bytes : Bytes). bytes ++ frames host (replies json a.remaining))
            (a.ordered).in_order
        ∙ sym (frames_of-append host json a.answered a.remaining)
        ∙ ap (λ (all : List Question). frames host (replies json all)) a.whole

    none_remaining : nodes_of k dealt ≡ logic_nodes k (requests (qs k)) → a.remaining ≡ []
    none_remaining all = no_question json k a.remaining (
        append-cancel (nodes_of k dealt) [] (logic_nodes k (requests a.remaining))
          (append-nil (nodes_of k dealt) ∙ all ∙ asked_nodes k dealt c sent a))

    -- The worker has taken everything, and the send queue is empty.
    pub all_sent :
        nodes_of k dealt ≡ logic_nodes k (requests (qs k))
        → (c.sender).send_queue ≡ []
        → sent ≡ frames host (replies json (qs k))
    all_sent all empty =
        sym (append-nil sent)
        ∙ ap (λ (queue : List MsgNode). sent ++ (texts queue ++ [])) (sym empty)
        ∙ ap
            (λ (left : List Question).
              sent ++ (texts (c.sender).send_queue ++ frames host (replies json left)))
            (sym (none_remaining all))
        ∙ sent_part
