-- ===== src/Fleet/Answers.antt =====
-- The worker's answers to all that the sessions have posted, each on its own session.
use asio_network.Base.{
  ℕ, ◌+◌, ◌≤◌, ◌≡◌, inl, inr, refl, sym, ap, ◌∙◌, false, Bool-cases, List, [], ◌∷◌, ◌++◌,
  append-nil, append_assoc, ◌==◌, ==_iff, ==_refl, if◌then◌else◌, length, arith, All,
}
use asio_network.Wire.Memory.{Bytes}
use asio_network.Wire.Host.{Host}
use asio_network.Wire.Exec.{Exec, done, ◌>>=◌}
use asio_network.Logic.{LogicNode, msg_hello_world, register_callbacks, deal_front, drain}
use asio_network.Sender.{max_sendque_size}
use asio_network.Sender.Order.{Ordered}
use asio_network.Session.{CSession}
use asio_network.Session.Receive.{Message, IsMessage, frame, frames, logic_node, logic_nodes}
use asio_network.Session.Hello.{
  JsonText, Sessions, with_session, hello_reply, hello_world_callback, hello_world_answers,
}
use asio_network.Framing.Stream.{head}
use asio_network.Framing.Reader.{Reader}
use asio_network.Framing.Reader.Shows.{Shows}
use asio_network.Strand.{Stranded, nobody}
use asio_network.Fleet.{Fleet, FleetEvent, run_fleet, start_fleet}
use asio_network.Fleet.Served.{fleet_posts}
use asio_network.Fleet.Isolated.{nodes_of}

-- The text of a MSG_HELLO_WORLD message, with what jsoncpp finds in it.
pub record Question : Type 0 where
  pub payload : Bytes
  pub id : ℕ
  pub data_text : Bytes

abbrev pub request : Question → Message
request q = record { msg_id = msg_hello_world; payload = q.payload }

abbrev pub requests : List Question → List Message
requests [] = []
requests (q ∷ qs) = request q ∷ requests qs

-- All bytes have been read and no handler is left.
pub record IsQuiet (s : Stranded) : Type 0 where
  pub all_read : s.incoming ≡ []
  pub none_queued : s.strand ≡ []
  pub none_running : s.running ≡ nobody

module _ (json : JsonText) where
  abbrev pub reply : Question → Message
  reply q = record { msg_id = q.id; payload = hello_reply json q.payload q.data_text }

  abbrev pub replies : List Question → List Message
  replies [] = []
  replies (q ∷ qs) = reply q ∷ replies qs

  pub record IsQuestion (q : Question) : Type 0 where
    pub request_valid : IsMessage (request q)
    pub has_id : json.id q.payload ≡ done q.id
    pub has_text : json.text q.payload ≡ done q.data_text
    pub reply_valid : IsMessage (reply q)

  -- A session that has posted these questions among the nodes, and has room for the answers.
  pub record Awaits (k : ℕ) (nodes : List LogicNode) (qs : List Question) (accepted sent : Bytes)
      (c : CSession) : Type 0 where
    pub posted : nodes_of k nodes ≡ logic_nodes k (requests qs)
    pub questions : All IsQuestion qs
    pub ordered : Ordered accepted sent c.sender
    pub room : length (c.sender).send_queue + length qs ≤ max_sendque_size + 1

  head_or : LogicNode → List LogicNode → LogicNode
  head_or x [] = x
  head_or x (y ∷ ys) = y

  tail_of : List LogicNode → List LogicNode
  tail_of [] = []
  tail_of (y ∷ ys) = ys

  -- Where a node of the session is the first, it is its first question.
  abbrev pub StartsWith : ℕ → LogicNode → List LogicNode → List Question → Type 0
  StartsWith k x nodes qs =
      (q : Question) × (rest : List Question) × (qs ≡ q ∷ rest)
      × (x ≡ logic_node k (request q))
      × (nodes ≡ logic_nodes k (requests rest))

  pub posted-StartsWith :
      (k : ℕ) (x : LogicNode) (nodes : List LogicNode) (qs : List Question)
      → x ∷ nodes ≡ logic_nodes k (requests qs)
      → StartsWith k x nodes qs
  unfolding head_or tail_of
  posted-StartsWith k x nodes [] e = cc (e)
  posted-StartsWith k x nodes (q ∷ qs) e = (q, qs, refl, ap (head_or x) e, ap tail_of e)

  pub no_question : (k : ℕ) (qs : List Question) → [] ≡ logic_nodes k (requests qs) → qs ≡ []
  no_question k [] e = refl
  no_question k (q ∷ qs) e = cc (e)

  -- After the first node has been taken off, where it was the session's own and where it was not.
  next-Awaits :
      (k j : ℕ) (x : LogicNode) (nodes : List LogicNode) (rest qs : List Question)
      (accepted' accepted : Bytes) (sent : ℕ → Bytes) (c : CSession) (sessions : Sessions)
      → x.session ≡ k
      → Awaits k nodes rest accepted' (sent k) c
      → Awaits j (x ∷ nodes) qs accepted (sent j) (sessions j)
      → Awaits j nodes
          (if k == j then rest else qs)
          (if k == j then accepted' else accepted)
          (sent j)
          (if k == j then c else sessions j)
  next-Awaits k j x nodes rest qs accepted' accepted sent c sessions of_k mine theirs =
      elim (Bool-cases (k == j)) [
        | inl same ↦ rw (same, sym ((==_iff k j).0 same)) mine
        | inr other ↦
            let not_j : (x.session == j) ≡ false = ap (λ (i : ℕ). i == j) of_k ∙ other in
            rw other (record {
              posted = rw not_j at theirs.posted;
              questions = theirs.questions;
              ordered = theirs.ordered;
              room = theirs.room;
            })
      ]

  module _ (host : Host) where
    answers_next :
        (k j : ℕ) (q : Question) (rest : List Question) (qs : ℕ → List Question)
        (accepted : ℕ → Bytes)
        → qs k ≡ q ∷ rest
        → (if k == j then accepted k ++ frame host (reply q) else accepted j)
            ++ frames host (replies (if k == j then rest else qs j))
          ≡ accepted j ++ frames host (replies (qs j))
    answers_next k j q rest qs accepted first = elim (Bool-cases (k == j)) [
      | inl same ↦
          rw (same, sym ((==_iff k j).0 same), first)
            (append_assoc (accepted k) (frame host (reply q)) (frames host (replies rest)))
      | inr other ↦ rw other refl
    ]

    -- The worker takes all nodes of a queue in which every session has its questions: each session has
    -- queued the answers to its own, in order, behind all that it had accepted.
    drain-answers :
        (nodes : List LogicNode) (qs : ℕ → List Question) (accepted sent : ℕ → Bytes)
        (sessions : Sessions)
        → ((k : ℕ) → Awaits k nodes (qs k) (accepted k) (sent k) (sessions k))
        → (left : Sessions) × (drain
              (register_callbacks (hello_world_callback host json))
              nodes
              sessions
            ≡ done left)
          × ((k : ℕ)
              → Ordered (accepted k ++ frames host (replies (qs k))) (sent k) (left k).sender)
    unfolding drain
    drain-answers [] qs accepted sent sessions h = (
      sessions,
      refl,
      λ k. rw (no_question k (qs k) (h k).posted, append-nil (accepted k)) (h k).ordered,
    )
    drain-answers (x ∷ nodes) qs accepted sent sessions h =
        let k : ℕ = x.session in
        let here : Awaits k (x ∷ nodes) (qs k) (accepted k) (sent k) (sessions k) = h k in
        let mine : (if x.session == k then x ∷ nodes_of k nodes else nodes_of k nodes)
            ≡ x ∷ nodes_of k nodes =
          rw (==_refl k) refl in
        let (q, rest, is_first, is_node, others) =
          posted-StartsWith k x (nodes_of k nodes) (qs k) (sym mine ∙ here.posted) in
        let asked : All IsQuestion (q ∷ rest) = rw is_first at here.questions in
        let room : length ((sessions k).sender).send_queue + (length rest + 1)
            ≤ max_sendque_size + 1 =
          omega (arith, here.room, ap length is_first) in
        let (c, dealt, o, grows) =
          hello_world_answers host json sessions k q.id q.payload q.data_text (accepted k) (sent k)
            asked.0.has_id asked.0.has_text asked.0.reply_valid here.ordered
            (omega (arith, room)) in
        let first : deal_front (register_callbacks (hello_world_callback host json)) x sessions
            ≡ done (with_session sessions k c) =
          ap
            (λ (node : LogicNode).
              deal_front (register_callbacks (hello_world_callback host json)) node sessions)
            is_node
          ∙ dealt in
        let qs' : ℕ → List Question = λ j. if k == j then rest else qs j in
        let accepted' : ℕ → Bytes =
          λ j. if k == j then accepted k ++ frame host (reply q) else accepted j in
        let (left, e, answered) =
          drain-answers nodes qs' accepted' sent (with_session sessions k c) (λ j.
            next-Awaits k j x nodes rest (qs j) (accepted k ++ frame host (reply q)) (accepted j)
              sent c sessions refl
              (record {
                posted = others;
                questions = asked.1;
                ordered = o;
                room = omega (arith, room, grows);
              })
              (h j)) in
        (
          left,
          ap
                (λ (run : Exec Sessions).
                  run >>= λ w. drain (register_callbacks (hello_world_callback host json)) nodes w)
                first
              ∙ e,
          λ j. rw (sym (answers_next k j q rest qs accepted is_first)) (answered j),
        )

    pub requests-IsMessage : (qs : List Question) → All IsQuestion qs → All IsMessage (requests qs)
    requests-IsMessage [] asked = tt
    requests-IsMessage (q ∷ qs) asked = (asked.0.request_valid, requests-IsMessage qs asked.1)

    -- Where every peer has sent its MSG_HELLO_WORLD requests, all their bytes have been read, however
    -- the events of the sessions and the worker have followed one another, and no handler is left, the
    -- worker's answers to all messages, with no write ending meanwhile, put on each session with room
    -- for them the frames of the replies to its own peer's requests, in order, behind what it had
    -- accepted.
    fleet_answers :
        (senders : ℕ → Host) (qs : ℕ → List Question) (events : List FleetEvent)
        (readers : ℕ → Reader) (w : Fleet) (accepted sent : ℕ → Bytes) (sessions : Sessions)
        → ((k : ℕ) → All IsQuestion (qs k))
        → ((k : ℕ) → Shows 4 (readers k) (head []))
        → run_fleet host events (start_fleet readers (λ k. frames (senders k) (requests (qs k))))
          ≡ done w
        → ((k : ℕ) → IsQuiet (w.sessions k))
        → ((k : ℕ) → Ordered (accepted k) (sent k) (sessions k).sender)
        → ((k : ℕ) → length ((sessions k).sender).send_queue + length (qs k) ≤ max_sendque_size + 1)
        → (left : Sessions) × (drain
              (register_callbacks (hello_world_callback host json))
              (w.dealt ++ w.logic.msg_que)
              sessions
            ≡ done left)
          × ((k : ℕ)
              → Ordered (accepted k ++ frames host (replies (qs k))) (sent k) (left k).sender)
    fleet_answers senders qs events readers w accepted sent sessions asked shown ran quiet ordered
          room =
        drain-answers (w.dealt ++ w.logic.msg_que) qs accepted sent sessions (λ k. record {
          posted =
              fleet_posts senders host (λ k. requests (qs k)) events readers w k
                (λ k. requests-IsMessage (qs k) (asked k)) shown ran (quiet k).all_read
                (quiet k).none_queued (quiet k).none_running;
          questions = asked k;
          ordered = ordered k;
          room = room k;
        })
