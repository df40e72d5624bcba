-- ===== src/Session/Send.antt =====
-- The sending side of a session as a whole: Send of strings and the completions of their writes.
use asio_network.Base.{
  ℕ, ◌≡◌, refl, sym, ap, ◌∙◌, Bool, true, false, some, List, [], ◌∷◌, ◌++◌, append-nil, arith, ltb,
  if◌then◌else◌, length, All,
}
use asio_network.Wire.Memory.{Bytes}
use asio_network.Wire.Host.{Host}
use asio_network.Wire.Exec.{Exec, done, ◌>>=◌, value_or}
use asio_network.Wire.Node.{MsgNode}
use asio_network.Sender.{new_sender, Sender, max_sendque_size, handle_write}
use asio_network.Sender.Order.{texts, Ordered, text, send-Ordered, handle_write-Ordered}
use asio_network.Session.{csession_protocol, CSession, send_string}
use asio_network.Framing.Stream.{head}
use asio_network.Framing.Reader.{Reader}
use asio_network.Framing.Reader.Shows.{Shows}
use asio_network.Framing.Reader.Chunks.{joined, IsChunk, receive_all, state_of}
use asio_network.Logic.{LogicSystem}
use asio_network.Session.Format.{max_length}
use asio_network.Session.Receive.{
  logic_nodes, with_posted, receive_all-frames, Message, IsMessage, frames,
}
use asio_network.Session.Nodes.{
  message_node, message_node-IsSendable, message_node-text, send_string_lem, frames-snoc,
}

-- What can happen to the sending side: somebody calls Send, or the write that is under way
-- completes with all of its bytes, if there is one.
pub data Ask : Type 0 where
  says : Message → Ask
  written_out : Ask

-- A session, the bytes of the writes that have completed, and the messages that Send has queued.
pub record Link : Type 0 where
  pub session : CSession
  pub sent : Bytes
  pub accepted : List Message

-- The messages of a script that Send is given.
abbrev pub AreSayable : List Ask → Type 0
AreSayable [] = Unit
AreSayable (says m ∷ asks) = IsMessage m × AreSayable asks
AreSayable (written_out ∷ asks) = AreSayable asks

-- The handler of the write that is under way runs.
unfoldable pub complete_write : Link → List Bytes → Exec Link
complete_write l [] = done l
complete_write l (bytes ∷ flight) = do
  s ← handle_write false (record (l.session.sender) { in_flight = flight })
  done (record l { session = record (l.session) { sender = s }; sent = l.sent ++ bytes })

module _ (host : Host) where
  -- What Send has accepted: a full queue drops the message.
  abbrev taken : Bool → List Message → Message → List Message
  taken full ms m = if full then ms else ms ++ (m ∷ [])

  unfoldable pub ask : Link → Ask → Exec Link
  unfolding complete_write
  ask l (says m) = do
    c ← send_string host m.payload m.msg_id l.session
    done (record {
      session = c;
      sent = l.sent;
      accepted = taken (ltb max_sendque_size (length (l.session.sender).send_queue)) l.accepted m;
    })
  ask l written_out = complete_write l (l.session.sender).in_flight

  unfoldable pub run_asks : Link → List Ask → Exec Link
  run_asks l [] = done l
  run_asks l (a ∷ asks) = ask l a >>= λ l'. run_asks l' asks

  -- The link is in order: its completed and queued bytes are the frames of what was
  -- accepted, which is messages that pass a reader's checks.
  abbrev pub IsInOrder : Link → Type 0
  IsInOrder l = Ordered (frames host l.accepted) l.sent l.session.sender × All IsMessage l.accepted

  taken-All :
      (full : Bool) (ms : List Message) (m : Message)
      → All IsMessage ms
      → IsMessage m
      → All IsMessage (taken full ms m)
  taken-All true ms m vs v = vs
  taken-All false [] m vs v = (v, tt)
  taken-All false (n ∷ ms) m vs v = (vs.0, taken-All false ms m vs.1 v)

  accepts_lem :
      (full : Bool) (ms : List Message) (m : Message)
      → (if full then frames host ms else frames host ms ++ text (message_node host m))
        ≡ frames host (taken full ms m)
  accepts_lem true ms m = refl
  accepts_lem false ms m =
      ap (λ (bs : Bytes). frames host ms ++ bs) (message_node-text host m)
      ∙ sym (frames-snoc host ms m)

  says-IsInOrder :
      (l : Link) (m : Message)
      → IsInOrder l
      → IsMessage m
      → (l' : Link) × (ask l (says m) ≡ done l') × IsInOrder l'
  unfolding ask
  says-IsInOrder l m o v =
      let (s, e, o', _) =
        send-Ordered (frames host l.accepted) l.sent (message_node host m)
          (message_node-IsSendable host m) l.session.sender o.0 in
      let full = ltb max_sendque_size (length (l.session.sender).send_queue) in
      (
        record {
          session = record (l.session) { sender = s };
          sent = l.sent;
          accepted = taken full l.accepted m;
        },
        rw (send_string_lem host m l.session v, e),
        (rw (sym (accepts_lem full l.accepted m)) o', taken-All full l.accepted m o.1 v),
      )

  complete-IsInOrder :
      (c : CSession) (sent : Bytes) (ms : List Message) (q : List MsgNode) (flight : List Bytes)
      (cleared : Bool)
      → Ordered
          (frames host ms)
          sent
          (record { send_queue = q; in_flight = flight; cleared = cleared })
      → All IsMessage ms
      → let s : Sender = record { send_queue = q; in_flight = flight; cleared = cleared } in
        (l' : Link) × (complete_write
            (record { session = record c { sender = s }; sent = sent; accepted = ms })
            flight
          ≡ done l')
        × IsInOrder l'
  unfolding complete_write
  complete-IsInOrder c sent ms [] flight cleared o vs =
      rw o.one_write (_, refl, (rw (sym o.one_write) o, vs))
  complete-IsInOrder c sent ms (node ∷ q) flight cleared o vs =
      let (s, e, o', _) = handle_write-Ordered (frames host ms) sent node q flight cleared o in
      rw o.one_write (
        record { session = record c { sender = s }; sent = sent ++ text node; accepted = ms },
        rw e,
        (o', vs),
      )

  written-IsInOrder :
      (l : Link) → IsInOrder l → (l' : Link) × (ask l written_out ≡ done l') × IsInOrder l'
  unfolding ask
  written-IsInOrder l o =
      complete-IsInOrder l.session l.sent l.accepted (l.session.sender).send_queue
        (l.session.sender).in_flight (l.session.sender).cleared o.0 o.1

  -- From a link in order, every script of calls of Send with valid messages and completions of
  -- writes has a defined run, and the link that it ends in is in order: the bytes that have been
  -- written and the nodes that are queued are together the frames of the accepted messages.
  run_asks-IsInOrder :
      (asks : List Ask) (l : Link)
      → IsInOrder l
      → AreSayable asks
      → (l' : Link) × (run_asks l asks ≡ done l') × IsInOrder l'
  unfolding run_asks
  run_asks-IsInOrder [] l o v = (l, refl, o)
  run_asks-IsInOrder (says m ∷ asks) l o v =
      let (l', e, o') = says-IsInOrder l m o v.0 in
      let (l'', e', o'') = run_asks-IsInOrder asks l' o' v.1 in (l'', rw e e', o'')
  run_asks-IsInOrder (written_out ∷ asks) l o v =
      let (l', e, o') = written-IsInOrder l o in
      let (l'', e', o'') = run_asks-IsInOrder asks l' o' v in (l'', rw e e', o'')

-- A session that has sent nothing.
abbrev pub unused : CSession → Link
unused c = record { session = record c { sender = new_sender }; sent = []; accepted = [] }

pub unused-IsInOrder : (host : Host) (c : CSession) → IsInOrder host (unused c)
unused-IsInOrder host c =
    (record { sendable = tt; one_write = refl; in_order = refl; bounded = omega arith }, tt)

-- The value of a run that has one.
-- Two sessions: after any script of Sends of valid messages at one end and of completions of its
-- writes, each of which has written all bytes of its node, once its queue is empty, the other end,
-- which is at a header, posts exactly the messages that were accepted, in their order, whatever the
-- byte orders and however the network cuts the bytes that were written.
pub exchange :
    (host peer : Host) (asks : List Ask) (c : CSession) (l : Link) (uuid : ℕ) (chunks : List Bytes)
    (r : Reader) (logic : LogicSystem)
    → AreSayable asks
    → run_asks host (unused c) asks ≡ done l
    → (l.session.sender).send_queue ≡ []
    → All IsChunk chunks
    → joined chunks ≡ l.sent
    → Shows 4 r (head [])
    → state_of
        (csession_protocol peer uuid)
        max_length
        (receive_all (csession_protocol peer uuid) max_length chunks r logic)
      ≡ some (with_posted logic (logic_nodes uuid l.accepted))
exchange host peer asks c l uuid chunks r logic sayable ran empty nonempty same shown =
    let (l', e, (o, vs)) =
      run_asks-IsInOrder host asks (unused c) (unused-IsInOrder host c) sayable in
    let same_link : l' ≡ l = ap (value_or l) (sym e ∙ ran) in
    let all_sent : l.sent ≡ frames host l.accepted =
      sym (append-nil l.sent)
      ∙ ap (λ (q : List MsgNode). l.sent ++ texts q) (sym empty)
      ∙ rw (sym same_link) o.in_order in
    receive_all-frames host peer uuid l.accepted chunks r logic (rw (sym same_link) vs) nonempty
      (same ∙ all_sent) shown
