-- ===== src/Strand/Posts.antt =====
-- A session on a strand does the same whatever the logic system holds: it puts its posts at the end.
use asio_network.Base.{
  ℕ, ◌+◌, ◌-◌, ◌≡◌, refl, sym, ap, inl, inr, Bool, true, false, Bool-cases, Option, none, some,
  List, [], ◌∷◌, append-nil, ltb, ◌==◌, if◌then◌else◌, All,
}
use asio_network.Base.Int.{pos, to_size, minus_ℕ, signed16}
use asio_network.Wire.Memory.{Bytes, read_at}
use asio_network.Wire.Host.{Host}
use asio_network.Wire.Exec.{Exec, done, undefined, throws, ◌>>=◌, defined}
use asio_network.Wire.Node.{MsgNode, put_nul, clear, fill, remaining, msg_node}
use asio_network.Framing.Protocol.{Header, invalid, announce}
use asio_network.Framing.Reader.{
  RecvNode, Reader, reading, cleared, idle, out_of_fuel, Turn, ends, again, receive, finish,
  message_part, open_message, head_part, body_part, turn,
}
use asio_network.Logic.{LogicNode, LogicSystem, post_msg2que}
use asio_network.Session.{csession_protocol}
use asio_network.Session.Format.{csession_header}
use asio_network.Session.Receive.{with_posted}

-- A round of the loop without what it does to the logic system.
abbrev pub with_logic : Turn (Unit {0}) → LogicSystem → Turn LogicSystem
with_logic (ends (reading r u)) logic = ends (reading r logic)
with_logic (ends (cleared r u)) logic = ends (cleared r logic)
with_logic (ends (idle r u)) logic = ends (idle r logic)
with_logic (ends out_of_fuel) logic = ends out_of_fuel
with_logic (again c n r u) logic = again c n r logic

abbrev pub IsOf : ℕ → LogicNode → Type 0
IsOf uuid node = node.session ≡ uuid

-- What is run posts these nodes of the session, whatever is in the queue.
pub record Posts (uuid : ℕ) (run : LogicSystem → Exec (Turn LogicSystem)) : Type 0 where
  pub new : List LogicNode
  pub of_session : All (IsOf uuid) new
  pub shape : Exec (Turn (Unit {0}))
  pub law :
      (logic : LogicSystem)
      → run logic ≡ (shape >>= λ t. done (with_logic t (with_posted logic new)))

module _ (host : Host) (uuid : ℕ) (buffer : Bytes) where
  bind-Posts :
      {A : Type 0} (m : Exec A) (f : A → LogicSystem → Exec (Turn LogicSystem))
      → ((a : A) → Posts uuid (f a))
      → Posts uuid (λ logic. m >>= λ a. f a logic)
  bind-Posts (done a) f h = h a
  bind-Posts undefined f h = record {
    new = [];
    of_session = tt;
    shape = undefined;
    law = λ logic. refl;
  }
  bind-Posts throws f h = record { new = []; of_session = tt; shape = throws; law = λ logic. refl }

  if-Posts :
      (b : Bool) (f g : LogicSystem → Exec (Turn LogicSystem))
      → Posts uuid f
      → Posts uuid g
      → Posts uuid (λ logic. if b then f logic else g logic)
  if-Posts true f g h k = h
  if-Posts false f g h k = k

  -- What posts nothing.
  silent : (t : Turn (Unit {0})) → Posts uuid (λ logic. done (with_logic t logic))
  silent t = record {
    new = [];
    of_session = tt;
    shape = done t;
    law = λ logic.
        ap (λ (que : List LogicNode). done (with_logic t (record logic { msg_que = que })))
          (sym (append-nil logic.msg_que));
  }

  after_post :
      (head : Exec MsgNode) (r : Reader) (m : RecvNode) (node : LogicNode) (c n : ℕ)
      → IsOf uuid node
      → Posts uuid (λ logic. head >>= λ head.
          let r' : Reader = record {
            b_head_parse = false;
            recv_head_node = head;
            recv_msg_node = some m;
          } in
          done (
            if n == 0
            then ends (reading r' (with_posted logic (node ∷ [])))
            else again c n r' (with_posted logic (node ∷ []))))
  after_post undefined r m node c n e = record {
    new = [];
    of_session = tt;
    shape = undefined;
    law = λ logic. refl;
  }
  after_post throws r m node c n e = record {
    new = [];
    of_session = tt;
    shape = throws;
    law = λ logic. refl;
  }
  after_post (done head) r m node c n e =
      let r' : Reader = record {
        b_head_parse = false;
        recv_head_node = head;
        recv_msg_node = some m;
      } in
      elim (Bool-cases (n == 0)) [
        | inl over ↦ record {
          new = node ∷ [];
          of_session = (e, tt);
          shape = done (ends (reading r' tt));
          law = λ logic. rw over refl;
        }
        | inr more ↦ record {
          new = node ∷ [];
          of_session = (e, tt);
          shape = done (again c n r' tt);
          law = λ logic. rw more refl;
        }
      ]

  finish-Posts :
      (r : Reader) (m : RecvNode) (c n : ℕ)
      → Posts uuid (finish (csession_protocol host uuid) buffer r m c n)
  unfolding finish post_msg2que
  finish-Posts r m c n =
      bind-Posts (put_nul m.node.block m.node.total_len) _
        (λ block. after_post (clear r.recv_head_node) r _ _ c n refl)

  message_part-Posts :
      (r : Reader) (m : RecvNode) (want c n : ℕ)
      → Posts uuid (message_part (csession_protocol host uuid) buffer r m want c n)
  unfolding message_part
  message_part-Posts r m want c n =
      if-Posts (ltb n want) _ _
        (bind-Posts (receive buffer m.node c n) _ (λ node. silent (
          ends (
            reading
              (record r { b_head_parse = true; recv_msg_node = some (record m { node = node }) })
              tt))))
        (bind-Posts (receive buffer m.node c want) _
          (λ node. finish-Posts r (record m { node = node }) (c + want) (n - want)))

  open_message-Posts :
      (r : Reader) (h : Header) (c n : ℕ)
      → Posts uuid (open_message (csession_protocol host uuid) buffer r h c n)
  unfolding open_message
  open_message-Posts r invalid c n = silent (ends (cleared r tt))
  open_message-Posts r (announce id len) c n = bind-Posts (msg_node (signed16 len)) _ (λ node.
      message_part-Posts r (record { node = node; msg_id = id }) (to_size (signed16 len)) c n)

  head_part-Posts :
      (r : Reader) (c n : ℕ) → Posts uuid (head_part (csession_protocol host uuid) buffer r c n)
  unfolding head_part
  head_part-Posts r c n =
      let want : ℕ = to_size (minus_ℕ (pos 4) r.recv_head_node.cur_len) in
      if-Posts (ltb (r.recv_head_node.cur_len + n) 4) _ _
        (bind-Posts (receive buffer r.recv_head_node c n) _
          (λ node. silent (ends (reading (record r { recv_head_node = node }) tt))))
        (bind-Posts (defined (read_at buffer c want)) _ (λ bytes.
          bind-Posts (fill r.recv_head_node bytes) _ (λ node.
            bind-Posts (defined (csession_header host node.block)) _ (λ h.
              open_message-Posts (record r { recv_head_node = node }) h (c + want) (n - want)))))

  body_part-Posts :
      (r : Reader) (o : Option RecvNode) (c n : ℕ)
      → Posts uuid (body_part (csession_protocol host uuid) buffer r o c n)
  unfolding body_part
  body_part-Posts r none c n = record {
    new = [];
    of_session = tt;
    shape = undefined;
    law = λ logic. refl;
  }
  body_part-Posts r (some m) c n = message_part-Posts r m (remaining m.node) c n

  pub turn-Posts :
      (r : Reader) (c n : ℕ) → Posts uuid (turn (csession_protocol host uuid) buffer r c n)
  unfolding turn
  turn-Posts r c n =
      if-Posts r.b_head_parse _ _ (body_part-Posts r r.recv_msg_node c n) (head_part-Posts r c n)
