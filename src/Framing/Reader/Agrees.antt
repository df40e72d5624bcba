-- ===== src/Framing/Reader/Agrees.antt =====
-- What one round of the loop does to the stream, and the part of it that reads a message.
use asio_network.Base.{
  take-length, ==_iff, ℕ, ◌+◌, ◌-◌, ◌<◌, ◌≤◌, ◌≡◌, ◌≢◌, inl, inr, refl, ap, ◌∙◌, true, false, some,
  [], ◌∷◌, ◌++◌, arith, ltb, length, length-append, take, drop, Bool-cases, ltb→lt, ltb→le, ◌==◌,
}
use asio_network.Wire.Memory.{Bytes}
use asio_network.Wire.Exec.{Exec, done, undefined, throws}
use asio_network.Framing.Protocol.{Protocol, full_node}
use asio_network.Framing.Stream.{
  Frame, head, body, rejected, broken, feeds, complete, settled, feeds-broken,
}
use asio_network.Framing.Reader.{
  RecvNode, Reader, reading, cleared, Turn, ends, again, finish, message_part,
}
use asio_network.Framing.Reader.Shows.{
  IsNode, Holds, IsFull, Shows, in_head, in_body, put_nul-IsFull, clear-Holds,
}
use asio_network.Framing.Reader.Window.{
  length-take_rest, Window, Window-next, length-Window, receive_lem, received, received-Holds,
  Holds-IsFull,
}

module _ {X : Type 0} (P : Protocol X) (buffer : Bytes) where
  open P use {head_len, header, deliver, deliver_node, deliver_lem}

  -- What a round does, when `goal` is where the stream machine gets with all the bytes that are
  -- left: it stops in a state that shows `goal`, or goes on with fewer bytes, which lead there.
  pub data Agrees (n : ℕ) (goal : Frame × X) (t : Exec (Turn X)) : Type 0 where
    reads :
        (r : Reader) (f : Frame) (x : X)
        → t ≡ done (ends (reading r x))
        → Shows head_len r f
        → goal ≡ (f, x)
        → Agrees n goal t
    clears :
        (r : Reader) (x : X)
        → t ≡ done (ends (cleared r x))
        → goal ≡ (rejected, x)
        → Agrees n goal t
    goes_on :
        (c m : ℕ) (r : Reader) (f : Frame) (x : X) (rest : Bytes)
        → t ≡ done (again c m r x)
        → m < n
        → 0 < m
        → Window buffer c m rest
        → Shows head_len r f
        → goal ≡ feeds P rest f x
        → Agrees n goal t

  pub nil_of_length : (rest : Bytes) → length rest ≡ 0 → rest ≡ []
  nil_of_length [] e = refl
  nil_of_length (b ∷ rest) e = absurd (omega arith)

  -- A complete message whose processing succeeds.
  pub finish_lem :
      (r : Reader) (m : RecvNode) (payload : Bytes) (c n : ℕ) (rest : Bytes) (top : ℕ) (x x' : X)
      → IsFull payload m.node
      → IsNode head_len r.recv_head_node
      → Window buffer c n rest
      → n < top
      → deliver m.msg_id payload x ≡ done x'
      → Agrees top (feeds P rest (head []) x') (finish P buffer r m c n x)
  unfolding finish
  finish_lem r m payload c n rest top x x' full header_node w less e =
      let (nul, whole) = put_nul-IsFull payload m.node full in
      let (node, cleared_eq, holds) = clear-Holds head_len r.recv_head_node header_node in
      let r' : Reader = record {
        b_head_parse = false;
        recv_head_node = node;
        recv_msg_node = some (record { node = full_node payload; msg_id = m.msg_id });
      } in
      let shown : Shows head_len r' (head []) = in_head [] refl holds P.head_pos in
      rw nul (
        rw whole (
          rw (deliver_lem m.msg_id payload x, e, cleared_eq)
            (elim (Bool-cases (n == 0)) [
              | inl z ↦
                  rw (z, nil_of_length rest (length-Window w ∙ (==_iff n 0).0 z))
                    (reads r' (head []) x' refl shown (unfold feeds in refl))
              | inr more ↦
                  rw more (goes_on c n r' (head []) x' rest refl less (ground arith) w shown refl)
            ])))

  -- The same where the stream machine says what the processing comes to.
  finish-Agrees :
      (r : Reader) (m : RecvNode) (payload : Bytes) (c n : ℕ) (rest : Bytes) (top : ℕ) (x : X)
      (goal : Frame × X)
      → IsFull payload m.node
      → IsNode head_len r.recv_head_node
      → Window buffer c n rest
      → n < top
      → goal ≡ feeds P rest (complete P m.msg_id payload x).0 (complete P m.msg_id payload x).1
      → goal.0 ≢ broken
      → Agrees top goal (finish P buffer r m c n x)
  unfolding complete settled
  finish-Agrees r m payload c n rest top x goal full header_node w less e sane =
      by_result (deliver m.msg_id payload x) refl
    where
      settled_eq :
          (d : Exec X)
          → deliver m.msg_id payload x ≡ d
          → goal ≡ feeds P rest (settled P d x).0 (settled P d x).1
      settled_eq d q = e ∙ ap (λ (d : Exec X). feeds P rest (settled P d x).0 (settled P d x).1) q

      by_result :
          (d : Exec X)
          → deliver m.msg_id payload x ≡ d
          → Agrees top goal (finish P buffer r m c n x)
      by_result (done x') q =
          rw (settled_eq (done x') q)
            (finish_lem r m payload c n rest top x x' full header_node w less q)
      by_result undefined q =
          absurd
            (sane (ap (λ (g : Frame × X). g.0) (settled_eq undefined q ∙ feeds-broken P rest x)))
      by_result throws q =
          absurd (sane (ap (λ (g : Frame × X). g.0) (settled_eq throws q ∙ feeds-broken P rest x)))

  -- A message of which `want` bytes are missing.
  pub message_part-Agrees :
      (r : Reader) (m : RecvNode) (len : ℕ) (old : Bytes) (want c n : ℕ) (rest : Bytes) (top : ℕ)
      (x : X) (goal : Frame × X)
      → Holds len old m.node
      → length old + want ≡ len
      → IsNode head_len r.recv_head_node
      → Window buffer c n rest
      → (n < want → goal ≡ (body m.msg_id len (old ++ rest), x))
      → (want ≤ n
          → goal
            ≡ feeds P
                (drop want rest)
                (complete P m.msg_id (old ++ take want rest) x).0
                (complete P m.msg_id (old ++ take want rest) x).1)
      → n - want < top
      → goal.0 ≢ broken
      → Agrees top goal (message_part P buffer r m want c n x)
  unfolding message_part
  message_part-Agrees r m len old want c n rest top x goal holds sum header_node w short whole less
        sane =
      elim (Bool-cases (ltb n want)) [
        | inl less_eq ↦
            let short_of_it : n < want = ltb→lt n want less_eq in
            let all : take n rest ≡ rest = take-length n rest (omega (arith, length-Window w)) in
            let node = received w holds n in
            let node_holds : Holds len (old ++ rest) node =
              rw all at (received-Holds w holds n (omega arith) (omega arith)) in
            rw less_eq (
              rw (receive_lem w holds n (omega arith) (omega arith)) (
                reads
                  (record r {
                    b_head_parse = true;
                    recv_msg_node = some (record m { node = node });
                  })
                  (body m.msg_id len (old ++ rest)) x refl
                  (in_body (record m { node = node }) len (old ++ rest) refl header_node refl
                    node_holds (omega (arith, length-append old rest, length-Window w)))
                  (short short_of_it)))
        | inr enough_eq ↦
            let enough : want ≤ n = ltb→le n want enough_eq in
            let node = received w holds want in
            rw enough_eq (
              rw (receive_lem w holds want enough (omega arith)) (
                finish-Agrees r (record m { node = node }) (old ++ take want rest) (c + want)
                  (n - want) (drop want rest) top x goal
                  (Holds-IsFull (received-Holds w holds want enough (omega arith)) (
                    omega
                      (arith, length-append old (take want rest), length-take_rest w want enough)))
                  header_node (Window-next w want enough) less (whole enough) sane))
      ]
