-- ===== src/Framing/Reader/Refine.antt =====
-- One round of the loop, against the stream machine on the bytes that it takes.
use asio_network.Base.{
  le→ltb, length-replicate, replicate, take-length, ℕ, zero, suc, ◌+◌, ◌-◌, ◌<◌, ◌≤◌, ◌≡◌, ◌≢◌, inl,
  inr, refl, sym, ap, ◌∙◌, false, Option, none, some, [], ◌∷◌, ◌++◌, arith, ltb, length,
  length-append, take, drop, length-take, take-append-drop, Bool-cases, ltb→lt, ltb→le,
}
use asio_network.Base.Int.{ℤ, pos, negsuc, signed16, to_size}
use asio_network.Wire.Memory.{Bytes}
use asio_network.Wire.Exec.{◌>>=◌, defined}
use asio_network.Framing.Protocol.{Protocol, Header, invalid, announce}
use asio_network.Framing.Stream.{
  Frame, head, body, broken, feeds, complete, opened_by, opened_at, feeds-head, feeds_head_full,
  feeds-body, feeds_body_full, feeds-append, feeds-broken, feeds-rejected,
}
use asio_network.Framing.Reader.{RecvNode, Reader, message_part, open_message, head_part, body_part}
use asio_network.Framing.Reader.Shows.{
  advanced-IsNode, fill_lem, take-advanced, advanced, IsNode, Holds, in_head,
}
use asio_network.Framing.Reader.Window.{
  read_at-Window, missing-Holds, length-take_rest, Window, Window-next, length-Window, receive_lem,
  received, received-Holds, remaining-Holds,
}
use asio_network.Framing.Reader.Agrees.{Agrees, reads, clears, message_part-Agrees}

module _ {X : Type 0} (P : Protocol X) (buffer : Bytes) where
  open P use {head_len, header, deliver, deliver_node, deliver_lem}

  -- A message that has begun.
  pub body_part-Agrees :
      (r : Reader) (m : RecvNode) (len : ℕ) (old : Bytes) (c n : ℕ) (rest : Bytes) (x : X)
      → Holds len old m.node
      → length old < len
      → IsNode head_len r.recv_head_node
      → Window buffer c n rest
      → 0 < n
      → (feeds P rest (body m.msg_id len old) x).0 ≢ broken
      → Agrees P buffer n
          (feeds P rest (body m.msg_id len old) x)
          (body_part P buffer r (some m) c n x)
  unfolding body_part
  body_part-Agrees r m len old c n rest x holds wants header_node w some_left sane =
      let want = len - length old in
      rw (remaining-Holds holds) (
        message_part-Agrees P buffer r m len old want c n rest n x _ holds (omega arith) header_node
          w (λ short. feeds-body P rest old m.msg_id len x (omega (arith, length-Window w)))
          (λ enough.
            ap (λ (bs : Bytes). feeds P bs (body m.msg_id len old) x)
              (sym (take-append-drop want rest))
            ∙ feeds-append P (take want rest) (drop want rest) (body m.msg_id len old) x
            ∙ ap (λ (s : Frame × X). feeds P (drop want rest) s.0 s.1)
                (feeds_body_full P (take want rest) old m.msg_id len x wants
                  (omega (arith, length-take_rest w want enough))))
          (omega arith) sane)

  fresh-Holds :
      (k : ℕ)
      → Holds k [] (record { block = replicate k 0 ++ (0 ∷ []); total_len = pos k; cur_len = 0 })
  fresh-Holds k = record {
    is_node = record {
      total_len_eq = refl;
      room =
          omega
            (arith, length-append (replicate {A = ℕ} k 0) (0 ∷ []), length-replicate {A = ℕ} k 0);
    };
    received = refl;
    cur_len_eq = refl;
    within = omega arith;
  }

  -- All of an announced message, from its first byte on, in one chunk.
  whole_message :
      (id k n : ℕ) (rest : Bytes) (x : X)
      → k ≤ length rest
      → feeds P rest (opened_at P id (pos k) x).0 (opened_at P id (pos k) x).1
        ≡ feeds P (drop k rest) (complete P id (take k rest) x).0 (complete P id (take k rest) x).1
  unfolding opened_at
  whole_message id zero n rest x h = refl
  whole_message id (suc k) n rest x h =
      ap (λ (bs : Bytes). feeds P bs (body id (suc k) []) x) (sym (take-append-drop (suc k) rest))
      ∙ feeds-append P (take (suc k) rest) (drop (suc k) rest) (body id (suc k) []) x
      ∙ ap (λ (s : Frame × X). feeds P (drop (suc k) rest) s.0 s.1)
          (feeds_body_full P (take (suc k) rest) [] id (suc k) x (omega arith)
            (omega (arith, length-take (suc k) rest)))

  part_message :
      (id k n : ℕ) (rest : Bytes) (x : X)
      → length rest < k
      → feeds P rest (opened_at P id (pos k) x).0 (opened_at P id (pos k) x).1 ≡ (body id k rest, x)
  unfolding opened_at
  part_message id zero n rest x h = absurd (omega arith)
  part_message id (suc k) n rest x h = feeds-body P rest [] id (suc k) x (omega arith)

  -- A header that is complete.
  open_message-Agrees :
      (r : Reader) (h : Header) (c n : ℕ) (rest : Bytes) (top : ℕ) (x : X)
      → IsNode head_len r.recv_head_node
      → Window buffer c n rest
      → n < top
      → (feeds P rest (opened_by P (some h) x).0 (opened_by P (some h) x).1).0 ≢ broken
      → Agrees P buffer top
          (feeds P rest (opened_by P (some h) x).0 (opened_by P (some h) x).1)
          (open_message P buffer r h c n x)
  unfolding open_message opened_by
  open_message-Agrees r invalid c n rest top x header_node w less sane =
      clears r x refl (feeds-rejected P rest x)
  open_message-Agrees r (announce id len) c n rest top x header_node w less sane =
      by_length (signed16 len) sane
    where
      by_length :
          (z : ℤ)
          → (feeds P rest (opened_at P id z x).0 (opened_at P id z x).1).0 ≢ broken
          → Agrees P buffer top (feeds P rest (opened_at P id z x).0 (opened_at P id z x).1) (
              P.new_node z >>= λ node.
              message_part P buffer r (record { node = node; msg_id = id }) (to_size z) c n x)
      by_length (pos k) sane = rw (P.new_node_lem k) (
          message_part-Agrees P buffer r (record { node = _; msg_id = id }) k [] k c n rest top x _
            (fresh-Holds k) (omega arith) header_node w
            (λ short. part_message id k n rest x (omega (arith, length-Window w)))
            (λ enough. whole_message id k n rest x (omega (arith, length-Window w))) (omega arith)
            sane)
      by_length (negsuc k) sane =
          absurd (sane (unfold opened_at in ap (λ (g : Frame × X). g.0) (feeds-broken P rest x)))

  -- The header that has been read, if it could be.
  opened-Agrees :
      (o : Option Header) (r : Reader) (c n : ℕ) (rest : Bytes) (top : ℕ) (x : X)
      → IsNode head_len r.recv_head_node
      → Window buffer c n rest
      → n < top
      → (feeds P rest (opened_by P o x).0 (opened_by P o x).1).0 ≢ broken
      → Agrees P buffer top
          (feeds P rest (opened_by P o x).0 (opened_by P o x).1)
          (defined o >>= λ h. open_message P buffer r h c n x)
  opened-Agrees none r c n rest top x header_node w less sane =
      absurd (sane (unfold opened_by in ap (λ (g : Frame × X). g.0) (feeds-broken P rest x)))
  opened-Agrees (some h) r c n rest top x header_node w less sane =
      open_message-Agrees r h c n rest top x header_node w less sane

  -- The bytes that complete a header are copied and it is read.
  pub head_part_full :
      (r : Reader) (old : Bytes) (c n : ℕ) (rest : Bytes) (x : X)
      → Holds head_len old r.recv_head_node
      → Window buffer c n rest
      → head_len ≤ length old + n
      → let want = head_len - length old in
        head_part P buffer r c n x ≡ (
          defined (header (old ++ take want rest)) >>= λ h.
          open_message P buffer
            (record r { recv_head_node = advanced r.recv_head_node (take want rest) })
            h
            (c + want)
            (n - want)
            x)
  unfolding head_part
  head_part_full r old c n rest x holds w enough =
      let want = head_len - length old in
      let le : want ≤ n = omega arith in
      let got : length (take want rest) ≡ want = length-take_rest w want le in
      let fits : length old + length (take want rest) ≤ head_len = omega (arith, holds.within) in
      let node = advanced r.recv_head_node (take want rest) in
      let header_eq : header node.block ≡ header (old ++ take want rest) =
        ap header (sym (take-append-drop head_len node.block))
        ∙ ap (λ (bs : Bytes). header (bs ++ drop head_len node.block))
            (take-advanced holds (take want rest) fits head_len (omega (arith, holds.within)))
        ∙ P.header_front (old ++ take want rest) (drop head_len node.block)
            (omega (arith, holds.within, length-append old (take want rest))) in
      rw (le→ltb (r.recv_head_node.cur_len + n) head_len (omega (arith, holds.cur_len_eq))) (
        rw (
          missing-Holds holds,
          read_at-Window w want le,
          fill_lem holds (take want rest) fits,
          header_eq,
        ))

  -- A header of which bytes are missing.
  pub head_part-Agrees :
      (r : Reader) (old : Bytes) (c n : ℕ) (rest : Bytes) (x : X)
      → r.b_head_parse ≡ false
      → Holds head_len old r.recv_head_node
      → length old < head_len
      → Window buffer c n rest
      → 0 < n
      → (feeds P rest (head old) x).0 ≢ broken
      → Agrees P buffer n (feeds P rest (head old) x) (head_part P buffer r c n x)
  unfolding head_part
  head_part-Agrees r old c n rest x flag holds wants w some_left sane =
      elim (Bool-cases (ltb (r.recv_head_node.cur_len + n) head_len)) [
        | inl less_eq ↦
            let short : r.recv_head_node.cur_len + n < head_len = ltb→lt _ head_len less_eq in
            let room : length old + n ≤ head_len = omega (arith, holds.cur_len_eq) in
            let all : take n rest ≡ rest = take-length n rest (omega (arith, length-Window w)) in
            let node = received w holds n in
            let node_holds : Holds head_len (old ++ rest) node =
              rw all at (received-Holds w holds n (omega arith) room) in
            rw less_eq (
              rw (receive_lem w holds n (omega arith) room) (
                reads (record r { recv_head_node = node }) (head (old ++ rest)) x refl
                  (in_head (old ++ rest) flag node_holds
                    (omega (arith, length-append old rest, length-Window w, holds.cur_len_eq)))
                  (feeds-head P rest old x (omega (arith, length-Window w, holds.cur_len_eq)))))
        | inr enough_eq ↦
            let enough : head_len ≤ r.recv_head_node.cur_len + n = ltb→le _ head_len enough_eq in
            let want = head_len - length old in
            let front : Bytes = old ++ take want rest in
            let le : want ≤ n = omega (arith, holds.cur_len_eq) in
            let got : length (take want rest) ≡ want = length-take_rest w want le in
            let fits : length old + length (take want rest) ≤ head_len = omega arith in
            let goal_eq : feeds P rest (head old) x
                ≡ feeds P (drop want rest) (opened_by P (header front) x).0
                    (opened_by P (header front) x).1 =
              ap (λ (bs : Bytes). feeds P bs (head old) x) (sym (take-append-drop want rest))
              ∙ feeds-append P (take want rest) (drop want rest) (head old) x
              ∙ ap (λ (s : Frame × X). feeds P (drop want rest) s.0 s.1)
                  (feeds_head_full P (take want rest) old x wants (omega arith)) in
            rw (head_part_full r old c n rest x holds w (omega (arith, holds.cur_len_eq)), goal_eq)
              (opened-Agrees (header front)
                (record r { recv_head_node = advanced r.recv_head_node (take want rest) })
                (c + want) (n - want) (drop want rest) n x
                (advanced-IsNode holds (take want rest) fits) (Window-next w want le) (omega arith)
                (λ (q : _). sane (ap (λ (g : Frame × X). g.0) goal_eq ∙ q)))
      ]
