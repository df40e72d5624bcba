-- ===== src/Async/Writes/Keeps.antt =====
-- However little the socket takes at a time, what is written arrives in order.
use asio_network.Base.{
  All, ℕ, ◌+◌, ◌≤◌, ◌≡◌, refl, sym, ap, ◌∙◌, inl, inr, Bool, true, false, List, [], ◌∷◌, ◌++◌,
  append_assoc, append-nil, arith, ltb, length, take, drop, length-take, length-drop, drop-length,
  take-append-drop_taken, drop-drop, Bool-cases, ltb→le,
}
use asio_network.Wire.Memory.{Bytes}
use asio_network.Wire.Exec.{done}
use asio_network.Framing.Reader.Chunks.{joined}
use asio_network.Async.{
  Option, Offered, of_string, of_node, PartNode, copy_node, Handler, write_callback, write_buffer,
  unsent, after_pop, advance_front, on_write,
}
use asio_network.Async.Writes.{
  Happens, IsKept, Held, now_holds, offered_bytes, Traffic, says, takes, fails, run_handler,
  end_write, happen, all_happen, nodes, Streams, is_idle, is_writing, is_silent,
}

nodes-snoc :
    (bufs : List Bytes) (buf : Bytes)
    → nodes (bufs ++ (buf ∷ [])) ≡ nodes bufs ++ (copy_node buf ∷ [])
nodes-snoc [] buf = refl
nodes-snoc (b ∷ bufs) buf = ap (◌∷◌ (copy_node b)) (nodes-snoc bufs buf)

joined-snoc : (bufs : List Bytes) (buf : Bytes) → joined (bufs ++ (buf ∷ [])) ≡ joined bufs ++ buf
joined-snoc [] buf = append-nil buf
joined-snoc (b ∷ bufs) buf =
    ap (λ (bs : Bytes). b ++ bs) (joined-snoc bufs buf) ∙ sym (append_assoc b (joined bufs) buf)

now_holds_lem :
    (held : Held) (offered : Offered)
    → ((buf : Bytes) → held buf ≡ done buf)
    → now_holds held offered ≡ done (offered_bytes offered)
unfolding now_holds
now_holds_lem held (of_string buf) kept = kept buf
now_holds_lem held (of_node bytes) kept = refl

-- The state in parts, so that no record has to be rewritten.
module _ (recv_node : Option PartNode) (recv_pending : Bool) (reads : List (ℕ × Handler)) where
  abbrev state : List PartNode → Bool → List (Offered × Handler) → Bytes → Bytes → Traffic
  state queue pending writes accepted sent = record {
    session = record {
      send_queue = queue;
      send_pending = pending;
      recv_node = recv_node;
      recv_pending = recv_pending;
      writes = writes;
      reads = reads;
    };
    accepted = accepted;
    sent = sent;
  }

  -- What one event leads to.
  abbrev Goes : Happens → Traffic → Type 0
  Goes h t = (t' : Traffic) × (happen h t ≡ done t') × Streams t'

  says-idle : (buf accepted : Bytes) → Goes (says buf) (state [] false [] accepted accepted)
  unfolding happen write_buffer
  says-idle buf accepted = (
    _,
    refl,
    is_writing (of_string buf) (copy_node buf) [] refl refl refl refl refl (omega arith)
        (ap (λ (bs : Bytes). accepted ++ bs) (append-nil buf)),
  )

  says-writing :
      (buf : Bytes) (offered : Offered) (node : PartNode) (rest : List Bytes)
      (accepted sent : Bytes)
      → offered_bytes offered ≡ unsent node
      → node.total_len ≡ length node.msg
      → node.cur_len ≤ node.total_len
      → sent ++ (unsent node ++ joined rest) ≡ accepted
      → Goes
          (says buf)
          (state (node ∷ nodes rest) true ((offered, write_callback) ∷ []) accepted sent)
  unfolding happen write_buffer
  says-writing buf offered node rest accepted sent bytes_eq len cur same = (
    _,
    refl,
    is_writing offered node (rest ++ (buf ∷ [])) (ap (◌∷◌ node) (sym (nodes-snoc rest buf))) refl
        refl bytes_eq len cur
        (ap (λ (bs : Bytes). sent ++ (unsent node ++ bs)) (joined-snoc rest buf)
          ∙ ap (λ (bs : Bytes). sent ++ bs) (sym (append_assoc (unsent node) (joined rest) buf))
          ∙ sym (append_assoc sent (unsent node ++ joined rest) buf)
          ∙ ap (λ (bs : Bytes). bs ++ buf) same),
  )

  -- What is taken of the rest of a node, and what is left of it then.
  taken_left :
      (n : ℕ) (node : PartNode)
      → take n (unsent node) ++ drop (node.cur_len + length (take n (unsent node))) node.msg
        ≡ unsent node
  taken_left n node =
      ap (λ (bs : Bytes). take n (unsent node) ++ bs)
        (sym (drop-drop node.cur_len (length (take n (unsent node))) _ node.msg refl))
      ∙ take-append-drop_taken n (unsent node)

  taken_fits :
      (n : ℕ) (node : PartNode)
      → node.total_len ≡ length node.msg
      → node.cur_len ≤ node.total_len
      → node.cur_len + length (take n (unsent node)) ≤ node.total_len
  taken_fits n node len cur =
      omega (arith, length-take n (unsent node), length-drop node.cur_len node.msg)

  -- The socket has taken what was left of the node.
  all_taken :
      (n : ℕ) (node : PartNode)
      → node.total_len ≡ length node.msg
      → ltb (node.cur_len + length (take n (unsent node))) node.total_len ≡ false
      → take n (unsent node) ≡ unsent node
  all_taken n node len over =
      sym (append-nil (take n (unsent node)))
      ∙ ap (λ (bs : Bytes). take n (unsent node) ++ bs)
          (sym (
            drop-length (node.cur_len + length (take n (unsent node))) node.msg
              (omega (arith, ltb→le _ _ over))))
      ∙ taken_left n node

  goes_on_with :
      (n : ℕ) (node : PartNode) (rest : List Bytes) (accepted sent : Bytes)
      → take n (unsent node) ≡ unsent node
      → sent ++ (unsent node ++ joined rest) ≡ accepted
      → Streams (record (state (nodes rest) true [] accepted (sent ++ take n (unsent node))) {
        session = after_pop (nodes rest) (state (node ∷ nodes rest) true [] accepted sent).session;
      })
  unfolding after_pop
  goes_on_with n node [] accepted sent all same =
      is_idle refl refl refl
        (ap (λ (bs : Bytes). sent ++ bs) (all ∙ sym (append-nil (unsent node))) ∙ same)
  goes_on_with n node (buf ∷ rest) accepted sent all same =
      is_writing (of_node buf) (copy_node buf) rest refl refl refl refl refl (omega arith) (
        append_assoc sent (take n (unsent node)) (joined (buf ∷ rest))
        ∙ ap (λ (bs : Bytes). sent ++ (bs ++ joined (buf ∷ rest))) all
        ∙ same)

  takes-writing :
      (held : Held) (n : ℕ) (offered : Offered) (node : PartNode) (rest : List Bytes)
      (accepted sent : Bytes)
      → ((buf : Bytes) → held buf ≡ done buf)
      → offered_bytes offered ≡ unsent node
      → node.total_len ≡ length node.msg
      → node.cur_len ≤ node.total_len
      → sent ++ (unsent node ++ joined rest) ≡ accepted
      → Goes
          (takes held n)
          (state (node ∷ nodes rest) true ((offered, write_callback) ∷ []) accepted sent)
  unfolding happen end_write run_handler on_write advance_front
  takes-writing held n offered node rest accepted sent kept bytes_eq len cur same =
      let k : ℕ = length (take n (unsent node)) in
      rw (now_holds_lem held offered kept, bytes_eq)
        elim (Bool-cases (ltb (node.cur_len + k) node.total_len)) [
          | inl more ↦ rw more (
            _,
            refl,
            is_writing (of_node (unsent (record node { cur_len = node.cur_len + k })))
                (record node { cur_len = node.cur_len + k }) rest refl refl refl refl len
                (taken_fits n node len cur)
                (append_assoc sent (take n (unsent node)) _
                  ∙ ap (λ (bs : Bytes). sent ++ bs)
                      (sym (
                        append_assoc (take n (unsent node)) (drop (node.cur_len + k) node.msg)
                          (joined rest)))
                  ∙ ap (λ (bs : Bytes). sent ++ (bs ++ joined rest)) (taken_left n node)
                  ∙ same),
          )
          | inr over ↦
              rw over
                (_, refl, goes_on_with n node rest accepted sent (all_taken n node len over) same)
        ]

  fails-writing :
      (offered : Offered) (queue : List PartNode) (lost accepted sent : Bytes)
      → sent ++ lost ≡ accepted
      → Goes fails (state queue true ((offered, write_callback) ∷ []) accepted sent)
  unfolding happen end_write run_handler on_write
  fails-writing offered queue lost accepted sent same =
      (_, refl, is_silent lost refl refl (ap (λ (bs : Bytes). bs ++ lost) (append-nil sent) ∙ same))

  says-silent :
      (buf lost : Bytes) (queue : List PartNode) (accepted sent : Bytes)
      → sent ++ lost ≡ accepted
      → Goes (says buf) (state queue true [] accepted sent)
  unfolding happen write_buffer
  says-silent buf lost queue accepted sent same = (
    _,
    refl,
    is_silent (lost ++ buf) refl refl
        (sym (append_assoc sent lost buf) ∙ ap (λ (bs : Bytes). bs ++ buf) same),
  )

  happen_parts :
      (h : Happens) (q : List PartNode) (p : Bool) (w : List (Offered × Handler)) (a s : Bytes)
      → IsKept h
      → Streams (state q p w a s)
      → Goes h (state q p w a s)
  unfolding happen end_write
  happen_parts (says buf) q p w a s kept (is_idle eq ep ew e) = rw (eq, ep, ew, e) (says-idle buf a)
  happen_parts (takes held n) q p w a s kept (is_idle eq ep ew e) =
      rw (eq, ep, ew, e) (_, refl, is_idle refl refl refl refl)
  happen_parts fails q p w a s kept (is_idle eq ep ew e) =
      rw (eq, ep, ew, e) (_, refl, is_idle refl refl refl refl)
  happen_parts (says buf) q p w a s kept
        (is_writing offered node rest eq ep ew bytes_eq len cur same) =
      rw (eq, ep, ew) (says-writing buf offered node rest a s bytes_eq len cur same)
  happen_parts (takes held n) q p w a s kept
        (is_writing offered node rest eq ep ew bytes_eq len cur same) =
      rw (eq, ep, ew) (takes-writing held n offered node rest a s kept bytes_eq len cur same)
  happen_parts fails q p w a s kept (is_writing offered node rest eq ep ew bytes_eq len cur same) =
      rw (ep, ew) (fails-writing offered q (unsent node ++ joined rest) a s same)
  happen_parts (says buf) q p w a s kept (is_silent lost ep ew same) =
      rw (ep, ew) (says-silent buf lost q a s same)
  happen_parts (takes held n) q p w a s kept (is_silent lost ep ew same) =
      rw (ep, ew) (_, refl, is_silent lost refl refl same)
  happen_parts fails q p w a s kept (is_silent lost ep ew same) =
      rw (ep, ew) (_, refl, is_silent lost refl refl same)

-- With the handlers bound to their session, which line 28 of Session.cpp fails to do, and where every
-- string that WriteToSocket has been given still holds its bytes when the socket takes them, which the
-- code leaves to its caller: from such a state, whatever is written and however little the socket takes
-- at a time, the run is defined and ends in such a state: with the queue empty all that was accepted
-- has been sent, in order, and with a write under way all but the rest of the front and the nodes
-- behind it.
pub all_happen-Streams :
    (hs : List Happens) (t : Traffic)
    → All IsKept hs
    → Streams t
    → (t' : Traffic) × (all_happen hs t ≡ done t') × Streams t'
unfolding all_happen
all_happen-Streams [] t kept v = (t, refl, v)
all_happen-Streams (h ∷ hs) t kept v =
    let s = t.session in
    let (t1, e, v1) =
      happen_parts s.recv_node s.recv_pending s.reads h s.send_queue s.send_pending s.writes
        t.accepted t.sent kept.0 v in
    let (t2, e', v2) = all_happen-Streams hs t1 kept.1 v1 in (t2, rw e e', v2)
