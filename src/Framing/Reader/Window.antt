-- ===== src/Framing/Reader/Window.antt =====
-- The part of `_data` that a round of the loop has still to read, and what `receive` takes of it.
use asio_network.Base.{
  le→leb, length-append, ℕ, ◌+◌, ◌-◌, ◌≤◌, ◌≡◌, refl, sym, ap, ◌∙◌, some, ◌++◌, arith, length, take,
  drop, length-take, length-drop, take-take, drop-drop, drop-take,
}
use asio_network.Base.Int.{pos, to_size, minus_ℕ}
use asio_network.Wire.Memory.{Bytes, read_at, read_at-inside}
use asio_network.Wire.Exec.{done}
use asio_network.Wire.Node.{MsgNode, remaining}
use asio_network.Framing.Reader.{receive}
use asio_network.Framing.Reader.Shows.{
  Holds, IsFull, advanced, fill_lem, advanced-IsNode, take-advanced,
}

-- `rest` is the `n` bytes from `buffer + copy_len` on.
pub record Window (buffer : Bytes) (copy_len n : ℕ) (rest : Bytes) : Type 0 where
  pub shows : take n (drop copy_len buffer) ≡ rest
  pub fits : copy_len + n ≤ length buffer

module _ {buffer : Bytes} {c n : ℕ} {rest : Bytes} (w : Window buffer c n rest) where
  pub length-Window : length rest ≡ n
  length-Window =
      ap length (sym w.shows)
      ∙ omega (arith, w.fits, length-take n (drop c buffer), length-drop c buffer)

  pub length-take_rest : (k : ℕ) → k ≤ n → length (take k rest) ≡ k
  length-take_rest k h = omega (arith, length-take k rest, length-Window)

  pub read_at-Window : (k : ℕ) → k ≤ n → read_at buffer c k ≡ some (take k rest)
  read_at-Window k h =
      read_at-inside buffer c k (omega (arith, w.fits))
      ∙ ap some (sym (take-take k n (drop c buffer) h) ∙ ap (take k) w.shows)

  pub Window-next : (k : ℕ) → k ≤ n → Window buffer (c + k) (n - k) (drop k rest)
  Window-next k h = record {
    shows =
        ap (take (n - k)) (sym (drop-drop c k (c + k) buffer refl))
        ∙ sym (drop-take k (n - k) n (drop c buffer) (omega arith))
        ∙ ap (drop k) w.shows;
    fits = omega (arith, w.fits);
  }

  -- `receive` takes the next k bytes into a node with room for them.
  module _ {len : ℕ} {old : Bytes} {node : MsgNode} (h : Holds len old node) (k : ℕ) where
    pub received : MsgNode
    received = record (advanced node (take k rest)) { cur_len = node.cur_len + k }

    pub receive_lem : k ≤ n → length old + k ≤ len → receive buffer node c k ≡ done received
    unfolding receive received
    receive_lem le room =
        rw (read_at-Window k le, fill_lem h (take k rest) (omega (arith, length-take_rest k le)))

    pub received-Holds : k ≤ n → length old + k ≤ len → Holds len (old ++ take k rest) received
    unfolding received
    received-Holds le room = record {
      is_node = record {
        total_len_eq = (advanced-IsNode h (take k rest) fits).total_len_eq;
        room = (advanced-IsNode h (take k rest) fits).room;
      };
      received =
          take-advanced h (take k rest) fits (node.cur_len + k)
            (omega (arith, h.cur_len_eq, length-take_rest k le));
      cur_len_eq =
          omega (arith, h.cur_len_eq, length-take_rest k le, length-append old (take k rest));
      within = omega (arith, length-take_rest k le, length-append old (take k rest));
    }
      where
        fits : length old + length (take k rest) ≤ len
        fits = omega (arith, length-take_rest k le)

-- With all of its bytes a node is full.
pub Holds-IsFull :
    {len : ℕ} {payload : Bytes} {node : MsgNode}
    → Holds len payload node
    → length payload ≡ len
    → IsFull payload node
Holds-IsFull {node} h e = record {
  is_node = record {
    total_len_eq = h.is_node.total_len_eq ∙ ap pos (sym e);
    room = omega (arith, h.is_node.room);
  };
  received = ap (λ (n : ℕ). take n node.block) (sym h.cur_len_eq) ∙ h.received;
  cur_len_eq = h.cur_len_eq;
}

-- What `_total_len - _cur_len` says of a node.
pub remaining-Holds :
    {len : ℕ} {bytes : Bytes} {node : MsgNode}
    → Holds len bytes node
    → remaining node ≡ len - length bytes
remaining-Holds {node} h = rw (h.is_node.total_len_eq, h.cur_len_eq) (rw (le→leb _ _ h.within))

-- `HEAD_TOTAL_LEN - _cur_len`, where the node has no more than that.
pub missing-Holds :
    {len : ℕ} {bytes : Bytes} {node : MsgNode}
    → Holds len bytes node
    → to_size (minus_ℕ (pos len) node.cur_len) ≡ len - length bytes
missing-Holds {node} h = rw h.cur_len_eq (rw (le→leb _ _ h.within))
