-- ===== src/Framing/Reader/Shows.antt =====
-- Which state of the stream machine a reader is in, and what one round's pieces do to it.
use asio_network.Base.{
  zero, ℕ, suc, ◌+◌, ◌<◌, ◌≤◌, ◌≡◌, refl, ap, ◌∙◌, true, false, some, [], ◌∷◌, ◌++◌, arith, length,
  take, replicate, length-replicate,
}
use asio_network.Base.Int.{pos}
use asio_network.Wire.Memory.{Bytes, write_at-inside, written, length-written, take-written}
use asio_network.Wire.Exec.{done}
use asio_network.Wire.Node.{MsgNode, put_nul, clear, fill}
use asio_network.Wire.Node.Laws.{put_nul-middle}
use asio_network.Framing.Protocol.{full_node}
use asio_network.Framing.Stream.{Frame, head, body}
use asio_network.Framing.Reader.{RecvNode, Reader}

-- A node of `len` bytes whose block has room for a NUL behind them.
pub record IsNode (len : ℕ) (node : MsgNode) : Type 0 where
  pub total_len_eq : node.total_len ≡ pos len
  pub room : length node.block ≡ len + 1

-- A node that has received `bytes`.
pub record Holds (len : ℕ) (bytes : Bytes) (node : MsgNode) : Type 0 where
  pub is_node : IsNode len node
  pub received : take node.cur_len node.block ≡ bytes
  pub cur_len_eq : node.cur_len ≡ length bytes
  pub within : length bytes ≤ len

pub data Shows (head_len : ℕ) (r : Reader) : Frame → Type 0 where
  in_head :
      (bytes : Bytes)
      → r.b_head_parse ≡ false
      → Holds head_len bytes r.recv_head_node
      → length bytes < head_len
      → Shows head_len r (head bytes)
  in_body :
      (m : RecvNode) (len : ℕ) (bytes : Bytes)
      → r.b_head_parse ≡ true
      → IsNode head_len r.recv_head_node
      → r.recv_msg_node ≡ some m
      → Holds len bytes m.node
      → length bytes < len
      → Shows head_len r (body m.msg_id len bytes)

-- A node with more bytes copied in.
abbrev pub advanced : MsgNode → Bytes → MsgNode
advanced node bytes = record node { block = written node.block node.cur_len bytes }

module _ {len : ℕ} {old : Bytes} {node : MsgNode} (h : Holds len old node) (bytes : Bytes)
    (fits : length old + length bytes ≤ len) where
  inside : node.cur_len + length bytes ≤ length node.block
  inside = omega (arith, h.is_node.room, h.cur_len_eq)

  pub fill_lem : fill node bytes ≡ done (advanced node bytes)
  unfolding fill
  fill_lem = rw (write_at-inside node.block node.cur_len bytes inside)

  pub advanced-IsNode : IsNode len (advanced node bytes)
  advanced-IsNode = record {
    total_len_eq = h.is_node.total_len_eq;
    room = length-written node.block node.cur_len bytes inside ∙ h.is_node.room;
  }

  -- The block now starts with the old bytes and the new ones.
  pub take-advanced :
      (n : ℕ) → length old + length bytes ≡ n → take n (advanced node bytes).block ≡ old ++ bytes
  take-advanced n e =
      take-written node.block node.cur_len bytes n inside (omega (arith, h.cur_len_eq))
      ∙ ap (λ (front : Bytes). front ++ bytes) h.received

-- `Clear` gives a node of the header's size that holds nothing.
pub clear-Holds :
    (len : ℕ) (node : MsgNode)
    → IsNode len node
    → (node' : MsgNode) × (clear node ≡ done node') × Holds len [] node'
unfolding clear
clear-Holds len node v = (
  record node { block = written node.block 0 (replicate len 0); cur_len = 0 },
  rw v.total_len_eq (rw (write_at-inside node.block 0 (replicate len 0) inside)),
  record {
    is_node = record {
      total_len_eq = v.total_len_eq;
      room = length-written node.block 0 (replicate len 0) inside ∙ v.room;
    };
    received = refl;
    cur_len_eq = refl;
    within = omega arith;
  },
)
  where
    inside : 0 + length (replicate {A = ℕ} len 0) ≤ length node.block
    inside = omega (arith, length-replicate {A = ℕ} len 0, v.room)

-- A node that has received its whole payload.
pub record IsFull (payload : Bytes) (node : MsgNode) : Type 0 where
  pub is_node : IsNode (length payload) node
  pub received : take (length payload) node.block ≡ payload
  pub cur_len_eq : node.cur_len ≡ length payload

split_last :
    (n : ℕ) (block : Bytes) → length block ≡ n + 1 → (b : ℕ) × (block ≡ take n block ++ (b ∷ []))
split_last zero [] e = absurd (omega arith)
split_last zero (b ∷ []) e = (b, refl)
split_last zero (b ∷ c ∷ block) e = absurd (omega arith)
split_last (suc n) [] e = absurd (omega arith)
split_last (suc n) (b ∷ block) e =
    let (c, f) = split_last n block (omega arith) in (c, ap (◌∷◌ b) f)

-- With its NUL such a node is `full_node`, whatever stood behind the payload.
pub put_nul-IsFull :
    (payload : Bytes) (node : MsgNode)
    → IsFull payload node
    → (put_nul node.block node.total_len ≡ done (payload ++ (0 ∷ [])))
      × (record node { block = payload ++ (0 ∷ []) } ≡ full_node payload)
put_nul-IsFull payload node f =
    let (b, e) = split_last (length payload) node.block f.is_node.room in
    let split : node.block ≡ payload ++ (b ∷ []) =
      e ∙ ap (λ (front : Bytes). front ++ (b ∷ [])) f.received in
    (
      ap (put_nul node.block) f.is_node.total_len_eq
          ∙ ap (λ (block : Bytes). put_nul block (pos (length payload))) split
          ∙ put_nul-middle payload [] b (length payload) refl,
      λ i. record {
        block = payload ++ (0 ∷ []);
        total_len = f.is_node.total_len_eq i;
        cur_len = f.cur_len_eq i;
      },
    )
