-- ===== src/Wire/Node/Laws.antt =====
-- What the constructors and methods of the message nodes do.
use asio_network.Base.{
  le→ltb, none, ℕ, ◌+◌, ◌-◌, ◌^◌, ◌≤◌, ◌<◌, ◌≡◌, refl, [], ◌∷◌, ◌++◌, arith, length, take,
  replicate, length-take, length-replicate, replicate-add, lt→ltb,
}
use asio_network.Base.Int.{pos, negsuc, signed16, to_size, add_ℕ}
use asio_network.Wire.Memory.{
  read_at-outside, Bytes, write_at, read_at, write_at-middle, read_at-inside,
}
use asio_network.Wire.Host.{Host, bytes_of_short}
use asio_network.Wire.Exec.{Fails-bind, Fails, done, defined}
use asio_network.Wire.Node.{put_nul, msg_node, plain_node, send_node, length_node}

-- A NUL written over the middle of a block.
pub put_nul-middle :
    (front back : Bytes) (b i : ℕ)
    → length front ≡ i
    → put_nul (front ++ (b ∷ back)) (pos i) ≡ done (front ++ (0 ∷ back))
unfolding put_nul
put_nul-middle front back b i e = rw (write_at-middle front (b ∷ []) back (0 ∷ []) i e refl)

-- A node of n ≥ 0 bytes is n zeros and a NUL.
pub msg_node_lem :
    (n : ℕ)
    → msg_node (pos n)
      ≡ done (record { block = replicate n 0 ++ (0 ∷ []); total_len = pos n; cur_len = 0 })
unfolding msg_node
msg_node_lem n = rw (
  replicate-add {A = ℕ} n 1 (n + 1) 0 refl,
  put_nul-middle (replicate n 0) [] 0 n (length-replicate n 0),
)

pub plain_node_lem :
    (n : ℕ)
    → plain_node (pos n)
      ≡ done (record { block = replicate n 0 ++ (0 ∷ []); total_len = pos n; cur_len = 0 })
unfolding plain_node
plain_node_lem n = rw (replicate-add {A = ℕ} n 1 (n + 1) 0 refl)

payload_length : (msg : Bytes) (len : ℕ) → len ≤ length msg → length (take len msg) ≡ len
payload_length msg len h = omega (arith, length-take len msg)

same_length :
    (msg : Bytes) (len : ℕ)
    → len ≤ length msg
    → length (replicate {A = ℕ} len 0) ≡ length (take len msg)
same_length msg len h = omega (arith, payload_length msg len h, length-replicate {A = ℕ} len 0)

pub signed16_lem : (w : ℕ) → w < 2 ^ 15 → signed16 w ≡ pos w
signed16_lem w h = rw (lt→ltb w (2 ^ 15) h)

module _ (host : Host) where
  -- `bytes_of_short` is two bytes long.
  pub length-bytes_of_short : (w : ℕ) → length (bytes_of_short host w) ≡ 2
  unfolding bytes_of_short
  length-bytes_of_short w = refl

  -- For a length that a `short` can hold, SendNode lays out id, length, payload and a NUL, and
  -- `_total_len` counts all but the NUL.
  pub send_node_lem :
      (msg : Bytes) (len id : ℕ)
      → len < 2 ^ 15
      → len ≤ length msg
      → send_node host msg len id
        ≡ done (record {
          block = bytes_of_short host id ++ (bytes_of_short host len ++ (take len msg ++ (0 ∷ [])));
          total_len = pos (len + 4);
          cur_len = 0;
        })
  unfolding send_node bytes_of_short
  send_node_lem msg len id h long =
      let payload : Bytes = take len msg in
      let zeros : Bytes = replicate len 0 in
      rw (
        signed16_lem len h,
        msg_node_lem (len + 4),
        replicate-add {A = ℕ} 4 len (len + 4) 0 (omega arith),
        write_at-middle [] (0 ∷ 0 ∷ []) (0 ∷ 0 ∷ (zeros ++ (0 ∷ []))) idb 0 refl refl,
        write_at-middle idb (0 ∷ 0 ∷ []) (zeros ++ (0 ∷ [])) lenb 2 refl refl,
        read_at-inside msg 0 len (omega arith),
        write_at-middle (idb ++ lenb) zeros (0 ∷ []) payload 4 refl (same_length msg len long),
        put_nul-middle (idb ++ (lenb ++ payload)) [] 0 (len + 4)
            (omega (arith, payload_length msg len long)),
      )
    where
      idb : Bytes
      idb = bytes_of_short host id

      lenb : Bytes
      lenb = bytes_of_short host len

  -- The node of AsyncEchoServer2 and JsonServer is the length, the payload and a NUL.
  pub length_node_lem :
      (msg : Bytes) (len : ℕ)
      → len < 2 ^ 15
      → len ≤ length msg
      → length_node host msg len
        ≡ done (record {
          block = bytes_of_short host len ++ (take len msg ++ (0 ∷ []));
          total_len = pos (len + 2);
          cur_len = 0;
        })
  unfolding length_node bytes_of_short
  length_node_lem msg len h long =
      let payload : Bytes = take len msg in
      let zeros : Bytes = replicate len 0 in
      rw (
        signed16_lem len h,
        plain_node_lem (len + 2),
        replicate-add {A = ℕ} 2 len (len + 2) 0 (omega arith),
        write_at-middle [] (0 ∷ 0 ∷ []) (zeros ++ (0 ∷ [])) lenb 0 refl refl,
        read_at-inside msg 0 len (omega arith),
        write_at-middle lenb zeros (0 ∷ []) payload 2 refl (same_length msg len long),
        put_nul-middle (lenb ++ payload) [] 0 (len + 2)
            (omega (arith, payload_length msg len long)),
      )
    where
      lenb : Bytes
      lenb = bytes_of_short host len

pub signed16_negative : (w : ℕ) → 2 ^ 15 ≤ w → w < 2 ^ 16 → signed16 w ≡ negsuc (2 ^ 16 - w - 1)
signed16_negative w lo hi = rw (le→ltb w (2 ^ 15) lo)

-- A length whose top bit is set is negative as a `short`, and as a `size_t` it is huge.
huge : (w : ℕ) → 2 ^ 15 ≤ w → w < 2 ^ 16 → 2 ^ 63 < to_size (signed16 w)
huge w lo hi = rw (signed16_negative w lo hi) (omega arith)

module _ (host : Host) (msg : Bytes) (len : ℕ) where
  read_huge :
      2 ^ 15 ≤ len
      → len < 2 ^ 16
      → length msg < 2 ^ 63
      → read_at msg 0 (to_size (signed16 len)) ≡ none
  read_huge lo hi real = read_at-outside msg 0 _ (omega (arith, huge len lo hi))

  -- A length that does not fit a `short` becomes negative: SendNode then throws or copies outside a
  -- block, and never builds a node. (No block of memory has 2 ^ 63 bytes.)
  pub send_node-Fails :
      (id : ℕ)
      → 2 ^ 15 ≤ len
      → len < 2 ^ 16
      → length msg < 2 ^ 63
      → Fails (send_node host msg len id)
  unfolding send_node
  send_node-Fails id lo hi real = Fails-bind (msg_node (add_ℕ (signed16 len) 4)) _ λ node.
      Fails-bind (defined (write_at node.block 0 (bytes_of_short host id))) _ λ block.
        Fails-bind (defined (write_at block 2 (bytes_of_short host len))) _
          λ block'. rw (read_huge lo hi real) tt
