-- ===== src/Framing/Reader/Loop.antt =====
-- The whole loop of HandleRead over one chunk, against the stream machine.
use asio_network.Base.{
  ℕ, zero, suc, ◌-◌, ◌<◌, ◌≤◌, ◌≡◌, ◌≢◌, refl, ap, ◌∙◌, Bool, true, false, Option, some, ◌++◌,
  arith, if◌then◌else◌, length, length-append, take-append, pos→==, replicate,
}
use asio_network.Wire.Memory.{Bytes}
use asio_network.Wire.Exec.{Exec, done, ◌>>=◌}
use asio_network.Framing.Protocol.{Protocol}
use asio_network.Framing.Stream.{Frame, rejected, broken, feeds}
use asio_network.Framing.Reader.{
  body_part, head_part, RecvNode, Reader, Outcome, reading, cleared, Turn, ends, again, turn,
  read_loop, handle_bytes,
}
use asio_network.Framing.Reader.Shows.{Shows, in_head, in_body}
use asio_network.Framing.Reader.Window.{Window}
use asio_network.Framing.Reader.Refine.{head_part-Agrees, body_part-Agrees}
use asio_network.Framing.Reader.Agrees.{Agrees, reads, clears, goes_on}

-- `_data`, erased by `memset`, with the bytes that `async_read_some` put there.
abbrev pub received_in : ℕ → Bytes → Bytes
received_in size chunk = chunk ++ replicate (size - length chunk) 0

pub received_in-Window :
    (size : ℕ) (chunk : Bytes) → Window (received_in size chunk) 0 (length chunk) chunk
received_in-Window size chunk = record {
  shows = take-append (length chunk) chunk _ refl;
  fits = omega (arith, length-append chunk (replicate {A = ℕ} (size - length chunk) 0));
}

module _ {X : Type 0} (P : Protocol X) where
  open P use {head_len}

  -- HandleRead returns in the state where the stream machine gets: with the next read armed, or,
  -- after a refused header, with the session cleared.
  pub data Reaches (goal : Frame × X) (t : Exec (Outcome X)) : Type 0 where
    still_reading :
        (r : Reader) (f : Frame) (x : X)
        → t ≡ done (reading r x)
        → Shows head_len r f
        → goal ≡ (f, x)
        → Reaches goal t
    was_cleared :
        (r : Reader) (x : X) → t ≡ done (cleared r x) → goal ≡ (rejected, x) → Reaches goal t

  pub turn-head_part :
      (buffer : Bytes) (r : Reader) (c n : ℕ) (x : X)
      → r.b_head_parse ≡ false
      → turn P buffer r c n x ≡ head_part P buffer r c n x
  unfolding turn
  turn-head_part buffer r c n x flag =
      ap
        (λ (b : Bool).
          if b then body_part P buffer r r.recv_msg_node c n x else head_part P buffer r c n x)
        flag

  pub turn-to_body :
      (buffer : Bytes) (r : Reader) (c n : ℕ) (x : X)
      → r.b_head_parse ≡ true
      → turn P buffer r c n x ≡ body_part P buffer r r.recv_msg_node c n x
  unfolding turn
  turn-to_body buffer r c n x flag =
      ap
        (λ (b : Bool).
          if b then body_part P buffer r r.recv_msg_node c n x else head_part P buffer r c n x)
        flag

  pub turn-body_part :
      (buffer : Bytes) (r : Reader) (m : RecvNode) (c n : ℕ) (x : X)
      → r.b_head_parse ≡ true
      → r.recv_msg_node ≡ some m
      → turn P buffer r c n x ≡ body_part P buffer r (some m) c n x
  turn-body_part buffer r m c n x flag here =
      turn-to_body buffer r c n x flag
      ∙ ap (λ (o : Option RecvNode). body_part P buffer r o c n x) here

  pub turn-Agrees :
      (buffer : Bytes) (r : Reader) (f : Frame) (c n : ℕ) (rest : Bytes) (x : X)
      → Shows head_len r f
      → Window buffer c n rest
      → 0 < n
      → (feeds P rest f x).0 ≢ broken
      → Agrees P buffer n (feeds P rest f x) (turn P buffer r c n x)
  turn-Agrees buffer r f c n rest x (in_head old flag holds wants) w some_left sane =
      rw (turn-head_part buffer r c n x flag)
        (head_part-Agrees P buffer r old c n rest x flag holds wants w some_left sane)
  turn-Agrees buffer r f c n rest x (in_body m len old flag header_node here holds wants) w
        some_left sane =
      rw (turn-body_part buffer r m c n x flag here)
        (body_part-Agrees P buffer r m len old c n rest x holds wants header_node w some_left sane)

  -- The first round of the loop, while there are bytes.
  pub loop-turn :
      (fuel : ℕ) (buffer : Bytes) (r : Reader) (c n : ℕ) (x : X) (t : Exec (Turn X))
      → 0 < n
      → turn P buffer r c n x ≡ t
      → read_loop P buffer (suc fuel) r c n x ≡ (
          t >>= λ t. elim t [
            | ends o ↦ done o
            | again c' n' r' x' ↦ read_loop P buffer fuel r' c' n' x'
          ])
  unfolding read_loop
  loop-turn fuel buffer r c n x t some_left e =
      rw (pos→== n some_left, read_loop)
        (ap
          (λ (u : Exec (Turn X)). u >>= λ t. elim t [
            | ends o ↦ done o
            | again c' n' r' x' ↦ read_loop P buffer fuel r' c' n' x'
          ])
          e)

  read_loop-Reaches :
      (fuel : ℕ) (buffer : Bytes) (r : Reader) (f : Frame) (c n : ℕ) (rest : Bytes) (x : X)
      → n ≤ fuel
      → Shows head_len r f
      → Window buffer c n rest
      → 0 < n
      → (feeds P rest f x).0 ≢ broken
      → Reaches (feeds P rest f x) (read_loop P buffer fuel r c n x)
  read_loop-Reaches zero buffer r f c n rest x enough shown w some_left sane = absurd (omega arith)
  read_loop-Reaches (suc fuel) buffer r f c n rest x enough shown w some_left sane =
      elim (turn-Agrees buffer r f c n rest x shown w some_left sane) [
        | reads r' f' x' e shown' goal ↦
            still_reading r' f' x' (loop-turn fuel buffer r c n x _ some_left e) shown' goal
        | clears r' x' e goal ↦ was_cleared r' x' (loop-turn fuel buffer r c n x _ some_left e) goal
        | goes_on c' n' r' f' x' rest' e less more w' shown' goal ↦
            rw (loop-turn fuel buffer r c n x _ some_left e, goal)
              (read_loop-Reaches fuel buffer r' f' c' n' rest' x' (omega arith) shown' w' more
                (λ q. sane (ap (λ (g : Frame × X). g.0) goal ∙ q)))
      ]

  -- HandleRead on a chunk of at least one byte gets where the stream machine gets, unless that is
  -- `broken`: every copy stays in its block, no pointer is null, and the fuel is enough.
  pub handle_bytes-Reaches :
      (size : ℕ) (r : Reader) (f : Frame) (chunk : Bytes) (x : X)
      → Shows head_len r f
      → 0 < length chunk
      → (feeds P chunk f x).0 ≢ broken
      → Reaches (feeds P chunk f x) (handle_bytes P (received_in size chunk) r (length chunk) x)
  unfolding handle_bytes
  handle_bytes-Reaches size r f chunk x shown nonempty sane =
      read_loop-Reaches (length chunk) (received_in size chunk) r f 0 (length chunk) chunk x
        (omega arith) shown (received_in-Window size chunk) nonempty sane
