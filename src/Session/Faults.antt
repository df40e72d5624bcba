-- ===== src/Session/Faults.antt =====
-- The beginning of a session, and the inputs on which its reader has no defined run.
use asio_network.Base.{
  ℕ, zero, suc, ◌+◌, ◌-◌, ◌<◌, ◌≤◌, ◌^◌, ◌≡◌, refl, ap, ◌∙◌, Bool, true, false, Option, none, some,
  [], ◌∷◌, ◌++◌, arith, length, take, replicate,
}
use asio_network.Base.Int.{pos, negsuc, add_ℕ}
use asio_network.Wire.Memory.{Bytes}
use asio_network.Wire.Host.{Host}
use asio_network.Wire.Exec.{Fails-first, done, undefined, Fails, Fails-bind}
use asio_network.Wire.Node.{msg_node, new_array, put_nul}
use asio_network.Wire.Node.Laws.{msg_node_lem, signed16_negative}
use asio_network.Framing.Protocol.{Protocol, announce}
use asio_network.Framing.Stream.{head}
use asio_network.Framing.Reader.Loop.{
  loop-turn, turn-to_body, turn-head_part, received_in, received_in-Window,
}
use asio_network.Framing.Reader.Refine.{head_part_full}
use asio_network.Framing.Reader.Window.{Window}
use asio_network.Framing.Reader.{RecvNode, Reader, handle_bytes, body_part, open_message}
use asio_network.Framing.Reader.Shows.{advanced, Shows, in_head}
use asio_network.Sender.{new_sender}
use asio_network.Logic.{LogicSystem}
use asio_network.Session.Format.{max_length, csession_header}
use asio_network.Session.{CSession, new_session, csession_protocol}

-- The constructor succeeds, and if the memory of `_b_head_parse` happens to hold false the reader is
-- at the beginning of a header.
pub new_session_lem :
    (uuid : ℕ) (head_flag close_flag : Bool)
    → (s : CSession) × (new_session uuid head_flag close_flag ≡ done s)
      × (s.reader.recv_msg_node ≡ none)
      × (s.reader.b_head_parse ≡ head_flag)
      × (head_flag ≡ false → Shows 4 s.reader (head []))
unfolding new_session
new_session_lem uuid head_flag close_flag = (
  record {
    uuid = uuid;
    reader = record {
      b_head_parse = head_flag;
      recv_head_node = record { block = replicate 4 0 ++ (0 ∷ []); total_len = pos 4; cur_len = 0 };
      recv_msg_node = none;
    };
    sender = new_sender;
    socket_open = true;
    b_close = close_flag;
  },
  rw (msg_node_lem 4),
  refl,
  refl,
  λ e.
      in_head [] e
        (record {
          is_node = record { total_len_eq = refl; room = refl };
          received = refl;
          cur_len_eq = refl;
          within = omega arith;
        })
        (omega arith),
)

module _ {X : Type 0} (P : Protocol X) (buffer : Bytes) where
  -- The bug of the flag that no constructor sets: if it holds true, the first byte that arrives goes
  -- through the null pointer `_recv_msg_node`.
  unset_flag_undefined :
      (r : Reader) (n : ℕ) (x : X)
      → r.b_head_parse ≡ true
      → r.recv_msg_node ≡ none
      → 0 < n
      → handle_bytes P buffer r n x ≡ undefined
  unfolding handle_bytes body_part
  unset_flag_undefined r zero x flag null some_left = absurd (omega arith)
  unset_flag_undefined r (suc n) x flag null some_left =
      loop-turn P n buffer r 0 (suc n) x undefined some_left (
        turn-to_body P buffer r 0 (suc n) x flag
        ∙ ap (λ (o : Option RecvNode). body_part P buffer r o 0 (suc n) x) null)

-- A negative length: the constructor of the node throws, or writes in front of its block.
msg_node_negative : (k : ℕ) → Fails (msg_node (negsuc k))
unfolding msg_node new_array put_nul
msg_node_negative k = Fails-bind (new_array (add_ℕ (negsuc k) 1)) _ (λ block. tt)

open_message_negative :
    (host : Host) (uuid id len : ℕ) (buffer : Bytes) (r : Reader) (c n : ℕ) (logic : LogicSystem)
    → 2 ^ 15 ≤ len
    → len < 2 ^ 16
    → Fails (open_message (csession_protocol host uuid) buffer r (announce id len) c n logic)
unfolding open_message
open_message_negative host uuid id len buffer r c n logic lo hi =
    rw (signed16_negative len lo hi)
      (Fails-first (msg_node (negsuc (2 ^ 16 - len - 1))) _ (msg_node_negative (2 ^ 16 - len - 1)))

-- A header that announces a negative length passes the check `msg_len > MAX_LENGTH`, and no run of
-- the handler that completes it has a value: for every length from 0x8000 to 0xffff an exception
-- leaves HandleRead or memory outside a block is written.
pub negative_length-Fails :
    (host : Host) (uuid id len : ℕ) (r : Reader) (old chunk : Bytes) (logic : LogicSystem)
    → Shows 4 r (head old)
    → 4 ≤ length old + length chunk
    → csession_header host (old ++ take (4 - length old) chunk) ≡ some (announce id len)
    → 2 ^ 15 ≤ len
    → len < 2 ^ 16
    → Fails (
        handle_bytes
          (csession_protocol host uuid)
          (received_in max_length chunk)
          r
          (length chunk)
          logic)
unfolding handle_bytes
negative_length-Fails host uuid id len r _ [] logic (in_head old flag holds wants) enough announced
      lo hi =
    absurd (omega (arith, wants))
negative_length-Fails host uuid id len r _ (b ∷ chunk) logic (in_head old flag holds wants) enough
      announced lo hi =
    rw
      (loop-turn P (length chunk) buffer r 0 (length (b ∷ chunk)) logic _ (omega arith) (
        turn-head_part P buffer r 0 (length (b ∷ chunk)) logic flag
        ∙ head_part_full P buffer r old 0 (length (b ∷ chunk)) (b ∷ chunk) logic holds w enough))
      (rw announced (
        Fails-first
          (open_message P buffer r' (announce id len) (0 + want) (length (b ∷ chunk) - want) logic)
          _
          (open_message_negative host uuid id len buffer r' (0 + want) (length (b ∷ chunk) - want)
            logic lo hi)))
  where
    P : Protocol LogicSystem
    P = csession_protocol host uuid

    buffer : Bytes
    buffer = received_in max_length (b ∷ chunk)

    w : Window buffer 0 (length (b ∷ chunk)) (b ∷ chunk)
    w = received_in-Window max_length (b ∷ chunk)

    want : ℕ
    want = 4 - length old

    r' : Reader
    r' = record r { recv_head_node = advanced r.recv_head_node (take want (b ∷ chunk)) }
