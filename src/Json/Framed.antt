-- ===== src/Json/Framed.antt =====
-- HandleRead of JsonServer/Session.cpp: the framing loop once more, with a difference between the
-- message that arrives with its header and the one that arrives in parts. The program never binds it
-- to a read.
use mathlib.Core.Path.{fun_ext}
use asio_network.Base.{
  Bool-cases, inl, inr, ℕ, zero, suc, ◌≡◌, ◌≢◌, ◌<◌, refl, ap, ◌∙◌, true, false, [], ◌∷◌, ◌++◌,
  ◌==◌, if◌then◌else◌, length,
}
use asio_network.Base.Int.{to_size}
use asio_network.Wire.Memory.{Bytes, read_at}
use asio_network.Wire.Host.{Host}
use asio_network.Wire.Exec.{Exec, done, ◌>>=◌, >>=-ext, defined}
use asio_network.Wire.Node.{MsgNode, plain_node, head_length}
use asio_network.Wire.Node.Laws.{plain_node_lem}
use asio_network.Framing.Protocol.{Protocol, full_node}
use asio_network.Framing.Stream.{Frame, broken, feeds}
use asio_network.Framing.Reader.{
  Reader, Outcome, idle, out_of_fuel, Turn, ends, again, head_part, body_part, turn, read_loop,
  handle_bytes,
}
use asio_network.Framing.Reader.Shows.{Shows}
use asio_network.Framing.Reader.Loop.{Reaches, received_in, handle_bytes-Reaches}
use asio_network.Sender.{Sender}
use asio_network.Echo.{
  length_header, length_header_front, head_length_pos, read_full_node, send_text,
}

-- jsoncpp, for the value that is parsed from a text: whether `asInt` of its member "id" throws, its
-- member "data" as a string, which may throw, and the value written out with another text for it.
pub record JsonValue : Type 0 where
  pub id_as_int : Bytes → Exec (Unit {0})
  pub data_as_string : Bytes → Exec Bytes
  pub styled : Bytes → Bytes → Bytes

-- "server has receive msg, msg is: ".
abbrev pub json_receipt : Bytes
json_receipt =
    115 ∷ 101 ∷ 114 ∷ 118 ∷ 101 ∷ 114 ∷ 32 ∷ 104 ∷ 97 ∷ 115 ∷ 32 ∷ 114 ∷ 101 ∷ 99 ∷ 101 ∷ 105 ∷ 118
    ∷ 101 ∷ 32 ∷ 109 ∷ 115 ∷ 103 ∷ 44 ∷ 32 ∷ 109 ∷ 115 ∷ 103 ∷ 32 ∷ 105 ∷ 115 ∷ 58 ∷ 32 ∷ []

-- Loops whose further rounds agree agree after a round.
same_rest :
    (f g : Reader → ℕ → ℕ → Sender → Exec (Outcome Sender))
    → ((r : Reader) (c n : ℕ) (s : Sender) → f r c n s ≡ g r c n s)
    → (t : Turn Sender)
    → ◌≡◌ {A = Exec (Outcome Sender)}
        (elim t [ ends o ↦ done o | again c n r s ↦ f r c n s ])
        (elim t [ ends o ↦ done o | again c n r s ↦ g r c n s ])
same_rest f g h (ends o) = refl
same_rest f g h (again c n r s) = h r c n s

module _ (host : Host) (json : JsonValue) where
  -- Lines 151-161, with what is printed of the id first: `check` is what it takes to print it.
  unfoldable pub json_answer : (Bytes → Exec (Unit {0})) → Bytes → Sender → Exec Sender
  json_answer check text s = do
    printed ← check text
    data_text ← json.data_as_string text
    send_text host (json.styled text (json_receipt ++ data_text)) s

  -- The same from the node: `std::string(_msg, _total_len)`.
  unfoldable pub json_answer_node : (Bytes → Exec (Unit {0})) → MsgNode → Sender → Exec Sender
  unfolding json_answer
  json_answer_node check node s = do
    text ← defined (read_at node.block 0 (to_size node.total_len))
    json_answer check text s

  pub json_answer_node_lem :
      (check : Bytes → Exec (Unit {0})) (payload : Bytes) (s : Sender)
      → json_answer_node check (full_node payload) s ≡ json_answer check payload s
  unfolding json_answer_node
  json_answer_node_lem check payload s = rw (read_full_node payload) refl

  abbrev pub json_protocol : (Bytes → Exec (Unit {0})) → Protocol Sender
  json_protocol check = record {
    head_len = head_length;
    head_pos = head_length_pos;
    header = length_header host;
    new_node = plain_node;
    deliver_node = λ id node s. json_answer_node check node s;
    deliver = λ id payload s. json_answer check payload s;
    header_front = length_header_front host;
    new_node_lem = plain_node_lem;
    deliver_lem = λ id payload s. json_answer_node_lem check payload s;
  }

  -- Lines 151-161 print `root["id"].asInt()`, lines 195-205 the value itself.
  abbrev pub with_header : Protocol Sender
  with_header = json_protocol json.id_as_int

  abbrev pub in_parts : Protocol Sender
  in_parts = json_protocol (λ text. done tt)

  module _ (buffer : Bytes) where
    -- The body of the loop.
    unfoldable pub json_turn : Reader → ℕ → ℕ → Sender → Exec (Turn Sender)
    json_turn r copy_len bytes_transferred s =
        if r.b_head_parse
        then body_part in_parts buffer r r.recv_msg_node copy_len bytes_transferred s
        else head_part with_header buffer r copy_len bytes_transferred s

    -- `while (bytes_transferred > 0)`.
    unfoldable pub json_read_loop : ℕ → Reader → ℕ → ℕ → Sender → Exec (Outcome Sender)
    unfolding json_turn
    json_read_loop zero r copy_len bytes_transferred s =
        done (if bytes_transferred == 0 then idle r s else out_of_fuel)
    json_read_loop (suc fuel) r copy_len bytes_transferred s = elim (bytes_transferred == 0) [
      | true ↦ done (idle r s)
      | false ↦ json_turn r copy_len bytes_transferred s >>= λ t. elim t [
        | ends o ↦ done o
        | again c n r' s' ↦ json_read_loop fuel r' c n s'
      ]
    ]

    -- Lines 96-217.
    unfoldable pub json_handle_bytes : Reader → ℕ → Sender → Exec (Outcome Sender)
    unfolding json_read_loop
    json_handle_bytes r bytes_transferred s =
        json_read_loop bytes_transferred r 0 bytes_transferred s

    json_turn_lem :
        json.id_as_int ≡ (λ text. done tt)
        → (r : Reader) (c n : ℕ) (s : Sender) → json_turn r c n s ≡ turn in_parts buffer r c n s
    unfolding json_turn turn
    json_turn_lem e r c n s =
        ap
          (λ (check : Bytes → Exec (Unit {0})).
            if r.b_head_parse
            then body_part in_parts buffer r r.recv_msg_node c n s
            else head_part (json_protocol check) buffer r c n s)
          e

    json_read_loop_lem :
        json.id_as_int ≡ (λ text. done tt)
        → (fuel : ℕ) (r : Reader) (c n : ℕ) (s : Sender)
        → json_read_loop fuel r c n s ≡ read_loop in_parts buffer fuel r c n s
    unfolding json_read_loop read_loop
    json_read_loop_lem e zero r c n s = refl
    json_read_loop_lem e (suc fuel) r c n s = elim (Bool-cases (n == 0)) [
      | inl over ↦ rw (over, json_read_loop, read_loop) refl
      | inr more ↦
          rw (more, json_read_loop, read_loop)
            (ap
                (λ (t : Exec (Turn Sender)). t >>= λ t. elim t [
                  | ends o ↦ done o
                  | again c n r' s' ↦ json_read_loop fuel r' c n s'
                ])
                (json_turn_lem e r c n s)
              ∙ >>=-ext (turn in_parts buffer r c n s) (
                  same_rest (json_read_loop fuel) (read_loop in_parts buffer fuel)
                    (λ r' c' n' s'. json_read_loop_lem e fuel r' c' n' s')))
    ]

  -- Where asInt does not throw on any id, the loop on a chunk of at least one byte gets where the
  -- stream machine gets that answers every message, unless that is broken.
  json_handle_bytes-Reaches :
      (size : ℕ) (r : Reader) (f : Frame) (chunk : Bytes) (s : Sender)
      → ((text : Bytes) → json.id_as_int text ≡ done tt)
      → Shows head_length r f
      → 0 < length chunk
      → (feeds in_parts chunk f s).0 ≢ broken
      → Reaches in_parts
          (feeds in_parts chunk f s)
          (json_handle_bytes (received_in size chunk) r (length chunk) s)
  unfolding json_handle_bytes handle_bytes
  json_handle_bytes-Reaches size r f chunk s no_throw shown nonempty sane =
      rw
        (json_read_loop_lem (received_in size chunk) (fun_ext no_throw) (length chunk) r 0
          (length chunk) s)
        (handle_bytes-Reaches in_parts size r f chunk s shown nonempty sane)
