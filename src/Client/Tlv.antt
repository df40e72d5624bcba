-- ===== src/Client/Tlv.antt =====
-- ClientTlvFormat/client.cpp against a server of its format.
use asio_network.Base.{
  ℕ, ◌+◌, ◌-◌, ◌%◌, ◌^◌, ◌<◌, ◌≤◌, ◌≡◌, refl, sym, ap, ◌∙◌, some, [], ◌∷◌, ◌++◌, append_assoc,
  append-nil, arith, length, drop, replicate, length-append, length-replicate, take-append,
  drop-append, replicate-add, take-length, length-take, le→leb, take,
}
use asio_network.Wire.Memory.{Bytes, read_at, write_at, write_at-middle, read_at-inside}
use asio_network.Wire.Host.{Host, bytes_of_short, short_of-bytes_of_short}
use asio_network.Wire.Exec.{done}
use asio_network.Wire.Node.Laws.{length-bytes_of_short, signed16_lem}
use asio_network.Session.Receive.{Message, frame}
use asio_network.Client.{
  sent_of, client_buffer, NumberBytes, StartsWithShort, zeroed, Sends, Receives, received_of,
  capped, tlv_request, tlv_reply,
}

-- A buffer of zeros, with the parts that are written to.
pub split_zeros :
    (k n size : ℕ)
    → k + n ≤ size
    → zeroed size ≡ replicate k 0 ++ (replicate n 0 ++ replicate (size - (k + n)) 0)
unfolding zeroed
split_zeros k n size h =
    replicate-add k (size - k) size 0 (omega arith)
    ∙ ap (λ (bs : Bytes). replicate k 0 ++ bs)
        (replicate-add n (size - (k + n)) (size - k) 0 (omega arith))

-- What stands at the front is read.
pub read_front :
    (front back : Bytes) (n : ℕ) → length front ≡ n → read_at (front ++ back) 0 n ≡ some front
read_front front back n e =
    read_at-inside (front ++ back) 0 n (omega (arith, length-append front back))
    ∙ ap some (take-append n front back e)

-- What is written at the front of a buffer of zeros is read back.
pub store_front :
    (size : ℕ) (bytes : Bytes)
    → length bytes ≤ size
    → (block : Bytes) × (write_at (zeroed size) 0 bytes ≡ some block)
      × (read_at block 0 (length bytes) ≡ some bytes)
store_front size bytes fits = (
  bytes ++ replicate (size - (0 + length bytes)) 0,
  rw (split_zeros 0 (length bytes) size (omega arith)) (
      write_at-middle [] (replicate (length bytes) 0) (replicate (size - (0 + length bytes)) 0)
        bytes 0 refl (length-replicate {A = ℕ} (length bytes) 0)),
  read_front bytes _ (length bytes) refl,
)

-- The writes of a request into a buffer of any size, and the read of what is sent.
module _ (a b : ℕ) (lenb payload : Bytes) (size : ℕ) (two : length lenb ≡ 2)
    (fits : length payload + 4 ≤ size) where
  abbrev behind : Bytes
  behind = replicate (size - (4 + length payload)) 0

  id_written :
      write_at (zeroed size) 0 (a ∷ b ∷ [])
      ≡ some (a ∷ b ∷ 0 ∷ 0 ∷ (replicate (length payload) 0 ++ behind))
  id_written = rw (split_zeros 4 (length payload) size (omega arith)) (
      write_at-middle [] (0 ∷ 0 ∷ []) (0 ∷ 0 ∷ (replicate (length payload) 0 ++ behind))
        (a ∷ b ∷ []) 0 refl refl)

  len_written :
      write_at (a ∷ b ∷ 0 ∷ 0 ∷ (replicate (length payload) 0 ++ behind)) 2 lenb
      ≡ some ((a ∷ b ∷ lenb) ++ (replicate (length payload) 0 ++ behind))
  len_written =
      write_at-middle (a ∷ b ∷ []) (0 ∷ 0 ∷ []) (replicate (length payload) 0 ++ behind) lenb 2 refl
        (sym two)

  payload_written :
      write_at ((a ∷ b ∷ lenb) ++ (replicate (length payload) 0 ++ behind)) 4 payload
      ≡ some ((a ∷ b ∷ lenb) ++ (payload ++ behind))
  payload_written =
      write_at-middle (a ∷ b ∷ lenb) (replicate (length payload) 0) behind payload 4
        (omega (arith, two)) (length-replicate {A = ℕ} (length payload) 0)

  request_sent :
      read_at ((a ∷ b ∷ lenb) ++ (payload ++ behind)) 0 (length payload + 4)
      ≡ some ((a ∷ b ∷ lenb) ++ payload)
  request_sent =
      ap (λ (bs : Bytes). read_at bs 0 (length payload + 4))
        (sym (append_assoc (a ∷ b ∷ lenb) payload behind))
      ∙ read_front ((a ∷ b ∷ lenb) ++ payload) behind (length payload + 4)
          (omega (arith, two, length-append lenb payload))

-- Of bytes that start with `front`, a `receive` of as many gives a first part of it.
pub received_front :
    (receive : Receives) (stream front back : Bytes) (size n : ℕ)
    → stream ≡ front ++ back
    → length front ≡ size
    → receive size stream ≡ done n
    → received_of receive size stream ≡ done (take n front)
unfolding received_of
received_front receive stream front back size n same len gives =
    rw (gives, same, take-append size front back len) refl

pub capped_lem : (size : ℕ) → size ≤ client_buffer → capped size ≡ size
unfolding capped
capped_lem size h = rw (le→leb size client_buffer h) refl

module _ (host : Host) (int_byte : NumberBytes) (starts : StartsWithShort host int_byte) where
  -- What the client offers to `send` is the frame of its message.
  pub tlv_request_lem :
      (send : Sends) (m : Message) (taken : ℕ)
      → m.msg_id < 2 ^ 16
      → length m.payload + 4 ≤ client_buffer
      → send (frame host m) ≡ done taken
      → tlv_request host int_byte send m.msg_id m.payload ≡ done (take taken (frame host m))
  unfolding tlv_request sent_of bytes_of_short
  tlv_request_lem send m taken small fits takes =
      let id : ℕ = host.host_to_network_short m.msg_id in
      let lenb : Bytes = bytes_of_short host (length m.payload) in
      let whole : length m.payload % 2 ^ 16 ≡ length m.payload = omega arith in
      rw
        (
          starts.same_first m.msg_id small,
          starts.same_second m.msg_id small,
          id_written (host.first_byte id) (host.second_byte id) lenb m.payload client_buffer refl
              fits,
          whole,
          len_written (host.first_byte id) (host.second_byte id) lenb m.payload client_buffer refl
              fits,
          payload_written (host.first_byte id) (host.second_byte id) lenb m.payload client_buffer
              refl fits,
          request_sent (host.first_byte id) (host.second_byte id) lenb m.payload client_buffer refl
              fits,
          takes,
        )
        refl

-- From the frame of a message the client parses as much of its text as `receive` gives.
pub tlv_reply_lem :
    (host sender : Host) (receive : Receives) (m : Message) (rest : Bytes) (got : ℕ)
    → length m.payload ≤ client_buffer
    → receive 4 (frame sender m ++ rest) ≡ done 4
    → receive (length m.payload) (m.payload ++ rest) ≡ done got
    → tlv_reply host receive (frame sender m ++ rest) ≡ done (take got m.payload)
unfolding tlv_reply
tlv_reply_lem host sender receive m rest got fits head_given text_given =
    let idb : Bytes = bytes_of_short sender m.msg_id in
    let lenb : Bytes = bytes_of_short sender (length m.payload) in
    let (block, stored, read) =
      store_front client_buffer (take got m.payload)
        (omega (arith, fits, length-take got m.payload)) in
    let regroup : frame sender m ++ rest ≡ (idb ++ lenb) ++ (m.payload ++ rest) =
      append_assoc idb (lenb ++ m.payload) rest
      ∙ ap (λ (bs : Bytes). idb ++ bs) (append_assoc lenb m.payload rest)
      ∙ sym (append_assoc idb lenb (m.payload ++ rest)) in
    let four : length (idb ++ lenb) ≡ 4 = omega (
      arith,
      length-append idb lenb,
      length-bytes_of_short sender m.msg_id,
      length-bytes_of_short sender (length m.payload),
    ) in
    let len_bytes : drop 2 (idb ++ lenb) ≡ lenb ++ [] =
      drop-append 2 idb lenb (length-bytes_of_short sender m.msg_id) ∙ sym (append-nil lenb) in
    let text_left : drop 4 (frame sender m ++ rest) ≡ m.payload ++ rest =
      ap (drop 4) regroup ∙ drop-append 4 (idb ++ lenb) (m.payload ++ rest) four in
    let head_lem : received_of receive 4 (frame sender m ++ rest) ≡ done (idb ++ lenb) =
      received_front receive (frame sender m ++ rest) (idb ++ lenb) (m.payload ++ rest) 4 4 regroup
        four head_given
      ∙ ap done (take-length 4 (idb ++ lenb) (omega (arith, four))) in
    rw
      (
        head_lem,
        four,
        len_bytes,
        short_of-bytes_of_short sender host (length m.payload) [] (omega arith),
        signed16_lem (length m.payload) (omega arith),
        capped_lem (length m.payload) fits,
        text_left,
        received_front receive (m.payload ++ rest) m.payload rest (length m.payload) got refl refl
            text_given,
        stored,
        read,
      )
      refl

-- The TLV client and a server of the same format, whatever their byte orders, where the `int`s of the
-- client start with their low halves. For a request that fits its buffer, where `send` takes some
-- bytes, these are so many of the first bytes of the frame of the request: all of it where `send` takes
-- all. And where the first bytes to receive are the frame of a reply of at most MAX_LENGTH bytes, and
-- `receive` gives the whole header, the text that is parsed is as much of the reply's text as the
-- second `receive` gives: all of it where it gives all, whatever follows.
pub tlv_client_round_trip :
    (client server : Host) (int_byte : NumberBytes) (send : Sends) (receive : Receives)
    (request reply : Message) (rest : Bytes) (taken given : ℕ)
    → StartsWithShort client int_byte
    → request.msg_id < 2 ^ 16
    → length request.payload + 4 ≤ client_buffer
    → length reply.payload ≤ client_buffer
    → send (frame client request) ≡ done taken
    → receive 4 (frame server reply ++ rest) ≡ done 4
    → receive (length reply.payload) (reply.payload ++ rest) ≡ done given
    → (tlv_request client int_byte send request.msg_id request.payload
        ≡ done (take taken (frame client request)))
      × (length (frame client request) ≤ taken
          → tlv_request client int_byte send request.msg_id request.payload
            ≡ done (frame client request))
      × (tlv_reply client receive (frame server reply ++ rest) ≡ done (take given reply.payload))
      × (length reply.payload ≤ given
          → tlv_reply client receive (frame server reply ++ rest) ≡ done reply.payload)
tlv_client_round_trip client server int_byte send receive request reply rest taken given starts
      small fits reply_fits takes head_given text_given =
    let sends = tlv_request_lem client int_byte starts send request taken small fits takes in
    let gets =
      tlv_reply_lem client server receive reply rest given reply_fits head_given text_given in
    (
      sends,
      λ all. sends ∙ ap done (take-length taken (frame client request) all),
      gets,
      λ all. gets ∙ ap done (take-length given reply.payload all),
    )
