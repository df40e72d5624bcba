-- ===== src/Client/Length.antt =====
-- The clients of the two-byte format: JsonClient.cpp, ProtobufSerializeClient/client.cpp, and
-- ClientDriveByThread.cpp, against the servers that read it.
use asio_network.Base.{
  ap, ℕ, ◌+◌, ◌-◌, ◌*◌, ◌/◌, ◌%◌, ◌^◌, ◌<◌, ◌≤◌, ◌≡◌, refl, sym, ◌∙◌, [], ◌∷◌, ◌++◌, append_assoc,
  append-nil, arith, lt→ltb, length, replicate, length-append, length-replicate, drop-append,
}
use asio_network.Wire.Memory.{Bytes, write_at-middle}
use asio_network.Wire.Host.{Host, bytes_of_short, short_of, short_of-bytes_of_short}
use asio_network.Wire.Exec.{done}
use asio_network.Wire.Node.Laws.{length-bytes_of_short, signed16_lem}
use asio_network.Framing.Stream.{head, rejected, feeds, opened_by, feeds-rejected}
use asio_network.Sender.{Sender}
use asio_network.Base.{List, All}
use asio_network.Framing.Reader.{Reader, cleared}
use asio_network.Framing.Reader.Shows.{Shows, in_head, in_body}
use asio_network.Framing.Reader.Loop.{still_reading, was_cleared}
use asio_network.Framing.Reader.Chunks.{joined, IsChunk, receive_all, receive_all-Reaches}
use asio_network.Framing.Stream.{Frame}
use asio_network.Echo.{MsgData, max_length, length_header, check_length, echo_protocol}
use asio_network.Echo.Replies.{length_frame}
use asio_network.Client.{
  client_buffer, NumberBytes, Sends, Receives, sent_of, received_of, reply_block, protobuf_reply,
  length_request, length_reply, drive_request,
}
use asio_network.Base.{replicate-add, take-length, length-take, take, drop}
use asio_network.Client.Tlv.{split_zeros, read_front, received_front, capped_lem}

-- What `reply_block` leaves, of a frame whose header has been received as a whole.
reply_block_lem :
    (client server : Host) (receive : Receives) (reply rest : Bytes) (given : ℕ)
    → length reply ≤ client_buffer
    → receive 2 (length_frame server reply ++ rest) ≡ done 2
    → receive (length reply) (reply ++ rest) ≡ done given
    → reply_block client receive (length_frame server reply ++ rest)
      ≡ done (
        length reply,
        take given reply,
        take given reply ++ replicate (client_buffer - length (take given reply)) 0,
      )
unfolding reply_block
reply_block_lem client server receive reply rest given fits head_given text_given =
    let replyb : Bytes = bytes_of_short server (length reply) in
    let two : length replyb ≡ 2 = length-bytes_of_short server (length reply) in
    let part : length (take given reply) ≤ client_buffer =
      omega (arith, fits, length-take given reply) in
    let no_offset : 0 + length (take given reply) ≡ length (take given reply) = omega arith in
    let regroup : length_frame server reply ++ rest ≡ replyb ++ (reply ++ rest) =
      append_assoc replyb reply rest in
    let head_lem : received_of receive 2 (length_frame server reply ++ rest) ≡ done (replyb ++ []) =
      received_front receive (length_frame server reply ++ rest) replyb (reply ++ rest) 2 2 regroup
        two head_given
      ∙ ap done (take-length 2 replyb (omega (arith, two)) ∙ sym (append-nil replyb)) in
    let two_nil : length (replyb ++ []) ≡ 2 = ap length (append-nil replyb) ∙ two in
    let text_left : drop 2 (length_frame server reply ++ rest) ≡ reply ++ rest =
      ap (drop 2) regroup ∙ drop-append 2 replyb (reply ++ rest) two in
    rw
      (
        head_lem,
        two_nil,
        short_of-bytes_of_short server client (length reply) [] (omega arith),
        signed16_lem (length reply) (omega arith),
        capped_lem (length reply) fits,
        text_left,
        received_front receive (reply ++ rest) reply rest (length reply) given refl refl text_given,
        split_zeros 0 (length (take given reply)) client_buffer (omega (arith, part)),
        write_at-middle [] (replicate (length (take given reply)) 0)
            (replicate (client_buffer - (0 + length (take given reply))) 0) (take given reply) 0
            refl (length-replicate {A = ℕ} (length (take given reply)) 0),
        no_offset,
      )
      refl

-- What is offered to `send` for a request that fits the buffer.
length_request_lem :
    (client : Host) (send : Sends) (request : Bytes) (taken : ℕ)
    → length request + 2 ≤ client_buffer
    → send (length_frame client request) ≡ done taken
    → length_request client send request ≡ done (take taken (length_frame client request))
unfolding length_request sent_of
length_request_lem client send request taken fits takes =
    let lenb : Bytes = bytes_of_short client (length request) in
    let behind : Bytes = replicate (client_buffer - (2 + length request)) 0 in
    let whole : length request % 2 ^ 16 ≡ length request = omega arith in
    rw
      (
        whole,
        split_zeros 2 (length request) client_buffer (omega arith),
        write_at-middle [] (0 ∷ 0 ∷ []) (replicate (length request) 0 ++ behind) lenb 0 refl
            (sym (length-bytes_of_short client (length request))),
        write_at-middle lenb (replicate (length request) 0) behind request 2
            (length-bytes_of_short client (length request))
            (length-replicate {A = ℕ} (length request) 0),
        sym (append_assoc lenb request behind),
        read_front (lenb ++ request) behind (length request + 2) (
            omega
              (arith, length-append lenb request, length-bytes_of_short client (length request))),
        takes,
      )
      refl

-- The JSON and the protobuf client, whatever the byte orders of client and server. For a request that
-- fits the buffer, where `send` takes some bytes, these are so many of the first bytes of its frame.
-- Where the first bytes to receive are the frame of a reply of at most MAX_LENGTH bytes, the first
-- `receive` gives the whole header and the second one no more than the text: the JSON client parses as
-- much of the text as has been received, and the protobuf client that and as many zeros as are
-- missing of the text.
pub length_client_round_trip :
    (client server : Host) (send : Sends) (receive : Receives) (request reply rest : Bytes)
    (taken given : ℕ)
    → length request + 2 ≤ client_buffer
    → length reply ≤ client_buffer
    → send (length_frame client request) ≡ done taken
    → receive 2 (length_frame server reply ++ rest) ≡ done 2
    → receive (length reply) (reply ++ rest) ≡ done given
    → given ≤ length reply
    → (length_request client send request ≡ done (take taken (length_frame client request)))
      × (length_reply client receive (length_frame server reply ++ rest) ≡ done (take given reply))
      × (protobuf_reply client receive (length_frame server reply ++ rest)
          ≡ done (take given reply ++ replicate (length reply - given) 0))
unfolding length_reply protobuf_reply
length_client_round_trip client server send receive request reply rest taken given fits_request
      fits_reply takes head_given text_given no_more =
    let part : Bytes = take given reply in
    let part_length : length part ≡ given = length-take given reply ∙ omega arith in
    let block =
      reply_block_lem client server receive reply rest given fits_reply head_given text_given in
    let zeros : replicate {A = ℕ} (client_buffer - length part) 0
        ≡ replicate (length reply - given) 0 ++ replicate (client_buffer - length reply) 0 =
      replicate-add (length reply - given) (client_buffer - length reply)
        (client_buffer - length part) 0 (omega (arith, part_length)) in
    (
      length_request_lem client send request taken fits_request takes,
      rw (block, read_front part _ (length part) refl) refl,
      rw
          (
            block,
            zeros,
            sym (
                append_assoc part (replicate {A = ℕ} (length reply - given) 0)
                  (replicate {A = ℕ} (client_buffer - length reply) 0)),
            read_front (part ++ replicate {A = ℕ} (length reply - given) 0) _ (length reply) (
                omega (
                  arith,
                  part_length,
                  length-append part (replicate {A = ℕ} (length reply - given) 0),
                  length-replicate {A = ℕ} (length reply - given) 0,
                )),
          )
          refl,
    )

-- A machine that keeps the low byte of a `size_t` first.
pub record LowByteFirst (size_byte : NumberBytes) : Type 0 where
  pub low_first : (n : ℕ) → n < 2 ^ 16 → size_byte n 0 ≡ n % 256
  pub then_high : (n : ℕ) → n < 2 ^ 16 → size_byte n 1 ≡ n / 256 % 256

-- Such a client's message of 9 to 127 bytes is refused by the stream machine.
drive_request-rejected :
    (host : Host) (codec : MsgData) (size_byte : NumberBytes) (msg rest : Bytes) (s : Sender)
    → LowByteFirst size_byte
    → 8 < length msg
    → length msg < 128
    → feeds (echo_protocol host codec) (drive_request size_byte msg ++ rest) (head []) s
      ≡ (rejected, s)
unfolding feeds opened_by drive_request length_header check_length short_of
drive_request-rejected host codec size_byte msg rest s low long short =
    let lo : size_byte (length msg) 0 ≡ length msg =
      low.low_first (length msg) (omega arith) ∙ omega arith in
    let hi : size_byte (length msg) 1 ≡ 0 =
      low.then_high (length msg) (omega arith) ∙ omega arith in
    let len_eq : host.network_to_host_short (host.load_short (length msg) 0)
        ≡ length msg * 256 + 0 =
      host.receives_big_endian (length msg) 0 (omega arith) (omega arith) in
    let small : length msg * 256 + 0 < 2 ^ 15 = omega arith in
    let big : max_length < length msg * 256 + 0 = omega arith in
    rw
      (
        lo,
        hi,
        len_eq,
        signed16_lem (length msg * 256 + 0) small,
        lt→ltb max_length (length msg * 256 + 0) big,
      )
      (feeds-rejected (echo_protocol host codec) (msg ++ rest) s)

-- A session of AsyncEchoServer2 that is at a header refuses a message of 9 to 127 bytes of such a client,
-- whose length it reads as 256 times what it is: however the network cuts the bytes, and whatever is sent after it, HandleRead
-- clears the session, without a further read, and queues nothing on it.
pub drive_request_refused :
    (host : Host) (codec : MsgData) (size_byte : NumberBytes) (msg rest : Bytes)
    (chunks : List Bytes) (r : Reader) (s : Sender)
    → LowByteFirst size_byte
    → 8 < length msg
    → length msg < 128
    → All IsChunk chunks
    → joined chunks ≡ drive_request size_byte msg ++ rest
    → Shows 2 r (head [])
    → (r' : Reader) × (receive_all (echo_protocol host codec) max_length chunks r s
        ≡ done (cleared r' s))
drive_request_refused host codec size_byte msg rest chunks r s low long short nonempty same shown =
    let goal : feeds (echo_protocol host codec) (joined chunks) (head []) s ≡ (rejected, s) =
      ap (λ (bs : Bytes). feeds (echo_protocol host codec) bs (head []) s) same
      ∙ drive_request-rejected host codec size_byte msg rest s low long short in
    elim (receive_all-Reaches (echo_protocol host codec) max_length chunks r (head []) s shown
      nonempty (λ q. cc (q, goal))) [
        | still_reading r' f x e shown' g ↦ absurd (
            not_shown r' f shown'
              (sym (ap (λ (x : Frame × Sender). x.0) g) ∙ ap (λ (x : Frame × Sender). x.0) goal))
        | was_cleared r' x e g ↦ (
          r',
          e
              ∙ ap (λ (x : Sender). done (cleared r' x))
                  (sym (ap (λ (x : Frame × Sender). x.1) g)
                    ∙ ap (λ (x : Frame × Sender). x.1) goal),
        )
      ]
  where
    not_shown : (r : Reader) (f : Frame) → Shows 2 r f → f ≡ rejected → ⊥
    not_shown r f (in_head bytes flag h more) q = cc (q)
    not_shown r f (in_body m len bytes flag h none m' more) q = cc (q)
