-- ===== src/Sync/Client.antt =====
-- main of SyncServer/client.cpp, and the blocking server at the other end.
use asio_network.Base.{
  length-replicate, length-take, length-append, ◌≤◌, ℕ, zero, suc, ◌-◌, ◌≡◌, refl, ap, ◌∙◌, Option,
  none, some, List, [], ◌∷◌, ◌++◌, append-nil, arith, ◌==◌, if◌then◌else◌, length, take,
  take-append, replicate,
}
use asio_network.Wire.Memory.{Bytes}
use asio_network.Base.{take-length}
use asio_network.Framing.Reader.Chunks.{joined}
use asio_network.Sync.{Received, got, sends, session, buffer_length}

-- The text of a `char` array, up to its first NUL, that is what `strlen` counts.
unfoldable pub until_nul : Bytes → Bytes
until_nul [] = []
until_nul (zero ∷ bytes) = []
until_nul (suc b ∷ bytes) = suc b ∷ until_nul bytes

-- `std::cin.getline(request, MAX_LENGTH)` of a line: one byte is left for the NUL.
unfoldable pub typed_request : Bytes → Bytes
unfolding until_nul
typed_request line = until_nul (take (buffer_length - 1) line)

-- What one run of main has sent, and what it prints as the reply.
pub record Exchange : Type 0 where
  pub sent : Bytes
  pub reply : Bytes

-- client.cpp, lines 118-155, where nothing throws: `takes` is how many bytes `send` takes of those it
-- is offered, and `receives` what `receive` reads into a buffer of this size after these bytes have
-- been sent. Without a connection nothing is sent.
unfoldable pub client_main : ℕ → Bytes → (Bytes → ℕ) → (Bytes → ℕ → Bytes) → Option Exchange
client_main connect_error line takes receives =
    let request = typed_request line in
    let sent = take (takes request) request in
    if connect_error == 0
    then some (record { sent = sent; reply = receives sent (length request) })
    else none

-- What the server's session reads of a request, which it answers in full: a read takes at least a byte.
abbrev pub request_reads : Bytes → List Received
request_reads [] = []
request_reads (b ∷ bytes) = got (b ∷ bytes) (sends buffer_length) ∷ []

-- What the session has sent by then, of which a `receive` gives the first `n` bytes, or fewer.
abbrev pub server_gives : ℕ → Bytes → ℕ → Bytes
server_gives most sent n = take most (take n (joined (session (request_reads sent)).0))

length-until_nul : (bytes : Bytes) → length (until_nul bytes) ≤ length bytes
unfolding until_nul
length-until_nul [] = omega arith
length-until_nul (zero ∷ bytes) = omega arith
length-until_nul (suc b ∷ bytes) = omega (arith, length-until_nul bytes)

typed_request-Fits : (line : Bytes) → length (typed_request line) ≤ buffer_length
unfolding typed_request
typed_request-Fits line =
    omega (
      arith,
      length-until_nul (take (buffer_length - 1) line),
      length-take (buffer_length - 1) line,
    )

same_text :
    (request : Bytes)
    → length request ≤ buffer_length
    → take (length request) (joined (session (request_reads request)).0) ≡ request
unfolding session
same_text [] fits = refl
same_text (b ∷ bytes) fits =
    let block : Bytes = (b ∷ bytes) ++ replicate (buffer_length - length (b ∷ bytes)) 0 in
    let whole : take buffer_length block ≡ block = take-length buffer_length block (
      omega (
        arith,
        fits,
        length-append (b ∷ bytes) (replicate {A = ℕ} (buffer_length - length (b ∷ bytes)) 0),
        length-replicate {A = ℕ} (buffer_length - length (b ∷ bytes)) 0,
      )) in
    ap (λ (bs : Bytes). take (length (b ∷ bytes)) (bs ++ [])) whole
    ∙ ap (take (length (b ∷ bytes))) (append-nil block)
    ∙ take-append (length (b ∷ bytes)) (b ∷ bytes) _ refl

-- Where the whole request is sent, the server reads it at once and its `send` takes the whole answer
-- without an exception of either side, what the client prints as the reply is its own request, as far as `receive` has got it: nothing of the zeros with which the server fills
-- its answer, and nothing of what the line holds behind a NUL or behind 1023 bytes. Without a
-- connection nothing is exchanged.
pub client_main_lem :
    (connect_error most : ℕ) (line : Bytes)
    → client_main connect_error line (λ request. length request) (server_gives most) ≡ (
        if connect_error == 0
        then some (record { sent = typed_request line; reply = take most (typed_request line) })
        else none)
unfolding client_main
client_main_lem connect_error most line =
    let request : Bytes = typed_request line in
    rw
      (
        take-length (length request) request (omega arith),
        same_text request (typed_request-Fits line),
      )
      refl
