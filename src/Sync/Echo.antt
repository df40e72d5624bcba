-- ===== src/Sync/Echo.antt =====
-- What the blocking server sends.
use asio_network.Base.{
  ℕ, zero, suc, ◌+◌, ◌-◌, ◌≤◌, ◌≡◌, refl, ap, ◌∙◌, List, [], ◌∷◌, ◌++◌, arith, le→leb, length,
  take-add, length-drop, take, drop, replicate,
}
use asio_network.Wire.Memory.{Bytes}
use asio_network.Sync.{
  looping, hello_world, write_loop, write_to_socket, Received, got, eof, failed, sends, no_endpoint,
  send_throws, Ending, closed, caught, buffer_length,
}

module _ (write_some : ℕ → Bytes → ℕ)
    (takes_offered : (k : ℕ) (bs : Bytes) → write_some k bs ≤ length bs) where
  write_loop_goes_on :
      (fuel total : ℕ) (written_bytes : Bytes)
      → total ≤ 11
      → written_bytes ≡ take total hello_world
      → (t : ℕ) × (write_loop write_some fuel total written_bytes ≡ looping t (take t hello_world))
        × (t ≤ 11)
  unfolding write_loop
  write_loop_goes_on zero total written_bytes small same = (total, ap (looping total) same, small)
  write_loop_goes_on (suc fuel) total written_bytes small same = rw (le→leb total 11 small) (
      write_loop_goes_on fuel (total + write_some fuel (drop total hello_world))
        (written_bytes ++ take (write_some fuel (drop total hello_world)) (drop total hello_world))
        (omega (arith, takes_offered fuel (drop total hello_world), length-drop total hello_world))
        (ap
            (λ (bs : Bytes).
              bs ++ take (write_some fuel (drop total hello_world)) (drop total hello_world))
            same
          ∙ take-add total (write_some fuel (drop total hello_world)) hello_world))

  -- write_to_socket does not return, however many rounds its loop has made: it is at the test of the
  -- loop again, and the socket has taken the first bytes of the text and no others. A socket takes no
  -- more bytes than it is offered.
  pub write_to_socket_never_returns :
      (rounds : ℕ)
      → (t : ℕ) × (write_to_socket write_some rounds ≡ looping t (take t hello_world)) × (t ≤ 11)
  unfolding write_to_socket
  write_to_socket_never_returns rounds = write_loop_goes_on rounds 0 [] (omega arith) refl

-- A read that ends the session, and how.
pub data Stops : Received → Ending → Type 0 where
  at_end : Stops eof closed
  read_error : Stops failed caught
  unknown_peer : (bytes : Bytes) → Stops (got bytes no_endpoint) caught
  write_error : (bytes : Bytes) → Stops (got bytes send_throws) caught

-- The reads of some chunks, each with how many bytes of its answer the socket takes, and a last one.
abbrev pub then_stops : List (Bytes × ℕ) → Received → List Received
then_stops [] last = last ∷ []
then_stops ((chunk, n) ∷ chunks) last = got chunk (sends n) ∷ then_stops chunks last

-- For each chunk, what the socket takes of a buffer of MAX_LENGTH bytes that starts with the chunk and
-- has zeros behind it.
abbrev pub ArePadded : List (Bytes × ℕ) → List Bytes → Type 0
ArePadded [] [] = Unit
ArePadded ((chunk, n) ∷ chunks) (sent ∷ rest) =
    ((block : Bytes) × (sent ≡ take n block)
      × (length block ≡ buffer_length)
      × (take (length chunk) block ≡ chunk)
      × (drop (length chunk) block ≡ replicate (buffer_length - length chunk) 0))
    × ArePadded chunks rest
ArePadded _ _ = ⊥
