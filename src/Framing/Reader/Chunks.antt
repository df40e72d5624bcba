-- ===== src/Framing/Reader/Chunks.antt =====
-- A session's life as a receiver: each chunk of the socket's bytes is a completion of the read that
-- the handler before it armed.
use asio_network.Base.{
  ℕ, ◌<◌, ◌≡◌, ◌≢◌, refl, sym, ap, ◌∙◌, Option, none, some, List, [], ◌∷◌, ◌++◌, length, All,
}
use asio_network.Wire.Memory.{Bytes}
use asio_network.Wire.Exec.{Exec, done, ◌>>=◌}
use asio_network.Framing.Protocol.{Protocol}
use asio_network.Framing.Stream.{Frame, broken, feeds, feeds-append, feeds-broken, feeds-rejected}
use asio_network.Framing.Reader.{Reader, Outcome, reading, cleared, idle, out_of_fuel, handle_bytes}
use asio_network.Framing.Reader.Shows.{Shows}
use asio_network.Framing.Reader.Loop.{
  Reaches, still_reading, was_cleared, received_in, handle_bytes-Reaches,
}

abbrev pub joined : List Bytes → Bytes
joined [] = []
joined (chunk ∷ chunks) = chunk ++ joined chunks

abbrev pub IsChunk : Bytes → Type 0
IsChunk chunk = 0 < length chunk

module _ {X : Type 0} (P : Protocol X) (size : ℕ) where
  open P use {head_len}

  -- Only a handler that has armed a read is followed by another.
  unfoldable pub after_read : (Reader → X → Exec (Outcome X)) → Outcome X → Exec (Outcome X)
  after_read next (reading r x) = next r x
  after_read next (cleared r x) = done (cleared r x)
  after_read next (idle r x) = done (idle r x)
  after_read next out_of_fuel = done out_of_fuel

  unfoldable pub receive_all : List Bytes → Reader → X → Exec (Outcome X)
  unfolding after_read
  receive_all [] r x = done (reading r x)
  receive_all (chunk ∷ chunks) r x =
      handle_bytes P (received_in size chunk) r (length chunk) x
      >>= after_read (λ r' x'. receive_all chunks r' x')

  pub receive_all-Reaches :
      (chunks : List Bytes) (r : Reader) (f : Frame) (x : X)
      → Shows head_len r f
      → All IsChunk chunks
      → (feeds P (joined chunks) f x).0 ≢ broken
      → Reaches P (feeds P (joined chunks) f x) (receive_all chunks r x)
  unfolding receive_all
  receive_all-Reaches [] r f x shown nonempty sane =
      still_reading r f x refl shown (unfold feeds in refl)
  receive_all-Reaches (chunk ∷ chunks) r f x shown nonempty sane =
      elim (handle_bytes-Reaches P size r f chunk x shown nonempty.0 sane_first) [
        | still_reading r' f' x' e shown' goal ↦
            rw (feeds-append P chunk (joined chunks) f x, goal, e)
              (receive_all-Reaches chunks r' f' x' shown' nonempty.1 (λ q. sane (
                ap (λ (g : Frame × X). g.0)
                  (feeds-append P chunk (joined chunks) f x
                    ∙ ap (λ (s : Frame × X). feeds P (joined chunks) s.0 s.1) goal)
                ∙ q)))
        | was_cleared r' x' e goal ↦ was_cleared r' x' (rw e) (
            feeds-append P chunk (joined chunks) f x
            ∙ ap (λ (s : Frame × X). feeds P (joined chunks) s.0 s.1) goal
            ∙ feeds-rejected P (joined chunks) x')
      ]
    where
      sane_first : (feeds P chunk f x).0 ≢ broken
      sane_first q = sane (
          ap (λ (g : Frame × X). g.0)
            (feeds-append P chunk (joined chunks) f x
              ∙ ap (λ (g : Frame). feeds P (joined chunks) g (feeds P chunk f x).1) q
              ∙ feeds-broken P (joined chunks) (feeds P chunk f x).1))

  -- What the receiver has made of its bytes, if its run has a value.
  abbrev pub state_of : Exec (Outcome X) → Option X
  state_of (done (reading r x)) = some x
  state_of (done (cleared r x)) = some x
  state_of (done (idle r x)) = some x
  state_of _ = none

  state_of-Reaches :
      (goal : Frame × X) (t : Exec (Outcome X)) → Reaches P goal t → state_of t ≡ some goal.1
  state_of-Reaches goal t (still_reading r f x e shown g) =
      ap state_of e ∙ ap (λ (g : Frame × X). some g.1) (sym g)
  state_of-Reaches goal t (was_cleared r x e g) =
      ap state_of e ∙ ap (λ (g : Frame × X). some g.1) (sym g)

  pub state_of-receive_all :
      (chunks : List Bytes) (r : Reader) (f : Frame) (x : X)
      → Shows head_len r f
      → All IsChunk chunks
      → (feeds P (joined chunks) f x).0 ≢ broken
      → state_of (receive_all chunks r x) ≡ some (feeds P (joined chunks) f x).1
  state_of-receive_all chunks r f x shown nonempty sane =
      state_of-Reaches _ _ (receive_all-Reaches chunks r f x shown nonempty sane)

  -- Two runs that end alike: both have armed the next read, with readers that show the same header or
  -- message in the making, or both have cleared the session; and what is acted on is the same.
  abbrev pub EndAlike : Exec (Outcome X) → Exec (Outcome X) → Type 0
  EndAlike t t' =
      (goal : Frame × X) × Reaches P goal t × Reaches P goal t' × (state_of t ≡ state_of t')

  -- Two cuttings of the same bytes into chunks of at least one byte end alike, unless the stream is
  -- broken: both have armed the next read, with readers that show the same header or message in the
  -- making, or both have cleared the session; and what the messages act on is the same.
  pub cut_anywhere :
      (chunks chunks' : List Bytes) (r : Reader) (f : Frame) (x : X)
      → Shows head_len r f
      → All IsChunk chunks
      → All IsChunk chunks'
      → joined chunks ≡ joined chunks'
      → (feeds P (joined chunks) f x).0 ≢ broken
      → EndAlike (receive_all chunks r x) (receive_all chunks' r x)
  cut_anywhere chunks chunks' r f x shown nonempty nonempty' same sane =
      let sane' : (feeds P (joined chunks') f x).0 ≢ broken =
        λ q. sane (ap (λ (bs : Bytes). (feeds P bs f x).0) same ∙ q) in
      (
        feeds P (joined chunks) f x,
        receive_all-Reaches chunks r f x shown nonempty sane,
        rw same (receive_all-Reaches chunks' r f x shown nonempty' sane'),
        state_of-receive_all chunks r f x shown nonempty sane
            ∙ ap (λ (bs : Bytes). some (feeds P bs f x).1) same
            ∙ sym (state_of-receive_all chunks' r f x shown nonempty' sane'),
      )
