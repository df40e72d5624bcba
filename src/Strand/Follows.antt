-- ===== src/Strand/Follows.antt =====
-- What holds of a session on a strand at any time.
use asio_network.Base.{
  ℕ, ◌<◌, ◌≡◌, ◌≢◌, refl, sym, ap, ◌∙◌, Bool, true, false, List, [], ◌∷◌, ◌++◌, length,
}
use asio_network.Wire.Memory.{Bytes}
use asio_network.Wire.Host.{Host}
use asio_network.Framing.Stream.{Frame, broken, feeds, feeds-append, feeds-broken}
use asio_network.Framing.Reader.{Reader}
use asio_network.Framing.Reader.Shows.{Shows}
use asio_network.Framing.Reader.Window.{Window}
use asio_network.Logic.{LogicSystem}
use asio_network.Session.{csession_protocol}
use asio_network.Strand.{
  Handler, read_done, write_done, Running, nobody, in_loop, leaving, failing, writing, Stranded,
}

-- The reads among the queued handlers.
abbrev pub reads_in : List Handler → List (Bool × Bytes)
reads_in [] = []
reads_in (read_done error chunk ∷ q) = (error, chunk) ∷ reads_in q
reads_in (write_done ∷ q) = reads_in q

abbrev pub is_looping : Running → Bool
is_looping (in_loop buffer c n) = true
is_looping nobody = false
is_looping (leaving flag) = false
is_looping failing = false
is_looping writing = false

-- The reader once the handler that is leaving has left.
abbrev pub settled : Running → Reader → Reader
settled (leaving flag) r = record r { b_head_parse = flag }
settled (in_loop buffer c n) r = r
settled nobody r = r
settled failing r = r
settled writing r = r

pub reads_in-read :
    (q : List Handler) (error : Bool) (chunk : Bytes)
    → reads_in (q ++ (read_done error chunk ∷ [])) ≡ reads_in q ++ ((error, chunk) ∷ [])
reads_in-read [] error chunk = refl
reads_in-read (read_done e c ∷ q) error chunk = ap (◌∷◌ (e, c)) (reads_in-read q error chunk)
reads_in-read (write_done ∷ q) error chunk = reads_in-read q error chunk

pub reads_in-write : (q : List Handler) → reads_in (q ++ (write_done ∷ [])) ≡ reads_in q
reads_in-write [] = refl
reads_in-write (read_done e c ∷ q) = ap (◌∷◌ (e, c)) (reads_in-write q)
reads_in-write (write_done ∷ q) = reads_in-write q

module _ (host : Host) (uuid : ℕ) (f0 : Frame) (logic0 : LogicSystem) (stream : Bytes) where
  -- What the stream machine makes of these bytes.
  abbrev pub goal : Bytes → Frame × LogicSystem
  goal bytes = feeds (csession_protocol host uuid) bytes f0 logic0

  -- At most one read of the session is armed, queued or being handled, and the session is where the
  -- stream machine is after the bytes whose handling has ended. In order: a read is armed; its chunk
  -- waits in the strand; it is being handled, with `rest` of it left; its error waits; or there will
  -- be no further read.
  pub data Follows (s : Stranded) : Type 0 where
    is_armed :
        (f : Frame) (taken : Bytes)
        → s.read_armed ≡ true
        → reads_in s.strand ≡ []
        → is_looping s.running ≡ false
        → Shows 4 (settled s.running s.reader) f
        → taken ++ s.incoming ≡ stream
        → goal taken ≡ (f, s.logic)
        → Follows s
    is_queued :
        (f : Frame) (taken chunk : Bytes)
        → s.read_armed ≡ false
        → reads_in s.strand ≡ (false, chunk) ∷ []
        → is_looping s.running ≡ false
        → Shows 4 (settled s.running s.reader) f
        → (taken ++ chunk) ++ s.incoming ≡ stream
        → 0 < length chunk
        → goal taken ≡ (f, s.logic)
        → Follows s
    is_handled :
        (f : Frame) (taken rest buffer : Bytes) (c n : ℕ)
        → s.read_armed ≡ false
        → reads_in s.strand ≡ []
        → s.running ≡ in_loop buffer c n
        → Shows 4 s.reader f
        → Window buffer c n rest
        → 0 < n
        → taken ++ s.incoming ≡ stream
        → goal taken ≡ feeds (csession_protocol host uuid) rest f s.logic
        → Follows s
    is_failing :
        (f : Frame) (taken : Bytes)
        → s.read_armed ≡ false
        → reads_in s.strand ≡ (true, []) ∷ []
        → is_looping s.running ≡ false
        → taken ++ s.incoming ≡ stream
        → goal taken ≡ (f, s.logic)
        → Follows s
    is_over :
        (f : Frame) (taken : Bytes)
        → s.read_armed ≡ false
        → reads_in s.strand ≡ []
        → is_looping s.running ≡ false
        → taken ++ s.incoming ≡ stream
        → goal taken ≡ (f, s.logic)
        → Follows s

  -- The handling of a chunk goes on where that of the bytes before it has ended.
  pub goal-append :
      (taken chunk : Bytes) (f : Frame) (logic : LogicSystem)
      → goal taken ≡ (f, logic)
      → goal (taken ++ chunk) ≡ feeds (csession_protocol host uuid) chunk f logic
  goal-append taken chunk f logic e =
      feeds-append (csession_protocol host uuid) taken chunk f0 logic0
      ∙ ap (λ (g : Frame × LogicSystem). feeds (csession_protocol host uuid) chunk g.0 g.1) e

  -- What a stream begins with is not broken if the stream is not.
  pub begins_sane :
      (taken rest : Bytes)
      → taken ++ rest ≡ stream
      → (goal stream).0 ≢ broken
      → (goal taken).0 ≢ broken
  begins_sane taken rest same sane q = sane (
      ap (λ (g : Frame × LogicSystem). g.0)
        (ap goal (sym same)
          ∙ feeds-append (csession_protocol host uuid) taken rest f0 logic0
          ∙ ap (λ (g : Frame). feeds (csession_protocol host uuid) rest g (goal taken).1) q
          ∙ feeds-broken (csession_protocol host uuid) rest (goal taken).1))
