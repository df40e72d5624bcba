-- ===== src/Strand/Queued.antt =====
-- What the socket and the threads do to a session on a strand, but for the steps of its handlers.
use asio_network.Base.{
  ℕ, ◌≡◌, refl, sym, ap, ◌∙◌, Bool, true, false, List, [], ◌∷◌, ◌++◌, append_assoc, length, take,
  drop, take-append-drop, if◌then◌else◌, arith,
}
use asio_network.Wire.Memory.{Bytes}
use asio_network.Wire.Host.{Host}
use asio_network.Framing.Stream.{Frame, feeds}
use asio_network.Framing.Reader.{Reader}
use asio_network.Framing.Reader.Loop.{received_in, received_in-Window}
use asio_network.Logic.{LogicSystem}
use asio_network.Session.{csession_protocol}
use asio_network.Session.Format.{max_length}
use asio_network.Strand.{
  Handler, read_done, write_done, Running, nobody, in_loop, leaving, failing, writing, Stranded,
  give, dispatch_front,
}
use asio_network.Strand.Follows.{
  reads_in, is_looping, settled, reads_in-read, reads_in-write, Follows, is_armed, is_queued,
  is_handled, is_failing, is_over, goal-append,
}

module _ (host : Host) (uuid : ℕ) (f0 : Frame) (logic0 : LogicSystem) (stream : Bytes) where
  abbrev pub Holds : Stranded → Type 0
  Holds = Follows host uuid f0 logic0 stream

  -- A handler that does not handle a read takes the place of another.
  pub relabel :
      (s : Stranded) (run' : Running) (q' : List Handler) (r' : Reader) (opened cleared : Bool)
      → is_looping s.running ≡ false
      → is_looping run' ≡ false
      → settled s.running s.reader ≡ settled run' r'
      → reads_in q' ≡ reads_in s.strand
      → Holds s
      → Holds (record s {
        running = run';
        strand = q';
        reader = r';
        socket_open = opened;
        is_cleared = cleared;
      })
  relabel s run' q' r' opened cleared l l' e eq (is_armed f taken a q l0 sh same g) =
      is_armed f taken a (eq ∙ q) l' (rw (sym e) sh) same g
  relabel s run' q' r' opened cleared l l' e eq (is_queued f taken chunk a q l0 sh same some g) =
      is_queued f taken chunk a (eq ∙ q) l' (rw (sym e) sh) same some g
  relabel s run' q' r' opened cleared l l' e eq
        (is_handled f taken rest buffer c n a q at sh w some same g) =
      cc (l, ap is_looping at)
  relabel s run' q' r' opened cleared l l' e eq (is_failing f taken a q l0 same g) =
      is_failing f taken a (eq ∙ q) l' same g
  relabel s run' q' r' opened cleared l l' e eq (is_over f taken a q l0 same g) =
      is_over f taken a (eq ∙ q) l' same g

  pub queue-write :
      (s : Stranded) → Holds s → Holds (record s { strand = s.strand ++ (write_done ∷ []) })
  queue-write s (is_armed f taken a q l sh same g) =
      is_armed f taken a (reads_in-write s.strand ∙ q) l sh same g
  queue-write s (is_queued f taken chunk a q l sh same some g) =
      is_queued f taken chunk a (reads_in-write s.strand ∙ q) l sh same some g
  queue-write s (is_handled f taken rest buffer c n a q at sh w some same g) =
      is_handled f taken rest buffer c n a (reads_in-write s.strand ∙ q) at sh w some same g
  queue-write s (is_failing f taken a q l same g) =
      is_failing f taken a (reads_in-write s.strand ∙ q) l same g
  queue-write s (is_over f taken a q l same g) =
      is_over f taken a (reads_in-write s.strand ∙ q) l same g

  pub fail_read :
      (s : Stranded) (armed : Bool)
      → Holds (record s { read_armed = armed })
      → Holds (
          if armed
          then record s { read_armed = false; strand = s.strand ++ (read_done true [] ∷ []) }
          else record s { read_armed = armed })
  fail_read s false v = v
  fail_read s true (is_armed f taken a q l sh same g) =
      is_failing f taken refl
        (reads_in-read s.strand true []
          ∙ ap (λ (rs : List (Bool × Bytes)). rs ++ ((true, []) ∷ [])) q)
        l same g
  fail_read s true (is_queued f taken chunk a q l sh same some g) = cc (a)
  fail_read s true (is_handled f taken rest buffer c n a q at sh w some same g) = cc (a)
  fail_read s true (is_failing f taken a q l same g) = cc (a)
  fail_read s true (is_over f taken a q l same g) = cc (a)

  -- Nothing is lost and nothing is taken twice between the socket and the chunk.
  queue_chunk :
      (s : Stranded) (chunk rest : Bytes)
      → s.read_armed ≡ true
      → chunk ++ rest ≡ s.incoming
      → Holds s
      → Holds (give chunk rest s)
  unfolding give
  queue_chunk s [] rest armed cut v = v
  queue_chunk s (b ∷ chunk) rest armed cut (is_armed f taken a q l sh same g) =
      is_queued f taken (b ∷ chunk) refl
        (reads_in-read s.strand false (b ∷ chunk)
          ∙ ap (λ (rs : List (Bool × Bytes)). rs ++ ((false, b ∷ chunk) ∷ [])) q)
        l sh (append_assoc taken (b ∷ chunk) rest ∙ ap (λ (bs : Bytes). taken ++ bs) cut ∙ same)
        (omega arith) g
  queue_chunk s (b ∷ chunk) rest armed cut (is_queued f taken c a q l sh same some g) =
      cc (armed, a)
  queue_chunk s (b ∷ chunk) rest armed cut
        (is_handled f taken left buffer c n a q at sh w some same g) =
      cc (armed, a)
  queue_chunk s (b ∷ chunk) rest armed cut (is_failing f taken a q l same g) = cc (armed, a)
  queue_chunk s (b ∷ chunk) rest armed cut (is_over f taken a q l same g) = cc (armed, a)

  pub give_up_to :
      (s : Stranded) (armed : Bool) (k : ℕ)
      → s.read_armed ≡ armed
      → Holds s
      → Holds (if armed then give (take k s.incoming) (drop k s.incoming) s else s)
  give_up_to s false k e v = v
  give_up_to s true k e v =
      queue_chunk s (take k s.incoming) (drop k s.incoming) e (take-append-drop k s.incoming) v

  tail_of : List (Bool × Bytes) → List (Bool × Bytes)
  tail_of [] = []
  tail_of (x ∷ xs) = xs

  front_of : List (Bool × Bytes) → Bytes
  front_of [] = []
  front_of ((error, chunk) ∷ xs) = chunk

  pub dispatch :
      (s : Stranded) (run : Running) (q : List Handler)
      → Holds (record s { running = run; strand = q })
      → Holds (dispatch_front run q (record s { running = run; strand = q }))
  unfolding dispatch_front tail_of front_of
  dispatch s nobody [] v = v
  dispatch s nobody (write_done ∷ q) v =
      relabel (record s { strand = write_done ∷ q; running = nobody }) writing q s.reader
        s.socket_open s.is_cleared refl refl refl refl v
  dispatch s nobody (read_done false chunk ∷ q) (is_queued f taken chunk' a e l sh same some g) =
      let e' : chunk ≡ chunk' = ap front_of e in
      is_handled f (taken ++ chunk') chunk (received_in max_length chunk) 0 (length chunk) a
        (ap tail_of e) refl sh (received_in-Window max_length chunk) (rw e' some) same
        (goal-append host uuid f0 logic0 stream taken chunk' f s.logic g
          ∙ ap (λ (bs : Bytes). feeds (csession_protocol host uuid) bs f s.logic) (sym e'))
  dispatch s nobody (read_done false chunk ∷ q) (is_armed f taken a e l sh same g) = cc (e)
  dispatch s nobody (read_done false chunk ∷ q)
        (is_handled f taken rest buffer c n a e at sh w some same g) =
      cc (at)
  dispatch s nobody (read_done false chunk ∷ q) (is_failing f taken a e l same g) = cc (e)
  dispatch s nobody (read_done false chunk ∷ q) (is_over f taken a e l same g) = cc (e)
  dispatch s nobody (read_done true chunk ∷ q) (is_failing f taken a e l same g) =
      is_over f taken a (ap tail_of e) refl same g
  dispatch s nobody (read_done true chunk ∷ q) (is_queued f taken chunk' a e l sh same some g) =
      cc (e)
  dispatch s nobody (read_done true chunk ∷ q) (is_armed f taken a e l sh same g) = cc (e)
  dispatch s nobody (read_done true chunk ∷ q)
        (is_handled f taken rest buffer c n a e at sh w some same g) =
      cc (at)
  dispatch s nobody (read_done true chunk ∷ q) (is_over f taken a e l same g) = cc (e)
  dispatch s (in_loop buffer c n) q v = v
  dispatch s (leaving flag) q v = v
  dispatch s failing q v = v
  dispatch s writing q v = v
