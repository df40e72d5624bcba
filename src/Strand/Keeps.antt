-- ===== src/Strand/Keeps.antt =====
-- Every event leaves a session on a strand where the stream machine is.
use asio_network.Base.{
  ℕ, ◌-◌, ◌<◌, ◌≤◌, ◌≡◌, ◌≢◌, refl, ap, ◌∙◌, true, false, List, [], ◌∷◌, ◌++◌, pos→==, arith,
}
use asio_network.Wire.Memory.{Bytes}
use asio_network.Wire.Host.{Host}
use asio_network.Wire.Exec.{done}
use asio_network.Framing.Stream.{Frame, rejected, broken, feeds}
use asio_network.Framing.Reader.Shows.{Shows}
use asio_network.Framing.Reader.Window.{Window}
use asio_network.Framing.Reader.Loop.{turn-Agrees}
use asio_network.Framing.Reader.Agrees.{reads, clears, goes_on}
use asio_network.Logic.{LogicSystem}
use asio_network.Session.{csession_protocol}
use asio_network.Strand.{
  Event, gives, breaks, write_ends, dispatches, Running, nobody, in_loop, leaving, failing, writing,
  Stranded, after_turn, strand_step, steps_left, on_strand, run_strand,
}
use asio_network.Strand.Follows.{
  reads_in, is_looping, goal, is_armed, is_queued, is_handled, is_failing, is_over, begins_sane,
}
use asio_network.Strand.Queued.{Holds, relabel, queue-write, fail_read, give_up_to, dispatch}

module _ (host : Host) (uuid : ℕ) (f0 : Frame) (logic0 : LogicSystem) (stream : Bytes) where
  -- A step of a handler, after which it has fewer left.
  abbrev pub Steps : Running → Stranded → Type 0
  Steps run s =
      (s' : Stranded) × (strand_step host uuid run s ≡ done s')
      × Holds host uuid f0 logic0 stream s'
      × (steps_left s'.running ≤ steps_left run - 1)

  module _ (sane : (goal host uuid f0 logic0 stream stream).0 ≢ broken) where
    loop_step :
        (s : Stranded) (f : Frame) (taken rest buffer : Bytes) (c n : ℕ)
        → s.read_armed ≡ false
        → reads_in s.strand ≡ []
        → Shows 4 s.reader f
        → Window buffer c n rest
        → 0 < n
        → taken ++ s.incoming ≡ stream
        → goal host uuid f0 logic0 stream taken ≡ feeds (csession_protocol host uuid) rest f s.logic
        → Steps (in_loop buffer c n) s
    unfolding strand_step after_turn steps_left
    loop_step s f taken rest buffer c n a q sh w some_left same g =
        elim (turn-Agrees (csession_protocol host uuid) buffer s.reader f c n rest s.logic sh w
          some_left
          (λ e.
            begins_sane host uuid f0 logic0 stream taken s.incoming same sane
              (ap (λ (g : Frame × LogicSystem). g.0) g ∙ e))) [
                | reads r f' x e sh' g' ↦
                    rw (pos→== n some_left, strand_step, e)
                      (_, refl, is_armed f' taken refl q refl sh' same (g ∙ g'), omega arith)
                | clears r x e g' ↦
                    rw (pos→== n some_left, strand_step, e)
                      (_, refl, is_over rejected taken a q refl same (g ∙ g'), omega arith)
                | goes_on c' m r f' x rest' e less more w' sh' g' ↦
                    rw (pos→== n some_left, strand_step, e)
                      (
                        _,
                        refl,
                        is_handled f' taken rest' buffer c' m a q refl sh' w' more same (g ∙ g'),
                        omega arith,
                      )
              ]

    other_step :
        (s : Stranded) (run : Running)
        → is_looping run ≡ false
        → Holds host uuid f0 logic0 stream (record s { running = run })
        → Steps run (record s { running = run })
    unfolding strand_step steps_left
    other_step s nobody l v = (_, refl, v, omega arith)
    other_step s (in_loop buffer c n) l v = cc (l)
    other_step s (leaving flag) l v = (
      _,
      refl,
      relabel host uuid f0 logic0 stream (record s { running = leaving flag }) nobody s.strand
          (record (s.reader) { b_head_parse = flag }) s.socket_open s.is_cleared refl refl refl refl
          v,
      omega arith,
    )
    other_step s failing l v = (
      _,
      refl,
      relabel host uuid f0 logic0 stream (record s { running = failing }) nobody s.strand s.reader
          false true refl refl refl refl v,
      omega arith,
    )
    other_step s writing l v = (
      _,
      refl,
      relabel host uuid f0 logic0 stream (record s { running = writing }) nobody s.strand s.reader
          s.socket_open s.is_cleared refl refl refl refl v,
      omega arith,
    )

    pub step :
        (s : Stranded) (run : Running)
        → Holds host uuid f0 logic0 stream (record s { running = run })
        → Steps run (record s { running = run })
    step s run (is_handled f taken rest buffer c n a q at sh w some same g) = rw at (
        loop_step (record s { running = in_loop buffer c n }) f taken rest buffer c n a q sh w some
          same g)
    step s run (is_armed f taken a q l sh same g) =
        other_step s run l (is_armed f taken a q l sh same g)
    step s run (is_queued f taken chunk a q l sh same some g) =
        other_step s run l (is_queued f taken chunk a q l sh same some g)
    step s run (is_failing f taken a q l same g) =
        other_step s run l (is_failing f taken a q l same g)
    step s run (is_over f taken a q l same g) = other_step s run l (is_over f taken a q l same g)

    -- Every event.
    pub event :
        (e : Event) (s : Stranded)
        → Holds host uuid f0 logic0 stream s
        → (s' : Stranded) × (on_strand host uuid e s ≡ done s')
          × Holds host uuid f0 logic0 stream s'
    unfolding on_strand
    event (gives n) s v = (_, refl, give_up_to host uuid f0 logic0 stream s s.read_armed _ refl v)
    event breaks s v = (_, refl, fail_read host uuid f0 logic0 stream s s.read_armed v)
    event write_ends s v = (_, refl, queue-write host uuid f0 logic0 stream s v)
    event dispatches s v = (_, refl, dispatch host uuid f0 logic0 stream s s.running s.strand v)
    event Event.goes_on s v = let (s', e, v', _) = step s s.running v in (s', e, v')

    pub run_strand-Follows :
        (events : List Event) (s : Stranded)
        → Holds host uuid f0 logic0 stream s
        → (s' : Stranded) × (run_strand host uuid events s ≡ done s')
          × Holds host uuid f0 logic0 stream s'
    unfolding run_strand
    run_strand-Follows [] s v = (s, refl, v)
    run_strand-Follows (e ∷ events) s v =
        let (s1, e1, v1) = event e s v in
        let (s2, e2, v2) = run_strand-Follows events s1 v1 in (s2, rw e1 e2, v2)
