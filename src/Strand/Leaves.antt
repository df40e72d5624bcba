-- ===== src/Strand/Leaves.antt =====
-- A session from its start on: its handlers leave the strand, and it follows the stream machine.
use asio_network.Base.{
  ℕ, zero, suc, ◌≤◌, ◌≡◌, ◌≢◌, refl, sym, ap, ◌∙◌, List, [], ◌++◌, append-nil, replicate, arith,
}
use asio_network.Wire.Memory.{Bytes}
use asio_network.Wire.Host.{Host}
use asio_network.Wire.Exec.{done}
use asio_network.Framing.Stream.{Frame, head, broken, feeds}
use asio_network.Framing.Reader.{Reader}
use asio_network.Framing.Reader.Shows.{Shows}
use asio_network.Logic.{LogicSystem}
use asio_network.Strand.{
  Event, goes_on, Running, nobody, Stranded, steps_left, on_strand, run_strand, start_on_strand,
}
use asio_network.Strand.Follows.{
  reads_in, goal, Follows, is_armed, is_queued, is_handled, is_failing, is_over,
}
use asio_network.Strand.Keeps.{step, run_strand-Follows}

idle_lem : (run : Running) → steps_left run ≤ 0 → run ≡ nobody
unfolding steps_left
idle_lem nobody h = refl
idle_lem (Running.in_loop buffer c n) h = absurd (omega arith)
idle_lem (Running.leaving flag) h = absurd (omega arith)
idle_lem Running.failing h = absurd (omega arith)
idle_lem Running.writing h = absurd (omega arith)

module _ (host : Host) (uuid : ℕ) (f0 : Frame) (logic0 : LogicSystem) (stream : Bytes)
    (sane : (goal host uuid f0 logic0 stream stream).0 ≢ broken) where
  leaves_within :
      (k : ℕ) (s : Stranded)
      → steps_left s.running ≤ k
      → Follows host uuid f0 logic0 stream s
      → (s' : Stranded) × (run_strand host uuid (replicate k goes_on) s ≡ done s')
        × (s'.running ≡ nobody)
  unfolding run_strand on_strand
  leaves_within zero s enough v = (s, refl, idle_lem s.running enough)
  leaves_within (suc k) s enough v =
      let (s1, e1, v1, fewer) = step host uuid f0 logic0 stream sane s s.running v in
      let (s2, e2, at) = leaves_within k s1 (omega arith) v1 in (s2, rw e1 e2, at)

  -- A handler of a session that follows the stream machine leaves the strand after at most one step
  -- more than it has bytes to handle, and without undefined behaviour.
  pub handler_leaves :
      (s : Stranded)
      → Follows host uuid f0 logic0 stream s
      → (s' : Stranded) × (run_strand host uuid (replicate (steps_left s.running) goes_on) s
          ≡ done s')
        × (s'.running ≡ nobody)
  handler_leaves s v = leaves_within (steps_left s.running) s (omega arith) v

-- Whatever the threads that run its handlers, the socket and the writes do, and in whatever order,
-- from `Start()` at a header on and unless the peer's bytes break the stream machine, the run is
-- defined, and at most one read is armed, queued or being handled. A read that completes while the
-- handler that armed it has still to set `_b_head_parse` waits, and the session follows the stream
-- machine.
pub started-Follows :
    (host : Host) (uuid : ℕ) (events : List Event) (reader : Reader) (logic : LogicSystem)
    (incoming : Bytes)
    → Shows 4 reader (head [])
    → (goal host uuid (head []) logic incoming incoming).0 ≢ broken
    → (s : Stranded) × (run_strand host uuid events (start_on_strand reader logic incoming)
        ≡ done s)
      × Follows host uuid (head []) logic incoming s
unfolding start_on_strand
started-Follows host uuid events reader logic incoming shown sane =
    run_strand-Follows host uuid (head []) logic incoming sane events
      (start_on_strand reader logic incoming)
      (is_armed (head []) [] refl refl refl shown refl (unfold feeds in refl))

posted_from :
    (host : Host) (uuid : ℕ) (logic : LogicSystem) (stream : Bytes) (s : Stranded) (f : Frame)
    (taken : Bytes)
    → s.incoming ≡ []
    → taken ++ s.incoming ≡ stream
    → goal host uuid (head []) logic stream taken ≡ (f, s.logic)
    → s.logic ≡ (goal host uuid (head []) logic stream stream).1
posted_from host uuid logic stream s f taken none_left same g =
    sym (ap (λ (g : Frame × LogicSystem). g.1) g)
    ∙ ap (λ (bs : Bytes). (goal host uuid (head []) logic stream bs).1)
        (sym (append-nil taken) ∙ ap (λ (bs : Bytes). taken ++ bs) (sym none_left) ∙ same)

-- What a session has posted that follows the stream machine and has nothing left to handle.
pub posted_all :
    (host : Host) (uuid : ℕ) (logic : LogicSystem) (stream : Bytes) (s : Stranded)
    → s.incoming ≡ []
    → s.strand ≡ []
    → s.running ≡ nobody
    → Follows host uuid (head []) logic stream s
    → s.logic ≡ (goal host uuid (head []) logic stream stream).1
posted_all host uuid logic stream s none_left empty at (is_armed f taken a q l sh same g) =
    posted_from host uuid logic stream s f taken none_left same g
posted_all host uuid logic stream s none_left empty at (is_over f taken a q l same g) =
    posted_from host uuid logic stream s f taken none_left same g
posted_all host uuid logic stream s none_left empty at
      (is_queued f taken chunk a q l sh same some g) =
    cc (q, ap reads_in empty)
posted_all host uuid logic stream s none_left empty at (is_failing f taken a q l same g) =
    cc (q, ap reads_in empty)
posted_all host uuid logic stream s none_left empty at
      (is_handled f taken rest buffer c n a q at' sh w some same g) =
    cc (at, at')
