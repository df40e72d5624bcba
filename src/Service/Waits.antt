-- ===== src/Service/Waits.antt =====
-- How many completions of writes wait in a session's strand, from event to event.
use asio_network.Base.{
  ℕ, ◌+◌, ◌≡◌, refl, sym, ap, ◌∙◌, inl, inr, Bool, true, false, Bool-cases, List, [], ◌∷◌, ◌++◌,
  arith, ltb, ◌==◌, if◌then◌else◌, take, drop,
}
use asio_network.Wire.Memory.{Bytes}
use asio_network.Wire.Host.{Host}
use asio_network.Wire.Exec.{Exec, done, undefined, throws, ◌>>=◌, value_or}
use asio_network.Framing.Reader.{reading, cleared, idle, out_of_fuel, Turn, ends, again, turn}
use asio_network.Logic.{LogicSystem}
use asio_network.Session.{csession_protocol}
use asio_network.Session.Format.{max_length}
use asio_network.Strand.{
  Event, gives, breaks, write_ends, dispatches, goes_on, Handler, read_done, write_done, Running,
  nobody, in_loop, leaving, failing, writing, Stranded, give, dispatch_front, after_turn,
  strand_step, on_strand,
}
use asio_network.Service.{writes_in, writes_now, writes_waiting}

writes_in-read :
    (q : List Handler) (error : Bool) (chunk : Bytes)
    → writes_in (q ++ (read_done error chunk ∷ [])) ≡ writes_in q
writes_in-read [] error chunk = refl
writes_in-read (read_done e c ∷ q) error chunk = writes_in-read q error chunk
writes_in-read (write_done ∷ q) error chunk = ap (λ (n : ℕ). n + 1) (writes_in-read q error chunk)

writes_in-write : (q : List Handler) → writes_in (q ++ (write_done ∷ [])) ≡ writes_in q + 1
writes_in-write [] = refl
writes_in-write (read_done e c ∷ q) = writes_in-write q
writes_in-write (write_done ∷ q) = ap (λ (n : ℕ). n + 1) (writes_in-write q)

given_waits :
    (armed : Bool) (chunk rest : Bytes) (s : Stranded)
    → writes_waiting (if armed then give chunk rest s else s) ≡ writes_waiting s
unfolding give
given_waits false chunk rest s = refl
given_waits true [] rest s = refl
given_waits true (b ∷ chunk) rest s =
    ap (λ (n : ℕ). n + writes_now s.running) (writes_in-read s.strand false (b ∷ chunk))

failed_waits :
    (armed : Bool) (s : Stranded)
    → writes_waiting (
        if armed
        then record s { read_armed = false; strand = s.strand ++ (read_done true [] ∷ []) }
        else s)
      ≡ writes_waiting s
failed_waits false s = refl
failed_waits true s = ap (λ (n : ℕ). n + writes_now s.running) (writes_in-read s.strand true [])

dispatched_waits :
    (run : Running) (q : List Handler) (s : Stranded)
    → writes_waiting (dispatch_front run q (record s { running = run; strand = q }))
      ≡ writes_in q + writes_now run
unfolding dispatch_front
dispatched_waits nobody [] s = refl
dispatched_waits nobody (read_done false chunk ∷ q) s = refl
dispatched_waits nobody (read_done true chunk ∷ q) s = refl
dispatched_waits nobody (write_done ∷ q) s = omega arith
dispatched_waits (in_loop buffer c n) q s = refl
dispatched_waits (leaving flag) q s = refl
dispatched_waits failing q s = refl
dispatched_waits writing q s = refl

-- A round of the loop does not touch the strand and runs no write.
turned_waits :
    (buffer : Bytes) (s s' : Stranded) (t : Exec (Turn LogicSystem))
    → (t >>= λ t. after_turn buffer s t) ≡ done s'
    → writes_waiting s' ≡ writes_in s.strand
unfolding after_turn
turned_waits buffer s s' undefined e = cc (e)
turned_waits buffer s s' throws e = cc (e)
turned_waits buffer s s' (done (ends (reading r logic))) e =
    ap (λ (x : Exec Stranded). writes_waiting (value_or s' x)) (sym e) ∙ omega arith
turned_waits buffer s s' (done (ends (cleared r logic))) e =
    ap (λ (x : Exec Stranded). writes_waiting (value_or s' x)) (sym e) ∙ omega arith
turned_waits buffer s s' (done (ends (idle r logic))) e =
    ap (λ (x : Exec Stranded). writes_waiting (value_or s' x)) (sym e) ∙ omega arith
turned_waits buffer s s' (done (ends out_of_fuel)) e = cc (e)
turned_waits buffer s s' (done (again c n r logic)) e =
    ap (λ (x : Exec Stranded). writes_waiting (value_or s' x)) (sym e) ∙ omega arith

waits_of : {s s' : Stranded} → done s ≡ done s' → writes_waiting s' ≡ writes_waiting s
waits_of {s} {s'} e = ap (λ (x : Exec Stranded). writes_waiting (value_or s' x)) (sym e)

-- The completion that an event adds, and the one whose handler it ends.
abbrev pub new : Event → ℕ
new write_ends = 1
new (gives n) = 0
new breaks = 0
new dispatches = 0
new goes_on = 0

abbrev pub own : Event → Running → ℕ
own goes_on run = writes_now run
own (gives n) run = 0
own breaks run = 0
own write_ends run = 0
own dispatches run = 0

module _ (host : Host) (uuid : ℕ) where
  stepped_waits :
      (run : Running) (s s' : Stranded)
      → strand_step host uuid run s ≡ done s'
      → s.running ≡ run
      → writes_waiting s' + writes_now run ≡ writes_waiting s
  unfolding strand_step
  stepped_waits nobody s s' e at =
      let same : writes_waiting s' ≡ writes_waiting s = waits_of e in omega (arith, same)
  stepped_waits writing s s' e at =
      let same : writes_waiting s' ≡ writes_in s.strand + 0 = waits_of e in
      omega (arith, same, ap writes_now at)
  stepped_waits failing s s' e at =
      let same : writes_waiting s' ≡ writes_in s.strand + 0 = waits_of e in
      omega (arith, same, ap writes_now at)
  stepped_waits (leaving flag) s s' e at =
      let same : writes_waiting s' ≡ writes_in s.strand + 0 = waits_of e in
      omega (arith, same, ap writes_now at)
  stepped_waits (in_loop buffer c n) s s' e at = elim (Bool-cases (n == 0)) [
    | inl over ↦
        let same : writes_waiting s' ≡ writes_in s.strand + 0 =
          waits_of (rw (over, strand_step) at e) in
        omega (arith, same, ap writes_now at)
    | inr more ↦
        let same : writes_waiting s' ≡ writes_in s.strand =
          turned_waits buffer s s' (turn (csession_protocol host uuid) buffer s.reader c n s.logic)
            (rw (more, strand_step) at e) in
        omega (arith, same, ap writes_now at)
  ]

  -- Every event; the running write's own is counted until it has taken its step.
  pub on_strand_waits :
      (e : Event) (s s' : Stranded)
      → on_strand host uuid e s ≡ done s'
      → writes_waiting s' + own e s.running ≡ writes_waiting s + new e
  unfolding on_strand
  on_strand_waits (gives n) s s' e =
      let k : ℕ = if ltb max_length n then max_length else n in
      let same : writes_waiting s'
          ≡ writes_waiting
              (if s.read_armed then give (take k s.incoming) (drop k s.incoming) s else s) =
        waits_of e in
      omega (arith, same, given_waits s.read_armed (take k s.incoming) (drop k s.incoming) s)
  on_strand_waits breaks s s' e =
      let same : writes_waiting s'
          ≡ writes_waiting (
              if s.read_armed
              then record s { read_armed = false; strand = s.strand ++ (read_done true [] ∷ []) }
              else s) =
        waits_of e in
      omega (arith, same, failed_waits s.read_armed s)
  on_strand_waits write_ends s s' e =
      let same : writes_waiting s'
          ≡ writes_in (s.strand ++ (write_done ∷ [])) + writes_now s.running =
        waits_of e in
      omega (arith, same, writes_in-write s.strand)
  on_strand_waits dispatches s s' e =
      let same : writes_waiting s' ≡ writes_waiting (dispatch_front s.running s.strand s) =
        waits_of e in
      omega (arith, same, dispatched_waits s.running s.strand s)
  on_strand_waits goes_on s s' e = omega (arith, stepped_waits s.running s s' e refl)
