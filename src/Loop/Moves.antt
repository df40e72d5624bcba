-- ===== src/Loop/Moves.antt =====
-- What the events of a session do to its strand and its running handler.
use asio_network.Sender
use asio_network.Session.Hello.{with_session, hello_world_callback}
use asio_network.Service.{sent_more}
use asio_network.Logic.{LogicNode, register_callbacks, deal_front}
use asio_network.Fleet.{take_front}
use asio_network.Base.{
  ◌<◌, ℕ, ◌+◌, ◌≡◌, ◌⊎◌, refl, sym, ap, ◌∙◌, inl, inr, Bool, true, false, Bool-cases, List, [], ◌∷◌,
  arith, ltb, ◌==◌, ==_refl, if◌then◌else◌, length, length-append, take, drop,
}
use asio_network.Wire.Memory.{Bytes}
use asio_network.Wire.Host.{Host}
use asio_network.Wire.Exec.{Exec, done, undefined, throws, ◌>>=◌, value_or}
use asio_network.Framing.Reader.{reading, cleared, idle, out_of_fuel, Turn, ends, again, turn}
use asio_network.Logic.{register_callbacks, deal_front, LogicNode, LogicSystem}
use asio_network.Session.{csession_protocol}
use asio_network.Session.Format.{max_length}
use asio_network.Session.Hello.{hello_world_callback, JsonText}
use asio_network.Strand.{
  Event, gives, breaks, write_ends, goes_on, Handler, read_done, write_done, Running, nobody,
  in_loop, leaving, failing, writing, Stranded, give, dispatch_front, after_turn, strand_step,
  on_strand,
}
use asio_network.Fleet.{take_front, Fleet, replaced, on_fleet}
use asio_network.Service.{
  Service, on_session, receiving_half, handler_writes, end_first_write, worker_takes,
  writes_waiting,
}
use asio_network.Loop.{Completion, reads, fails, writes, as_event}

pub done_inj : {A : Type 0} {x y : A} → done x ≡ done y → x ≡ y
done_inj {x = x} e = ap (value_or x) e

pub bind_inv :
    {A B : Type 0} (run : Exec A) (f : A → Exec B) {b : B}
    → (run >>= f) ≡ done b
    → (a : A) × (run ≡ done a) × (f a ≡ done b)
bind_inv undefined f e = cc (e)
bind_inv throws f e = cc (e)
bind_inv (done a) f e = (a, refl, e)

-- A completion queues a handler or nothing, and starts none.
pub record Queues (s s' : Stranded) : Type 0 where
  pub same_running : s'.running ≡ s.running
  pub grows : (length s'.strand ≡ length s.strand) ⊎ (length s'.strand ≡ length s.strand + 1)

module _ (host : Host) (k : ℕ) where
  given-Queues :
      (armed : Bool) (chunk rest : Bytes) (s : Stranded)
      → Queues s (if armed then give chunk rest s else s)
  unfolding give
  given-Queues false chunk rest s = record { same_running = refl; grows = inl refl }
  given-Queues true [] rest s = record { same_running = refl; grows = inl refl }
  given-Queues true (b ∷ chunk) rest s = record {
    same_running = refl;
    grows = inr (length-append s.strand _);
  }

  pub on_strand-Queues :
      (c : Completion) (s s' : Stranded) → on_strand host k (as_event c) s ≡ done s' → Queues s s'
  unfolding on_strand
  on_strand-Queues (reads n) s s' e =
      let m : ℕ = if ltb max_length n then max_length else n in
      rw (sym (done_inj e)) (given-Queues s.read_armed (take m s.incoming) (drop m s.incoming) s)
  on_strand-Queues fails s s' e = rw (sym (done_inj e)) (elim (Bool-cases s.read_armed) [
    | inl armed ↦ rw armed (record { same_running = refl; grows = inr (length-append s.strand _) })
    | inr not_armed ↦ rw not_armed (record { same_running = refl; grows = inl refl })
  ])
  on_strand-Queues writes s s' e =
      rw (sym (done_inj e)) (record { same_running = refl; grows = inr (length-append s.strand _) })

  -- The handler that runs takes nothing from the queue.
  turned_strand :
      (buffer : Bytes) (s s' : Stranded) (t : Exec (Turn LogicSystem))
      → (t >>= λ t. after_turn buffer s t) ≡ done s'
      → s'.strand ≡ s.strand
  unfolding after_turn
  turned_strand buffer s s' undefined e = cc (e)
  turned_strand buffer s s' throws e = cc (e)
  turned_strand buffer s s' (done (ends (reading r logic))) e = rw (sym (done_inj e)) refl
  turned_strand buffer s s' (done (ends (cleared r logic))) e = rw (sym (done_inj e)) refl
  turned_strand buffer s s' (done (ends (idle r logic))) e = rw (sym (done_inj e)) refl
  turned_strand buffer s s' (done (ends out_of_fuel)) e = cc (e)
  turned_strand buffer s s' (done (again c n r logic)) e = rw (sym (done_inj e)) refl

  pub stepped_strand :
      (run : Running) (s s' : Stranded) → strand_step host k run s ≡ done s' → s'.strand ≡ s.strand
  unfolding strand_step
  stepped_strand nobody s s' e = rw (sym (done_inj e)) refl
  stepped_strand writing s s' e = rw (sym (done_inj e)) refl
  stepped_strand failing s s' e = rw (sym (done_inj e)) refl
  stepped_strand (leaving flag) s s' e = rw (sym (done_inj e)) refl
  stepped_strand (in_loop buffer c n) s s' e = elim (Bool-cases (n == 0)) [
    | inl over ↦ rw (sym (done_inj (rw (over, strand_step) at e))) refl
    | inr more ↦
        turned_strand buffer s s' (turn (csession_protocol host k) buffer s.reader c n s.logic)
          (rw (more, strand_step) at e)
  ]

  pub dispatched_strand :
      (run : Running) (q : List Handler) (s : Stranded)
      → run ≡ nobody
      → s.strand ≡ q
      → 0 < length q
      → length (dispatch_front run q s).strand + 1 ≡ length q
  unfolding dispatch_front
  dispatched_strand nobody [] s at same some_left = absurd (omega (arith, some_left))
  dispatched_strand nobody (read_done false chunk ∷ q) s at same some_left = omega arith
  dispatched_strand nobody (read_done true chunk ∷ q) s at same some_left = omega arith
  dispatched_strand nobody (write_done ∷ q) s at same some_left = omega arith
  dispatched_strand (in_loop buffer c n) q s at same some_left = cc (at)
  dispatched_strand (leaving flag) q s at same some_left = cc (at)
  dispatched_strand failing q s at same some_left = cc (at)
  dispatched_strand writing q s at same some_left = cc (at)

  -- What an event of session k does to the sessions, as they are on their strands.
  pub record Moves (e : Event) (f f' : Fleet) : Type 0 where
    pub others : (j : ℕ) → (j == k) ≡ false → f'.sessions j ≡ f.sessions j
    pub logic : LogicSystem
    pub own : on_strand host k e (record (f.sessions k) { logic = logic }) ≡ done (f'.sessions k)

  pub receiving_half-Moves :
      (e : Event) (w w' : Service) → receiving_half host k e w ≡ done w' → Moves e w.fleet w'.fleet
  unfolding receiving_half on_fleet replaced
  receiving_half-Moves e w w' r =
      let moved : Stranded → Fleet =
        λ s. record (w.fleet) { sessions = replaced w.fleet.sessions k s; logic = s.logic } in
      let run : Exec Stranded =
        on_strand host k e (record (w.fleet.sessions k) { logic = w.fleet.logic }) in
      let (f, ran, after) =
        bind_inv (run >>= λ s. done (moved s)) (λ f. done (record w { fleet = f })) r in
      let (s, ran_s, after_s) = bind_inv run (λ s. done (moved s)) ran in
      let same : w'.fleet ≡ moved s =
        sym (done_inj after_s ∙ ap (λ (x : Service). x.fleet) (done_inj after)) in
      rw same (record {
        others = λ j there. rw there refl;
        logic = w.fleet.logic;
        own = rw (==_refl k) ran_s;
      })

  end_first_write-fleet :
      (flight : List Bytes) (w w' : Service)
      → end_first_write k flight w ≡ done w'
      → w.fleet ≡ w'.fleet
  unfolding end_first_write
  end_first_write-fleet [] w w' r = cc (r)
  end_first_write-fleet (bytes ∷ flight) w w' r =
      let c = w.sessions k in
      let (s, ran, after) =
        bind_inv (Sender.handle_write false (record (c.sender) { in_flight = flight }))
          (λ s. done (record w {
            sessions = with_session w.sessions k (record c { sender = s });
            sent = sent_more w.sent k bytes;
          }))
          r in
      ap (λ (x : Service). x.fleet) (done_inj after)

  handler_writes-fleet :
      (run : Running) (w w' : Service) → handler_writes run k w ≡ done w' → w.fleet ≡ w'.fleet
  unfolding handler_writes
  handler_writes-fleet writing w w' r =
      end_first_write-fleet ((w.sessions k).sender).in_flight w w' r
  handler_writes-fleet nobody w w' r = ap (λ (x : Service). x.fleet) (done_inj r)
  handler_writes-fleet (in_loop buffer c n) w w' r = ap (λ (x : Service). x.fleet) (done_inj r)
  handler_writes-fleet (leaving flag) w w' r = ap (λ (x : Service). x.fleet) (done_inj r)
  handler_writes-fleet failing w w' r = ap (λ (x : Service). x.fleet) (done_inj r)

  pub goes_on-Moves :
      (w w' : Service) → on_session host k goes_on w ≡ done w' → Moves goes_on w.fleet w'.fleet
  unfolding on_session
  goes_on-Moves w w' r =
      let (w1, ran, after) =
        bind_inv (handler_writes (w.fleet.sessions k).running k w) (receiving_half host k goes_on)
          r in
      rw (handler_writes-fleet (w.fleet.sessions k).running w w1 ran)
        (receiving_half-Moves goes_on w1 w' after)

  pub completion-Moves :
      (c : Completion) (w w' : Service)
      → on_session host k (as_event c) w ≡ done w'
      → (w.fleet ≡ w'.fleet) ⊎ Moves (as_event c) w.fleet w'.fleet
  unfolding on_session
  completion-Moves (reads n) w w' r = inr (receiving_half-Moves (gives n) w w' r)
  completion-Moves fails w w' r = inr (receiving_half-Moves breaks w w' r)
  completion-Moves writes w w' r =
      let waiting : ℕ = writes_waiting (w.fleet.sessions k) in
      let under_way : ℕ = length (((w.sessions k).sender).in_flight) in
      elim (Bool-cases (ltb waiting under_way)) [
        | inl free ↦ inr (receiving_half-Moves write_ends w w' (rw free at r))
        | inr none_left ↦ inl (ap (λ (x : Service). x.fleet) (done_inj (rw none_left at r)))
      ]

pub worker_takes-sessions :
    (host : Host) (json : JsonText) (que : List LogicNode) (w w' : Service)
    → worker_takes host json que w ≡ done w'
    → w.fleet.sessions ≡ w'.fleet.sessions
unfolding worker_takes take_front
worker_takes-sessions host json [] w w' r = ap (λ (x : Service). (x.fleet).sessions) (done_inj r)
worker_takes-sessions host json (node ∷ que) w w' r =
    let (sessions, ran, after) =
      bind_inv (deal_front (register_callbacks (hello_world_callback host json)) node w.sessions)
        (λ sessions.
          done (record w { fleet = take_front (node ∷ que) w.fleet; sessions = sessions }))
        r in
    ap (λ (x : Service). (x.fleet).sessions) (done_inj after)
