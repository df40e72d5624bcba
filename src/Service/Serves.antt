-- ===== src/Service/Serves.antt =====
-- The invariant of the whole server, kept by every event of the sessions and of the worker.
use asio_network.Base.{
  ℕ, ◌+◌, ◌<◌, ◌≤◌, ◌≡◌, ◌≢◌, refl, sym, ap, ◌∙◌, inl, inr, false, Bool-cases, List, [], arith, ltb,
  ltb→lt, ◌==◌, ==_iff, length, All,
}
use asio_network.Wire.Memory.{Bytes}
use asio_network.Wire.Host.{Host}
use asio_network.Wire.Exec.{Exec, done, ◌>>=◌}
use asio_network.Framing.Stream.{head, broken}
use asio_network.Session.Receive.{logic_nodes, with_posted}
use asio_network.Session.Hello.{JsonText, Sessions, with_session}
use asio_network.Strand.{
  Event, gives, breaks, write_ends, dispatches, goes_on, Running, nobody, in_loop, leaving, failing,
  writing,
}
use asio_network.Strand.Follows.{goal}
use asio_network.Fleet.{replaced, on_fleet, no_logic}
use asio_network.Fleet.Isolated.{Isolated, session-Isolated, ==_sym}
use asio_network.Fleet.Answers.{Question, requests, IsQuestion}
use asio_network.Service.{
  Service, writes_now, writes_waiting, sent_more, handler_writes, receiving_half, on_session,
}
use asio_network.Service.Answered.{Answers, write_next}
use asio_network.Service.Writing.{one_parts}
use asio_network.Service.Waits.{new, own, on_strand_waits}

module _ (host : Host) (json : JsonText) (qs : ℕ → List Question) (streams : ℕ → Bytes) where
  -- The sessions do not notice one another, the worker has answered the questions that it has taken,
  -- and a completion of a write waits only where a write is under way.
  pub record Serves (w : Service) : Type 0 where
    pub isolated : Isolated host streams w.fleet
    pub answers : (j : ℕ) → Answers host json qs j w.fleet.dealt (w.sessions j) (w.sent j)
    pub writes :
        (j : ℕ) → writes_waiting (w.fleet.sessions j) ≤ length (((w.sessions j).sender).in_flight)

  module _ (asked : (k : ℕ) → All (IsQuestion json) (qs k))
      (arrives : (k : ℕ)
        → goal host k (head []) no_logic (streams k) (streams k)
          ≡ (head [], with_posted no_logic (logic_nodes k (requests (qs k))))) where
    sane : (k : ℕ) → (goal host k (head []) no_logic (streams k) (streams k)).0 ≢ broken
    sane k q = cc (q, arrives k)

    receives :
        (k : ℕ) (e : Event) (w : Service)
        → Isolated host streams w.fleet
        → ((j : ℕ) → Answers host json qs j w.fleet.dealt (w.sessions j) (w.sent j))
        → (writes_waiting (w.fleet.sessions k) + new e
            ≤ length (((w.sessions k).sender).in_flight) + own e (w.fleet.sessions k).running)
        → ((j : ℕ)
            → (j == k) ≡ false
            → writes_waiting (w.fleet.sessions j) ≤ length (((w.sessions j).sender).in_flight))
        → (w' : Service) × (receiving_half host k e w ≡ done w') × Serves w'
    unfolding receiving_half on_fleet replaced
    receives k e w isolated answers room others =
        let (s, ran, isolated') = session-Isolated host streams sane k e w.fleet isolated in
        (
          record w {
            fleet = record (w.fleet) { sessions = replaced w.fleet.sessions k s; logic = s.logic };
          },
          rw ran refl,
          record {
            isolated = isolated';
            answers = answers;
            writes = λ j. elim (Bool-cases (j == k)) [
              | inl here ↦
                  rw (here, (==_iff j k).0 here)
                    (omega (
                      arith,
                      room,
                      on_strand_waits host k e
                          (record (w.fleet.sessions k) { logic = w.fleet.logic }) s ran,
                    ))
              | inr there ↦ rw there (others j there)
            ];
          },
        )

    -- After the running handler's write, if it is one, has ended.
    abbrev Writes : Running → ℕ → Service → Type 0
    Writes run k w =
        (sessions : Sessions) × (sent : ℕ → Bytes) × (handler_writes run k w
          ≡ done (record w { sessions = sessions; sent = sent }))
        × ((j : ℕ) → Answers host json qs j w.fleet.dealt (sessions j) (sent j))
        × (writes_waiting (w.fleet.sessions k)
            ≤ length (((sessions k).sender).in_flight) + writes_now run)
        × ((j : ℕ)
            → (j == k) ≡ false
            → writes_waiting (w.fleet.sessions j) ≤ length (((sessions j).sender).in_flight))

    no_write :
        (run : Running) (k : ℕ) (w : Service)
        → handler_writes run k w ≡ done w
        → Serves w
        → Writes run k w
    no_write run k w e v =
        (w.sessions, w.sent, e, v.answers, omega (arith, v.writes k), λ j there. v.writes j)

    running-Writes :
        (run : Running) (k : ℕ) (w : Service)
        → (w.fleet.sessions k).running ≡ run
        → Serves w
        → Writes run k w
    unfolding handler_writes
    running-Writes writing k w at v =
        let busy : 0 < length (((w.sessions k).sender).in_flight) =
          omega (arith, v.writes k, ap writes_now at) in
        let (c, bytes, e, a) = write_next host json qs k w.fleet.dealt w busy (v.answers k) in
        let s = (w.sessions k).sender in
        let few : length s.in_flight ≤ 1 =
          one_parts _ (w.sent k) s.send_queue s.in_flight s.cleared (v.answers k).ordered in
        (
          with_session w.sessions k c,
          sent_more w.sent k bytes,
          e,
          λ j. elim (Bool-cases (k == j)) [
            | inl here ↦ rw (here, sym ((==_iff k j).0 here)) a
            | inr there ↦ rw there (v.answers j)
          ],
          omega (arith, few, v.writes k),
          λ j there. rw (==_sym j k there) (v.writes j),
        )
    running-Writes nobody k w at v = no_write nobody k w refl v
    running-Writes (in_loop buffer c n) k w at v = no_write (in_loop buffer c n) k w refl v
    running-Writes (leaving flag) k w at v = no_write (leaving flag) k w refl v
    running-Writes failing k w at v = no_write failing k w refl v

    pub on_session-Serves :
        (k : ℕ) (e : Event) (w : Service)
        → Serves w
        → (w' : Service) × (on_session host k e w ≡ done w') × Serves w'
    unfolding on_session
    on_session-Serves k (gives n) w v =
        receives k (gives n) w v.isolated v.answers (omega (arith, v.writes k))
          (λ j there. v.writes j)
    on_session-Serves k breaks w v =
        receives k breaks w v.isolated v.answers (omega (arith, v.writes k)) (λ j there. v.writes j)
    on_session-Serves k dispatches w v =
        receives k dispatches w v.isolated v.answers (omega (arith, v.writes k))
          (λ j there. v.writes j)
    on_session-Serves k write_ends w v =
        let waiting : ℕ = writes_waiting (w.fleet.sessions k) in
        let writes : ℕ = length (((w.sessions k).sender).in_flight) in
        elim (Bool-cases (ltb waiting writes)) [
          | inl free ↦ rw free (
              receives k write_ends w v.isolated v.answers
                (omega (arith, ltb→lt waiting writes free)) (λ j there. v.writes j))
          | inr none_left ↦ rw none_left (w, refl, v)
        ]
    on_session-Serves k goes_on w v =
        let (sessions, sent, e, answers, room, others) =
          running-Writes (w.fleet.sessions k).running k w refl v in
        let w1 : Service = record w { sessions = sessions; sent = sent } in
        let (w2, e2, v2) = receives k goes_on w1 v.isolated answers (omega (arith, room)) others in
        (w2, ap (λ (r : Exec Service). r >>= λ w'. receiving_half host k goes_on w') e ∙ e2, v2)
