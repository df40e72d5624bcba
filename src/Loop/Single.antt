-- ===== src/Loop/Single.antt =====
-- At most one handler runs in the one-thread server, and `ready` has a place for each that waits.
use asio_network.Base.{
  ℕ, ◌+◌, ◌≡◌, ◌⊎◌, refl, sym, ap, ◌∙◌, inl, inr, Bool-cases, Option, none, some, List, [], ◌∷◌,
  arith, ◌==◌, ==_iff, ==_refl, length,
}
use asio_network.Wire.Host.{Host}
use asio_network.Wire.Exec.{done}
use asio_network.Session.Hello.{JsonText}
use asio_network.Strand.{dispatches, goes_on, nobody, Stranded, on_strand}
use asio_network.Service.{Service, worker_deals, on_service, on_session}
use asio_network.Loop.{
  Loop, LoopEvent, completes, calls_next, handles, deals, Completion, as_event, ready_after,
  still_current, call_next, handle, queue_completion, on_loop, run_loop,
}
use asio_network.Loop.Moves.{
  Queues, Moves, done_inj, bind_inv, on_strand-Queues, stepped_strand, dispatched_strand,
  receiving_half-Moves, goes_on-Moves, completion-Moves, worker_takes-sessions,
}
use asio_network.Loop.Counts.{count, counted, still, not_at_hand}

-- Every handler that waits has its place, and only the session at hand has one that runs.
pub record IsSingle (w : Loop) : Type 0 where
  pub queued : (j : ℕ) → count j w.ready ≡ length ((w.service.fleet.sessions j).strand)
  pub one : (j : ℕ) → (w.current ≡ some j) ⊎ ((w.service.fleet.sessions j).running ≡ nobody)

module _ (host : Host) where
  completed-IsSingle :
      (k : ℕ) (c : Completion) (w : Loop) (service : Service)
      → Moves host k (as_event c) w.service.fleet service.fleet
      → IsSingle w
      → IsSingle (record w { service = service; ready = ready_after k w.service service w.ready })
  completed-IsSingle k c w service moved v =
      let s : Stranded = record (w.service.fleet.sessions k) { logic = moved.logic } in
      let queues : Queues s (service.fleet.sessions k) =
        on_strand-Queues host k c s (service.fleet.sessions k) moved.own in
      record {
        queued = λ j.
            counted k j w.service service w.ready moved.others
              (record { same_running = queues.same_running; grows = queues.grows }) (v.queued j);
        one = λ j. elim (Bool-cases (j == k)) [
          | inl here ↦ rw ((==_iff j k).0 here, queues.same_running) (v.one k)
          | inr there ↦ rw (moved.others j there) (v.one j)
        ];
      }

  called-IsSingle :
      (k : ℕ) (rest : List ℕ) (w : Loop) (service : Service)
      → w.current ≡ none
      → w.ready ≡ k ∷ rest
      → Moves host k dispatches w.service.fleet service.fleet
      → IsSingle w
      → IsSingle (record w { service = service; ready = rest; current = some k })
  unfolding on_strand
  called-IsSingle k rest w service free front moved v =
      let s : Stranded = record (w.service.fleet.sessions k) { logic = moved.logic } in
      let idle : s.running ≡ nobody = elim (v.one k) [
        | inl busy ↦ cc (busy, free)
        | inr at_rest ↦ at_rest
      ] in
      let first : count k (k ∷ rest) ≡ count k rest + 1 = rw (==_refl k) (omega arith) in
      let waiting : count k (k ∷ rest) ≡ length s.strand = ap (count k) (sym front) ∙ v.queued k in
      let taken : length ((service.fleet.sessions k).strand) + 1 ≡ length s.strand =
        rw (sym (done_inj moved.own)) (
          dispatched_strand host k s.running s.strand s idle refl
            (omega (arith, first, waiting))) in
      record {
        queued = λ j. elim (Bool-cases (j == k)) [
          | inl here ↦ rw ((==_iff j k).0 here) (omega (arith, first, waiting, taken))
          | inr there ↦
              let passed : count j (k ∷ rest) ≡ count j rest = rw there (omega arith) in
              rw (moved.others j there) (sym passed ∙ ap (count j) (sym front) ∙ v.queued j)
        ];
        one = λ j. elim (Bool-cases (j == k)) [
          | inl here ↦ inl (ap some (sym ((==_iff j k).0 here)))
          | inr there ↦
              rw (moved.others j there)
                (elim (v.one j) [ inl busy ↦ cc (busy, free) | inr at_rest ↦ inr at_rest ])
        ];
      }

  handled-IsSingle :
      (k : ℕ) (w : Loop) (service : Service)
      → w.current ≡ some k
      → Moves host k goes_on w.service.fleet service.fleet
      → IsSingle w
      → IsSingle (record w {
        service = service;
        current = still_current (service.fleet.sessions k).running k;
      })
  unfolding on_strand
  handled-IsSingle k w service at moved v =
      let s : Stranded = record (w.service.fleet.sessions k) { logic = moved.logic } in
      let same : (service.fleet.sessions k).strand ≡ s.strand =
        stepped_strand host k s.running s (service.fleet.sessions k) moved.own in
      record {
        queued = λ j. elim (Bool-cases (j == k)) [
          | inl here ↦ rw ((==_iff j k).0 here, same) (v.queued k)
          | inr there ↦ rw (moved.others j there) (v.queued j)
        ];
        one = λ j. elim (Bool-cases (j == k)) [
          | inl here ↦ rw ((==_iff j k).0 here) (still k (service.fleet.sessions k).running)
          | inr there ↦ inr (
              rw (moved.others j there)
                (not_at_hand j k (w.service.fleet.sessions j).running there (rw at at (v.one j))))
        ];
      }

  queue_completion-IsSingle :
      (k : ℕ) (c : Completion) (w w' : Loop)
      → queue_completion host k c w ≡ done w'
      → IsSingle w
      → IsSingle w'
  unfolding queue_completion
  queue_completion-IsSingle k c w w' r v =
      let after : Service → Loop =
        λ s. record w { service = s; ready = ready_after k w.service s w.ready } in
      let (service, ran, e) =
        bind_inv (on_session host k (as_event c) w.service) (λ s. done (after s)) r in
      rw (sym (done_inj e)) (elim (completion-Moves host k c w.service service ran) [
        | inl same ↦ record {
          queued = λ j.
              rw (sym same, ==_refl (length ((w.service.fleet.sessions k).strand))) (v.queued j);
          one = λ j. rw (sym same) (v.one j);
        }
        | inr moved ↦ completed-IsSingle k c w service moved v
      ])

  call_next-IsSingle :
      (current : Option ℕ) (ready : List ℕ) (w w' : Loop)
      → w.current ≡ current
      → w.ready ≡ ready
      → call_next host current ready w ≡ done w'
      → IsSingle w
      → IsSingle w'
  unfolding call_next on_session
  call_next-IsSingle none (k ∷ rest) w w' free front r v =
      let (service, ran, e) =
        bind_inv (on_session host k dispatches w.service)
          (λ s. done (record w { service = s; ready = rest; current = some k })) r in
      rw (sym (done_inj e)) (
        called-IsSingle k rest w service free front
          (receiving_half-Moves host k dispatches w.service service ran) v)
  call_next-IsSingle none [] w w' free front r v = rw (sym (done_inj r)) v
  call_next-IsSingle (some k) ready w w' busy front r v = rw (sym (done_inj r)) v

  handle-IsSingle :
      (current : Option ℕ) (w w' : Loop)
      → w.current ≡ current
      → handle host current w ≡ done w'
      → IsSingle w
      → IsSingle w'
  unfolding handle
  handle-IsSingle none w w' free r v = rw (sym (done_inj r)) v
  handle-IsSingle (some k) w w' at r v =
      let (service, ran, e) =
        bind_inv (on_session host k goes_on w.service)
          (λ s.
            done (record w { service = s; current = still_current (s.fleet.sessions k).running k }))
          r in
      rw (sym (done_inj e))
        (handled-IsSingle k w service at (goes_on-Moves host k w.service service ran) v)

module _ (host : Host) (json : JsonText) where
  on_loop-IsSingle :
      (e : LoopEvent) (w w' : Loop) → on_loop host json e w ≡ done w' → IsSingle w → IsSingle w'
  unfolding on_loop on_service
  on_loop-IsSingle (completes k c) w w' r v = queue_completion-IsSingle host k c w w' r v
  on_loop-IsSingle calls_next w w' r v =
      call_next-IsSingle host w.current w.ready w w' refl refl r v
  on_loop-IsSingle handles w w' r v = handle-IsSingle host w.current w w' refl r v
  on_loop-IsSingle deals w w' r v =
      let (service, ran, e) =
        bind_inv (on_service host json worker_deals w.service)
          (λ s. done (record w { service = s })) r in
      let same : w.service.fleet.sessions ≡ service.fleet.sessions =
        worker_takes-sessions host json w.service.fleet.logic.msg_que w.service service ran in
      rw (sym (done_inj e))
        (record { queued = λ j. rw (sym same) (v.queued j); one = λ j. rw (sym same) (v.one j) })

  pub run_loop-IsSingle :
      (events : List LoopEvent) (w w' : Loop)
      → run_loop host json events w ≡ done w'
      → IsSingle w
      → IsSingle w'
  unfolding run_loop
  run_loop-IsSingle [] w w' r v = rw (sym (done_inj r)) v
  run_loop-IsSingle (e ∷ events) w w' r v =
      let (w1, ran, rest) = bind_inv (on_loop host json e w) (run_loop host json events) r in
      run_loop-IsSingle events w1 w' rest (on_loop-IsSingle e w w1 ran v)
