-- ===== src/Loop/Simulates.antt =====
-- A run of the one-thread server is a run of the server with strands.
use mathlib.Core.Path.{fun_ext}
use asio_network.Base.{ℕ, ◌≡◌, refl, sym, ap, ◌++◌, ◌∙◌, Option, none, some, List, [], ◌∷◌}
use asio_network.Wire.Host.{Host}
use asio_network.Wire.Exec.{Exec, done, undefined, throws, ◌>>=◌}
use asio_network.Session.Hello.{JsonText}
use asio_network.Strand.{dispatches, goes_on}
use asio_network.Service.{
  Service, ServiceEvent, session_event, worker_deals, on_service, run_service,
}
use asio_network.Loop.{
  Loop, LoopEvent, completes, calls_next, handles, deals, as_event, call_next, handle,
  queue_completion, on_loop, run_loop,
}

-- What a run of the loop has done to the service.
abbrev pub service_of : Exec Loop → Exec Service
service_of run = run >>= λ w. done w.service

module _ (host : Host) (json : JsonText) where
  -- The service gets there by events of its own.
  abbrev Simulates : Exec Loop → Service → Type 0
  Simulates run service =
      (events : List ServiceEvent) × (service_of run ≡ run_service host json events service)

  lifted :
      (run : Exec Service) (after : Service → Loop)
      → ((s : Service) → (after s).service ≡ s)
      → service_of (run >>= λ s. done (after s)) ≡ (run >>= λ s. done s)
  lifted undefined after same = refl
  lifted throws after same = refl
  lifted (done s) after same = ap (λ (service : Service). done service) (same s)

  call_next-Simulates :
      (current : Option ℕ) (ready : List ℕ) (w : Loop)
      → Simulates (call_next host current ready w) w.service
  unfolding call_next run_service on_service
  call_next-Simulates none (k ∷ rest) w = (session_event k dispatches ∷ [], lifted _ _ (λ s. refl))
  call_next-Simulates none [] w = ([], refl)
  call_next-Simulates (some k) ready w = ([], refl)

  handle-Simulates : (current : Option ℕ) (w : Loop) → Simulates (handle host current w) w.service
  unfolding handle run_service on_service
  handle-Simulates none w = ([], refl)
  handle-Simulates (some k) w = (session_event k goes_on ∷ [], lifted _ _ (λ s. refl))

  on_loop-Simulates : (e : LoopEvent) (w : Loop) → Simulates (on_loop host json e w) w.service
  unfolding on_loop run_service on_service queue_completion
  on_loop-Simulates (completes k c) w = (session_event k (as_event c) ∷ [], lifted _ _ (λ s. refl))
  on_loop-Simulates calls_next w = call_next-Simulates w.current w.ready w
  on_loop-Simulates handles w = handle-Simulates w.current w
  on_loop-Simulates deals w = (worker_deals ∷ [], lifted _ _ (λ s. refl))

  bind_assoc :
      {A B C : Type 0} (run : Exec A) (f : A → Exec B) (g : B → Exec C)
      → (run >>= λ a. f a >>= g) ≡ ((run >>= f) >>= g)
  bind_assoc undefined f g = refl
  bind_assoc throws f g = refl
  bind_assoc (done a) f g = refl

  run_service-append :
      (events more : List ServiceEvent) (s : Service)
      → run_service host json (events ++ more) s
        ≡ (run_service host json events s >>= run_service host json more)
  unfolding run_service
  run_service-append [] more s = refl
  run_service-append (e ∷ events) more s =
      ap (λ (rest : Service → Exec Service). on_service host json e s >>= rest)
        (fun_ext (run_service-append events more))
      ∙ bind_assoc (on_service host json e s) (run_service host json events)
          (run_service host json more)

  then_Simulates :
      (run : Exec Loop) (rest : Loop → Exec Loop) (service : Service)
      → Simulates run service
      → ((w : Loop) → Simulates (rest w) w.service)
      → Simulates (run >>= rest) service
  then_Simulates undefined rest service sim sims = sim
  then_Simulates throws rest service sim sims = sim
  then_Simulates (done w) rest service sim sims = (
    sim.0 ++ (sims w).0,
    (sims w).1
        ∙ ap (λ (r : Exec Service). r >>= λ s. run_service host json (sims w).0 s) sim.1
        ∙ sym (run_service-append sim.0 (sims w).0 service),
  )

  -- Whatever completes on the one thread of main, and whenever it calls a handler, takes a step or the
  -- worker takes a message, the server is where some run of the server with strands gets, undefined
  -- behaviour and exceptions included.
  pub run_loop-Simulates :
      (events : List LoopEvent) (w : Loop) → Simulates (run_loop host json events w) w.service
  unfolding run_loop run_service
  run_loop-Simulates [] w = ([], refl)
  run_loop-Simulates (e ∷ events) w =
      then_Simulates (on_loop host json e w) (run_loop host json events) w.service
        (on_loop-Simulates e w) (run_loop-Simulates events)
