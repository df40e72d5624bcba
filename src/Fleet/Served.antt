-- ===== src/Fleet/Served.antt =====
-- What the worker of the logic system gets from the sessions of a server.
use asio_network.Base.{ℕ, ◌≡◌, ◌≢◌, sym, ap, ◌∙◌, List, [], refl, All}
use asio_network.Wire.Memory.{Bytes}
use asio_network.Wire.Host.{Host}
use asio_network.Wire.Exec.{done, value_or}
use asio_network.Framing.Stream.{Frame, head, broken, feeds}
use asio_network.Framing.Reader.{Reader}
use asio_network.Framing.Reader.Shows.{Shows}
use asio_network.Logic.{LogicSystem}
use asio_network.Session.Receive.{Message, IsMessage, frames, logic_nodes, feeds-frames}
use asio_network.Strand.{nobody, start_on_strand}
use asio_network.Strand.Follows.{goal, is_armed}
use asio_network.Strand.Leaves.{posted_all}
use asio_network.Fleet.{Fleet, FleetEvent, run_fleet, no_logic, start_fleet}
use asio_network.Fleet.Isolated.{Isolated, alone, posted_by, run_fleet-Isolated}

-- However the events of the sessions and of the worker follow one another, from started sessions at
-- their headers on and unless the bytes of some peer break the stream machine, the run is defined and
-- every session follows the stream machine on its own peer's bytes, with what it has posted, taken
-- by the worker or still queued, as if it were alone with the logic system.
pub started_fleet-Isolated :
    (host : Host) (events : List FleetEvent) (readers : ℕ → Reader) (streams : ℕ → Bytes)
    → ((k : ℕ) → Shows 4 (readers k) (head []))
    → ((k : ℕ) → (goal host k (head []) no_logic (streams k) (streams k)).0 ≢ broken)
    → (w : Fleet) × (run_fleet host events (start_fleet readers streams) ≡ done w)
      × Isolated host streams w
unfolding start_fleet start_on_strand
started_fleet-Isolated host events readers streams shown sane =
    run_fleet-Isolated host streams sane events (start_fleet readers streams)
      (λ k. is_armed (head []) [] refl refl refl (shown k) refl (unfold feeds in refl))

-- Where every peer sends valid messages, a session whose bytes have all been read and that has no
-- handler left has posted exactly its peer's messages, in order, whatever the other sessions do.
pub fleet_posts :
    (senders : ℕ → Host) (host : Host) (ms : ℕ → List Message) (events : List FleetEvent)
    (readers : ℕ → Reader) (w : Fleet) (k : ℕ)
    → ((k : ℕ) → All IsMessage (ms k))
    → ((k : ℕ) → Shows 4 (readers k) (head []))
    → run_fleet host events (start_fleet readers (λ k. frames (senders k) (ms k))) ≡ done w
    → (w.sessions k).incoming ≡ []
    → (w.sessions k).strand ≡ []
    → (w.sessions k).running ≡ nobody
    → posted_by k w ≡ logic_nodes k (ms k)
fleet_posts senders host ms events readers w k valid shown ran none_left empty at =
    let (w', e, v) =
      started_fleet-Isolated host events readers (λ k. frames (senders k) (ms k)) shown
        (λ k q. cc (q, feeds-frames (senders k) host k (ms k) no_logic (valid k))) in
    let same : w ≡ w' = ap (value_or w) (sym ran ∙ e) in
    ap (λ (logic : LogicSystem). logic.msg_que)
      (posted_all host k no_logic (frames (senders k) (ms k)) (alone k w) none_left empty at
          (rw same (v k))
        ∙ ap (λ (g : Frame × LogicSystem). g.1)
            (feeds-frames (senders k) host k (ms k) no_logic (valid k)))
