-- ===== src/Fleet/Isolated.antt =====
-- No session notices the others, and the worker gets what each of them posts in its order.
use asio_network.Base.{
  arith, ℕ, ◌≡◌, ◌≢◌, inl, inr, refl, sym, ap, ◌∙◌, true, false, Bool-cases, List, [], ◌∷◌, ◌++◌,
  append-nil, append_assoc, ◌==◌, ==_iff, ==_refl, if◌then◌else◌, All,
}
use asio_network.Wire.Memory.{Bytes}
use asio_network.Wire.Host.{Host}
use asio_network.Wire.Exec.{done}
use asio_network.Framing.Stream.{head, broken}
use asio_network.Logic.{LogicNode, LogicSystem}
use asio_network.Session.Receive.{with_posted}
use asio_network.Strand.{Stranded}
use asio_network.Strand.Follows.{goal, Follows}
use asio_network.Strand.Keeps.{event}
use asio_network.Strand.Posts.{IsOf}
use asio_network.Strand.Shared.{on_strand-shared}
use asio_network.Fleet.{
  on_strand, Event, Fleet, FleetEvent, at_session, deals, replaced, take_front, on_fleet, run_fleet,
  no_logic,
}

-- The nodes of a session, in their order.
abbrev pub nodes_of : ℕ → List LogicNode → List LogicNode
nodes_of k [] = []
nodes_of k (node ∷ nodes) =
    let rest = nodes_of k nodes in if node.session == k then node ∷ rest else rest

-- What a session has posted: the worker has taken it, or it is still in the queue.
abbrev pub posted_by : ℕ → Fleet → List LogicNode
posted_by k w = nodes_of k (w.dealt ++ w.logic.msg_que)

-- The session with a logic system of its own.
abbrev pub alone : ℕ → Fleet → Stranded
alone k w = record (w.sessions k) { logic = record no_logic { msg_que = posted_by k w } }

pub nodes_of-append :
    (k : ℕ) (xs ys : List LogicNode) → nodes_of k (xs ++ ys) ≡ nodes_of k xs ++ nodes_of k ys
nodes_of-append k [] ys = refl
nodes_of-append k (x ∷ xs) ys = elim (Bool-cases (x.session == k)) [
  | inl mine ↦ rw mine (ap (◌∷◌ x) (nodes_of-append k xs ys))
  | inr other ↦ rw other (nodes_of-append k xs ys)
]

nodes_of-own : (k : ℕ) (xs : List LogicNode) → All (IsOf k) xs → nodes_of k xs ≡ xs
nodes_of-own k [] own = refl
nodes_of-own k (x ∷ xs) own =
    let mine : (x.session == k) ≡ true = ap (λ (i : ℕ). i == k) own.0 ∙ ==_refl k in
    rw mine (ap (◌∷◌ x) (nodes_of-own k xs own.1))

nodes_of-other :
    (j k : ℕ) (xs : List LogicNode) → (k == j) ≡ false → All (IsOf k) xs → nodes_of j xs ≡ []
nodes_of-other j k [] different own = refl
nodes_of-other j k (x ∷ xs) different own =
    let other : (x.session == j) ≡ false = ap (λ (i : ℕ). i == j) own.0 ∙ different in
    rw other (nodes_of-other j k xs different own.1)

module _ (dealt que new : List LogicNode) (k : ℕ) (own : All (IsOf k) new) where
  nodes_of-mine : nodes_of k (dealt ++ (que ++ new)) ≡ nodes_of k (dealt ++ que) ++ new
  nodes_of-mine =
      ap (nodes_of k) (sym (append_assoc dealt que new))
      ∙ nodes_of-append k (dealt ++ que) new
      ∙ ap (λ (xs : List LogicNode). nodes_of k (dealt ++ que) ++ xs) (nodes_of-own k new own)

  nodes_of-others :
      (j : ℕ) → (k == j) ≡ false → nodes_of j (dealt ++ (que ++ new)) ≡ nodes_of j (dealt ++ que)
  nodes_of-others j different =
      ap (nodes_of j) (sym (append_assoc dealt que new))
      ∙ nodes_of-append j (dealt ++ que) new
      ∙ ap (λ (xs : List LogicNode). nodes_of j (dealt ++ que) ++ xs)
          (nodes_of-other j k new different own)
      ∙ append-nil (nodes_of j (dealt ++ que))

pub ==_sym : (j k : ℕ) → (j == k) ≡ false → (k == j) ≡ false
==_sym j k e = ground arith

module _ (host : Host) (streams : ℕ → Bytes) where
  -- Each session follows the stream machine on its own peer's bytes, as if there were no other.
  abbrev pub Isolated : Fleet → Type 0
  Isolated w = (k : ℕ) → Follows host k (head []) no_logic (streams k) (alone k w)

  pub deal-Isolated :
      (w : Fleet) (que : List LogicNode)
      → w.logic.msg_que ≡ que
      → Isolated w
      → Isolated (take_front que w)
  unfolding take_front
  deal-Isolated w [] e v = v
  deal-Isolated w (node ∷ que) e v = λ k. rw (append_assoc w.dealt (node ∷ []) que, sym e) (v k)

  with_its_logic :
      (k : ℕ) (s : Stranded) (logic : LogicSystem)
      → s.logic ≡ logic
      → Follows host k (head []) no_logic (streams k) s
      → Follows host k (head []) no_logic (streams k) (record s { logic = logic })
  with_its_logic k s logic e v = rw (sym e) v

  posts-Isolated :
      (k : ℕ) (w : Fleet) (s : Stranded) (new : List LogicNode)
      → All (IsOf k) new
      → s.logic ≡ with_posted (record no_logic { msg_que = posted_by k w }) new
      → Follows host k (head []) no_logic (streams k) s
      → Isolated w
      → Isolated (record w {
        sessions = replaced w.sessions k (record s { logic = with_posted w.logic new });
        logic = with_posted w.logic new;
      })
  unfolding replaced
  posts-Isolated k w s new own posted vs v = λ j. elim (Bool-cases (j == k)) [
    | inl here ↦
        rw (here, (==_iff j k).0 here, nodes_of-mine w.dealt w.logic.msg_que new k own)
          (with_its_logic k s _ posted vs)
    | inr there ↦
        rw (there, nodes_of-others w.dealt w.logic.msg_que new k own j (==_sym j k there)) (v j)
  ]

  module _
      (sane : (k : ℕ) → (goal host k (head []) no_logic (streams k) (streams k)).0 ≢ broken) where
    -- What a session's event does to the fleet.
    pub session-Isolated :
        (k : ℕ) (e : Event) (w : Fleet)
        → Isolated w
        → (s : Stranded) × (on_strand host k e (record (w.sessions k) { logic = w.logic }) ≡ done s)
          × Isolated (record w { sessions = replaced w.sessions k s; logic = s.logic })
    session-Isolated k e w v =
        let (s, ran, vs) =
          event host k (head []) no_logic (streams k) (sane k) e (alone k w) (v k) in
        let (new, own, posted, ran') =
          on_strand-shared host k e (w.sessions k) s (record no_logic { msg_que = posted_by k w })
            w.logic ran in
        (
          record s { logic = with_posted w.logic new },
          ran',
          posts-Isolated k w s new own posted vs v,
        )

    on_fleet-Isolated :
        (e : FleetEvent) (w : Fleet)
        → Isolated w
        → (w' : Fleet) × (on_fleet host e w ≡ done w') × Isolated w'
    unfolding on_fleet
    on_fleet-Isolated deals w v = (_, refl, deal-Isolated w w.logic.msg_que refl v)
    on_fleet-Isolated (at_session k e) w v =
        let (s, ran, v') = session-Isolated k e w v in
        (record w { sessions = replaced w.sessions k s; logic = s.logic }, rw ran refl, v')

    pub run_fleet-Isolated :
        (events : List FleetEvent) (w : Fleet)
        → Isolated w
        → (w' : Fleet) × (run_fleet host events w ≡ done w') × Isolated w'
    unfolding run_fleet
    run_fleet-Isolated [] w v = (w, refl, v)
    run_fleet-Isolated (e ∷ events) w v =
        let (w1, e1, v1) = on_fleet-Isolated e w v in
        let (w2, e2, v2) = run_fleet-Isolated events w1 v1 in (w2, rw e1 e2, v2)
