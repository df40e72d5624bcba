-- ===== src/Strand/Shared.antt =====
-- The events of a session on a strand, whatever the logic system holds that it shares with others.
use asio_network.Base.{
  ℕ, ◌≡◌, refl, sym, ap, ◌∙◌, inl, inr, Bool, true, false, Bool-cases, List, [], ◌∷◌, ◌++◌,
  append-nil, ltb, ◌==◌, if◌then◌else◌, take, drop, All,
}
use asio_network.Wire.Memory.{Bytes}
use asio_network.Wire.Host.{Host}
use asio_network.Wire.Exec.{Exec, done, undefined, throws, ◌>>=◌, value_or}
use asio_network.Framing.Reader.{reading, cleared, idle, out_of_fuel, Turn, ends, again, turn}
use asio_network.Logic.{LogicNode, LogicSystem}
use asio_network.Session.{csession_protocol}
use asio_network.Session.Format.{max_length}
use asio_network.Session.Receive.{with_posted}
use asio_network.Strand.{
  Event, gives, breaks, write_ends, dispatches, goes_on, Handler, read_done, write_done, Running,
  nobody, in_loop, leaving, failing, writing, Stranded, give, dispatch_front, after_turn,
  strand_step, on_strand,
}
use asio_network.Strand.Posts.{with_logic, IsOf, Posts, turn-Posts}

-- What is run posts these nodes of the session and leaves this session, whatever is in the queue.
pub record Shares (uuid : ℕ) (run : LogicSystem → Exec Stranded) : Type 0 where
  pub new : List LogicNode
  pub of_session : All (IsOf uuid) new
  pub left : Exec Stranded
  pub law :
      (logic : LogicSystem)
      → run logic ≡ (left >>= λ s. done (record s { logic = with_posted logic new }))

module _ (host : Host) (uuid : ℕ) where
  no_posts :
      (run : LogicSystem → Exec Stranded) (s : Stranded)
      → ((logic : LogicSystem) → run logic ≡ done (record s { logic = logic }))
      → Shares uuid run
  no_posts run s law = record {
    new = [];
    of_session = tt;
    left = done s;
    law = λ logic.
        law logic
        ∙ ap (λ (que : List LogicNode). done (record s { logic = record logic { msg_que = que } }))
            (sym (append-nil logic.msg_que));
  }

  give_lem :
      (chunk rest : Bytes) (s : Stranded) (logic : LogicSystem)
      → give chunk rest (record s { logic = logic }) ≡ record (give chunk rest s) { logic = logic }
  unfolding give
  give_lem [] rest s logic = refl
  give_lem (b ∷ chunk) rest s logic = refl

  dispatch_front_lem :
      (run : Running) (q : List Handler) (s : Stranded) (logic : LogicSystem)
      → dispatch_front run q (record s { logic = logic })
        ≡ record (dispatch_front run q s) { logic = logic }
  unfolding dispatch_front
  dispatch_front_lem nobody [] s logic = refl
  dispatch_front_lem nobody (read_done false chunk ∷ q) s logic = refl
  dispatch_front_lem nobody (read_done true chunk ∷ q) s logic = refl
  dispatch_front_lem nobody (write_done ∷ q) s logic = refl
  dispatch_front_lem (in_loop buffer c n) q s logic = refl
  dispatch_front_lem (leaving flag) q s logic = refl
  dispatch_front_lem failing q s logic = refl
  dispatch_front_lem writing q s logic = refl

  after_turn_lem :
      (buffer : Bytes) (s : Stranded) (shape : Exec (Turn (Unit {0}))) (logic after : LogicSystem)
      → ((shape >>= λ t. done (with_logic t after)) >>= λ t.
          after_turn buffer (record s { logic = logic }) t)
        ≡ ((shape >>= λ t. after_turn buffer s (with_logic t s.logic)) >>= λ s'.
            done (record s' { logic = after }))
  unfolding after_turn
  after_turn_lem buffer s undefined logic after = refl
  after_turn_lem buffer s throws logic after = refl
  after_turn_lem buffer s (done (ends (reading r u))) logic after = refl
  after_turn_lem buffer s (done (ends (cleared r u))) logic after = refl
  after_turn_lem buffer s (done (ends (idle r u))) logic after = refl
  after_turn_lem buffer s (done (ends out_of_fuel)) logic after = refl
  after_turn_lem buffer s (done (again c n r u)) logic after = refl

  strand_step-Shares :
      (run : Running) (s : Stranded)
      → Shares uuid (λ logic. strand_step host uuid run (record s { logic = logic }))
  unfolding strand_step
  strand_step-Shares nobody s = no_posts _ s (λ logic. refl)
  strand_step-Shares (leaving flag) s =
      no_posts _ (record s { reader = record (s.reader) { b_head_parse = flag }; running = nobody })
        (λ logic. refl)
  strand_step-Shares failing s =
      no_posts _ (record s { socket_open = false; is_cleared = true; running = nobody })
        (λ logic. refl)
  strand_step-Shares writing s = no_posts _ (record s { running = nobody }) (λ logic. refl)
  strand_step-Shares (in_loop buffer c n) s = elim (Bool-cases (n == 0)) [
    | inl over ↦ no_posts _ (record s { running = nobody }) (λ logic. rw (over, strand_step) refl)
    | inr more ↦
        let p : Posts uuid (turn (csession_protocol host uuid) buffer s.reader c n) =
          turn-Posts host uuid buffer s.reader c n in
        record {
          new = p.new;
          of_session = p.of_session;
          left = p.shape >>= λ t. after_turn buffer s (with_logic t s.logic);
          law = λ logic.
              rw (more, strand_step, p.law logic)
                (after_turn_lem buffer s p.shape logic (with_posted logic p.new));
        }
  ]

  given_lem :
      (armed : Bool) (k : ℕ) (s : Stranded) (logic : LogicSystem)
      → done (
          if armed
          then give (take k s.incoming) (drop k s.incoming) (record s { logic = logic })
          else record s { logic = logic })
        ≡ done (record (if armed then give (take k s.incoming) (drop k s.incoming) s else s) {
          logic = logic;
        })
  given_lem true k s logic = ap done (give_lem (take k s.incoming) (drop k s.incoming) s logic)
  given_lem false k s logic = refl

  failed_lem :
      (armed : Bool) (s : Stranded) (logic : LogicSystem)
      → done (
          if armed
          then record s {
            logic = logic;
            read_armed = false;
            strand = s.strand ++ (read_done true [] ∷ []);
          }
          else record s { logic = logic })
        ≡ done
            (record (if armed
              then record s { read_armed = false; strand = s.strand ++ (read_done true [] ∷ []) }
              else s) { logic = logic })
  failed_lem true s logic = refl
  failed_lem false s logic = refl

  on_strand-Shares :
      (e : Event) (s : Stranded)
      → Shares uuid (λ logic. on_strand host uuid e (record s { logic = logic }))
  unfolding on_strand
  on_strand-Shares (gives n) s =
      let k : ℕ = if ltb max_length n then max_length else n in
      no_posts _ (if s.read_armed then give (take k s.incoming) (drop k s.incoming) s else s)
        (λ logic. given_lem s.read_armed k s logic)
  on_strand-Shares breaks s =
      no_posts _
        (if s.read_armed
          then record s { read_armed = false; strand = s.strand ++ (read_done true [] ∷ []) }
          else s)
        (λ logic. failed_lem s.read_armed s logic)
  on_strand-Shares write_ends s =
      no_posts _ (record s { strand = s.strand ++ (write_done ∷ []) }) (λ logic. refl)
  on_strand-Shares dispatches s =
      no_posts _ (dispatch_front s.running s.strand s)
        (λ logic. ap done (dispatch_front_lem s.running s.strand s logic))
  on_strand-Shares goes_on s = strand_step-Shares s.running s

  from_left :
      (left : Exec Stranded) (new : List LogicNode) (s1 : Stranded) (own shared : LogicSystem)
      → done s1 ≡ (left >>= λ s. done (record s { logic = with_posted own new }))
      → (s1.logic ≡ with_posted own new)
        × ((left >>= λ s. done (record s { logic = with_posted shared new }))
            ≡ done (record s1 { logic = with_posted shared new }))
  from_left undefined new s1 own shared e = cc (e)
  from_left throws new s1 own shared e = cc (e)
  from_left (done s) new s1 own shared e =
      let same : s1 ≡ record s { logic = with_posted own new } = ap (value_or s1) e in
      (
        ap (λ (s : Stranded). s.logic) same,
        ap (λ (s : Stranded). done (record s { logic = with_posted shared new })) (sym same),
      )

  -- What one queue shows, another does.
  pub on_strand-shared :
      (e : Event) (s s1 : Stranded) (own shared : LogicSystem)
      → on_strand host uuid e (record s { logic = own }) ≡ done s1
      → (new : List LogicNode) × All (IsOf uuid) new
        × (s1.logic ≡ with_posted own new)
        × (on_strand host uuid e (record s { logic = shared })
            ≡ done (record s1 { logic = with_posted shared new }))
  on_strand-shared e s s1 own shared ran =
      let p : Shares uuid (λ logic. on_strand host uuid e (record s { logic = logic })) =
        on_strand-Shares e s in
      let (posted, shows) = from_left p.left p.new s1 own shared (sym ran ∙ p.law own) in
      (p.new, p.of_session, posted, p.law shared ∙ shows)
