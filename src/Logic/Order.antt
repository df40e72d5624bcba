-- ===== src/Logic/Order.antt =====
-- The order in which DealMsg of LogicServer/LogicSystem.cpp dispatches what PostMsg2Que posts.
use asio_network.Base.{
  ◌≡◌, refl, sym, ap, ◌∙◌, Bool, true, false, List, [], ◌∷◌, ◌++◌, append_assoc, append-nil,
  if◌then◌else◌,
}
use asio_network.Wire.Memory.{read_at}
use asio_network.Base.{Option, none, some}
use asio_network.Wire.Exec.{Exec, defined, done, ◌>>=◌, >>=-assoc, >>=-ext}
use asio_network.Logic.{
  LogicNode, LogicSystem, Callbacks, Round, waits, goes_on, finishes, post_msg2que, stop,
  deal_front, drain, deal_msg, stopping, Callback, dispatch,
}

-- What happens between two rounds of the worker: a session posts, the destructor sets `_b_stop`, or
-- the worker takes the lock for a round.
pub data Event : Type 0 where
  post : LogicNode → Event
  stops : Event
  works : Event

-- The queue, the state that callbacks act on, and whether the worker has left DealMsg.
pub record Dispatcher (W : Type 0) : Type 0 where
  pub system : LogicSystem
  pub world : W
  pub finished : Bool

abbrev pub posted : List Event → List LogicNode
posted [] = []
posted (post msg ∷ es) = msg ∷ posted es
posted (stops ∷ es) = posted es
posted (works ∷ es) = posted es

module _ {W : Type 0} (callbacks : Callbacks W) where
  after_round : Dispatcher W → Round W → Dispatcher W
  after_round d waits = d
  after_round d (goes_on ls w) = record { system = ls; world = w; finished = false }
  after_round d (finishes ls w) = record { system = ls; world = w; finished = true }

  unfoldable pub step : Dispatcher W → Event → Exec (Dispatcher W)
  unfolding after_round
  step d (post msg) = done (record d { system = post_msg2que d.system msg })
  step d stops = done (record d { system = stop d.system })
  step d works =
      if d.finished
      then done d
      else (do r ← deal_msg callbacks d.system d.world; done (after_round d r))

  unfoldable pub run : Dispatcher W → List Event → Exec (Dispatcher W)
  run d [] = done d
  run d (e ∷ es) = step d e >>= λ d'. run d' es

  -- What is left to do: the callbacks for the messages still in the queue.
  abbrev pub outstanding : Dispatcher W → Exec W
  outstanding d = drain callbacks d.system.msg_que d.world

  -- What is left after a schedule is what was left before it, with what was posted meanwhile.
  abbrev Keeps : List Event → Dispatcher W → Type 0
  Keeps es d =
      (run d es >>= λ d'. outstanding d') ≡ drain callbacks (d.system.msg_que ++ posted es) d.world

  -- Once `_b_stop` is set, the worker's next round empties the queue, in order, and leaves DealMsg.
  last_round :
      (d : Dispatcher W)
      → d.finished ≡ false
      → run d (stops ∷ works ∷ []) ≡ (
          drain callbacks d.system.msg_que d.world >>= λ w.
          done (record {
            system = record { msg_que = []; b_stop = true };
            world = w;
            finished = true;
          }))
  unfolding run step deal_msg stop
  last_round d e = rw e (
      >>=-assoc (stopping callbacks d.system.msg_que d.world) _ _
      ∙ >>=-assoc (drain callbacks d.system.msg_que d.world) _ _)

  -- Posts and rounds of the worker, before the destructor.
  abbrev pub BeforeStop : List Event → Type 0
  BeforeStop [] = Unit
  BeforeStop (post msg ∷ es) = BeforeStop es
  BeforeStop (stops ∷ es) = ⊥
  BeforeStop (works ∷ es) = BeforeStop es

  -- The world that is left, with an empty queue and the worker out of DealMsg.
  abbrev pub ended_with : Exec W → Exec (Dispatcher W)
  ended_with worlds = worlds >>= λ w.
      done (record { system = record { msg_que = []; b_stop = true }; world = w; finished = true })

  shutdown_parts :
      (es : List Event) (que : List LogicNode) (w : W)
      → BeforeStop es
      → run
          (record {
            system = record { msg_que = que; b_stop = false };
            world = w;
            finished = false;
          })
          (es ++ (stops ∷ works ∷ []))
        ≡ ended_with (drain callbacks (que ++ posted es) w)
  unfolding run step deal_msg post_msg2que drain
  shutdown_parts [] que w before = rw append-nil (last_round _ refl)
  shutdown_parts (post msg ∷ es) que w before =
      shutdown_parts es (que ++ (msg ∷ [])) w before
      ∙ ap (λ (all : List LogicNode). ended_with (drain callbacks all w))
          (append_assoc que (msg ∷ []) (posted es))
  shutdown_parts (stops ∷ es) que w before = elim before [ ]
  shutdown_parts (works ∷ es) [] w before = shutdown_parts es [] w before
  shutdown_parts (works ∷ es) (msg ∷ que) w before =
      >>=-assoc (deal_front callbacks msg w >>= _) _ _
      ∙ >>=-assoc (deal_front callbacks msg w) _ _
      ∙ >>=-ext (deal_front callbacks msg w) (λ w'. shutdown_parts es que w' before)
      ∙ sym (>>=-assoc (deal_front callbacks msg w) _ _)

  -- The callback of a message, if its id has one, on the text of its node; and those of some messages.
  abbrev pub call : Option (Callback W) → LogicNode → W → Exec W
  call none msg w = done w
  call (some callback) msg w =
      defined (read_at (msg.recvnode.node).block 0 (msg.recvnode.node).cur_len) >>= λ text.
      callback msg.session msg.recvnode.msg_id text w

  abbrev pub call_all : List LogicNode → W → Exec W
  call_all [] w = done w
  call_all (msg ∷ msgs) w = call (callbacks msg.recvnode.msg_id) msg w >>= λ w'. call_all msgs w'

  dispatch-call :
      (callback : Option (Callback W)) (msg : LogicNode) (w : W)
      → dispatch callbacks callback msg w ≡ call callback msg w
  unfolding dispatch
  dispatch-call none msg w = refl
  dispatch-call (some callback) msg w = refl

  drain-call_all : (msgs : List LogicNode) (w : W) → drain callbacks msgs w ≡ call_all msgs w
  unfolding drain deal_front
  drain-call_all [] w = refl
  drain-call_all (msg ∷ msgs) w =
      >>=-ext (dispatch callbacks (callbacks msg.recvnode.msg_id) msg w)
        (λ w'. drain-call_all msgs w')
      ∙ ap (λ (called : Exec W). called >>= λ w'. call_all msgs w')
          (dispatch-call (callbacks msg.recvnode.msg_id) msg w)

  -- The destructor loses no message: however posts and rounds of the worker have followed one another,
  -- once `_b_stop` is set and the worker has made one round more, the callbacks of all messages that
  -- were queued or posted have run, in order, up to the first that fails, the queue is empty and the
  -- worker has left DealMsg.
  pub shutdown :
      (es : List Event) (d : Dispatcher W)
      → BeforeStop es
      → d.finished ≡ false
      → d.system.b_stop ≡ false
      → run d (es ++ (stops ∷ works ∷ []))
        ≡ ended_with (call_all (d.system.msg_que ++ posted es) d.world)
  shutdown es d before working running =
      ap
        (λ (flags : Bool × Bool).
          run
            (record {
              system = record { msg_que = d.system.msg_que; b_stop = flags.0 };
              world = d.world;
              finished = flags.1;
            })
            (es ++ (stops ∷ works ∷ [])))
        (ap (λ (b : Bool). (b, d.finished)) running ∙ ap (λ (b : Bool). (false, b)) working)
      ∙ shutdown_parts es d.system.msg_que d.world before
      ∙ ap ended_with (drain-call_all (d.system.msg_que ++ posted es) d.world)
