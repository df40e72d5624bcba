-- ===== src/Logic.antt =====
-- LogicServer/LogicSystem.h and LogicSystem.cpp: the queue of received messages and the worker
-- thread that dispatches them by id. IOContextPoolServer and IOThreadPoolServer have the same text.
-- A session is named by its uuid, of which the program uses only equality: a number.
pub mod Order
pub mod Wakeup
use asio_network.Base.{
  ℕ, Bool, true, false, Option, none, some, List, [], ◌∷◌, ◌++◌, ◌==◌, if◌then◌else◌,
}
use asio_network.Wire.Memory.{Bytes, read_at}
use asio_network.Wire.Exec.{Exec, done, undefined, throws, ◌>>=◌, defined}
use asio_network.Framing.Reader.{RecvNode}

-- LogicNode of CSession.h: a message and the session that it came from.
pub record LogicNode : Type 0 where
  pub session : ℕ
  pub recvnode : RecvNode

-- `_mutex`, `_consume` and `_worker` are in `Wakeup`.
pub record LogicSystem : Type 0 where
  pub msg_que : List LogicNode
  pub b_stop : Bool

-- FuncCallback: the session, the id, the message's text, and the state `W` that it acts on.
abbrev pub Callback : Type 0 → Type 0
Callback W = ℕ → ℕ → Bytes → W → Exec W

abbrev pub Callbacks : Type 0 → Type 0
Callbacks W = ℕ → Option (Callback W)

-- MSG_IDS of const.h.
abbrev pub msg_hello_world : ℕ
msg_hello_world = 1001

-- `PostMsg2Que`.
unfoldable pub post_msg2que : LogicSystem → LogicNode → LogicSystem
post_msg2que ls msg = record ls { msg_que = ls.msg_que ++ (msg ∷ []) }

-- The first statement of the destructor.
unfoldable pub stop : LogicSystem → LogicSystem
stop ls = record ls { b_stop = true }

-- How one round of the loop of DealMsg ends.
pub data Round (W : Type 0) : Type 0 where
  waits : Round W
  goes_on : LogicSystem → W → Round W
  finishes : LogicSystem → W → Round W

module _ {W : Type 0} where
  -- `RegisterCallBacks`: an empty map, with one entry set.
  unfoldable pub register_callbacks : Callback W → Callbacks W
  register_callbacks hello id = if id == msg_hello_world then some hello else none

  module _ (callbacks : Callbacks W) where
    -- What is found is called with the text of the node; an id with no entry is passed over.
    unfoldable pub dispatch : Option (Callback W) → LogicNode → W → Exec W
    dispatch none msgnode w = done w
    dispatch (some callback) msgnode w = do
      text ← defined (read_at (msgnode.recvnode.node).block 0 (msgnode.recvnode.node).cur_len)
      callback msgnode.session msgnode.recvnode.msg_id text w

    -- Lines 52-62, and 38-48 in the same words: deal with the front of the queue.
    unfoldable pub deal_front : LogicNode → W → Exec W
    unfolding dispatch
    deal_front msgnode w = dispatch (callbacks msgnode.recvnode.msg_id) msgnode w

    -- Lines 37-49: empty the queue.
    unfoldable pub drain : List LogicNode → W → Exec W
    drain [] w = done w
    drain (msgnode ∷ que) w = deal_front msgnode w >>= λ w'. drain que w'

    unfoldable pub running : List LogicNode → W → Exec (Round W)
    running [] w = done waits
    running (msgnode ∷ que) w = do
      w' ← deal_front msgnode w
      done (goes_on (record { msg_que = que; b_stop = false }) w')

    unfoldable pub stopping : List LogicNode → W → Exec (Round W)
    stopping que w = do
      w' ← drain que w
      done (finishes (record { msg_que = []; b_stop = true }) w')

    -- One round of DealMsg, which holds the lock throughout.
    unfoldable pub deal_msg : LogicSystem → W → Exec (Round W)
    unfolding running stopping
    deal_msg ls w = if ls.b_stop then stopping ls.msg_que w else running ls.msg_que w
