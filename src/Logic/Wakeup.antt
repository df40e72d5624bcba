-- ===== src/Logic/Wakeup.antt =====
-- The condition variable of LogicSystem: DealMsg, PostMsg2Que and the destructor as interleaved
-- steps. `_mutex` is held by the worker in the states that `holds` names, and by a session for the
-- whole of its critical section, which is one step here.
pub mod Lost
use asio_network.Base.{
  ap, ℕ, suc, ◌+◌, ◌-◌, ◌<◌, ◌≤◌, ◌≡◌, ◌≢◌, refl, Bool, true, false, arith, ◌==◌, if◌then◌else◌,
}

-- Where the worker is.
pub data Worker : Type 0 where
  -- Before taking the lock, at the head of the `for` loop.
  outside : Worker
  -- At the test of `while (_msg_que.empty() && !_b_stop)`.
  testing : Worker
  -- The test has said to wait; `wait` has not yet given the lock back.
  deciding : Worker
  -- In `wait`, which has released the lock.
  asleep : Worker
  -- Notified; `wait` takes the lock back.
  woken : Worker
  -- Past the `while`.
  dealing : Worker
  -- Returned from DealMsg.
  returned : Worker

-- Where the destructor is: not begun, past `_b_stop = true`, past `notify_one()`, in `join()`.
pub data Destructor : Type 0 where
  alive stopping joining : Destructor

pub record State : Type 0 where
  pub msg_count : ℕ
  pub b_stop : Bool
  pub worker : Worker
  pub destructor : Destructor
  -- Sessions that have released the lock and are about to call `notify_one`.
  pub notifying : ℕ

abbrev pub holds : Worker → Bool
holds testing = true
holds deciding = true
holds dealing = true
holds _ = false

-- `notify_one`: a worker that is not in `wait` does not notice.
unfoldable pub notified : Worker → Worker
notified asleep = woken
notified outside = outside
notified testing = testing
notified deciding = deciding
notified woken = woken
notified dealing = dealing
notified returned = returned

pub data Step (s : State) : State → Type 0 where
  -- PostMsg2Que, up to `unlock`: it notifies only if the queue was empty.
  posts :
      holds s.worker ≡ false
      → Step s (record s {
        msg_count = s.msg_count + 1;
        notifying = if s.msg_count == 0 then s.notifying + 1 else s.notifying;
      })
  notifies :
      0 < s.notifying
      → Step s (record s { notifying = s.notifying - 1; worker = notified s.worker })
  locks : s.worker ≡ outside → Step s (record s { worker = testing })
  wakes : s.worker ≡ woken → Step s (record s { worker = testing })
  decides :
      s.worker ≡ testing
      → s.msg_count ≡ 0
      → s.b_stop ≡ false
      → Step s (record s { worker = deciding })
  sleeps : s.worker ≡ deciding → Step s (record s { worker = asleep })
  finds_message : s.worker ≡ testing → 0 < s.msg_count → Step s (record s { worker = dealing })
  finds_stop : s.worker ≡ testing → s.b_stop ≡ true → Step s (record s { worker = dealing })
  deals :
      s.worker ≡ dealing
      → s.b_stop ≡ false
      → Step s (record s { worker = outside; msg_count = s.msg_count - 1 })
  drains :
      s.worker ≡ dealing → s.b_stop ≡ true → Step s (record s { worker = returned; msg_count = 0 })
  -- `_b_stop = true`, for which the destructor does not take the lock.
  sets_stop : s.destructor ≡ alive → Step s (record s { b_stop = true; destructor = stopping })
  notifies_stop :
      s.destructor ≡ stopping
      → Step s (record s { destructor = joining; worker = notified s.worker })

abbrev pub initial : State
initial = record {
  msg_count = 0;
  b_stop = false;
  worker = outside;
  destructor = alive;
  notifying = 0;
}

pub data Reach : State → Type 0 where
  here : Reach initial
  next : {s t : State} → Reach s → Step s t → Reach t

-- Some steps, of any threads, from a state.
pub data Steps (s : State) : State → Type 0 where
  stay : Steps s s
  then_step : {t u : State} → Steps s t → Step t u → Steps s u

-- A worker that waits, or is about to, has seen an empty queue; if messages have come since, a
-- notification is on its way. Nothing is said of the stop flag.
pub record NoLostMessage (s : State) : Type 0 where
  pub decided_empty : s.worker ≡ deciding → s.msg_count ≡ 0
  pub asleep_notified : s.worker ≡ asleep → 0 < s.msg_count → 0 < s.notifying

notified-ne-asleep : (w : Worker) → notified w ≢ asleep
unfolding notified
notified-ne-asleep outside q = cc
notified-ne-asleep _ q = cc

notified-deciding : (w : Worker) → notified w ≡ deciding → w ≡ deciding
unfolding notified
notified-deciding deciding q = refl
notified-deciding _ q = cc

Step-NoLostMessage : {s t : State} → Step s t → NoLostMessage s → NoLostMessage t
Step-NoLostMessage {s} (posts free) v = record {
  decided_empty = λ q. cc (ap holds q);
  asleep_notified = λ q some_left. ground (arith, v.asleep_notified q);
}
Step-NoLostMessage {s} (notifies some_left) v = record {
  decided_empty = λ q. v.decided_empty (notified-deciding s.worker q);
  asleep_notified = λ q. absurd (notified-ne-asleep s.worker q);
}
Step-NoLostMessage (locks e) v = record { decided_empty = λ q. cc; asleep_notified = λ q p. cc }
Step-NoLostMessage (wakes e) v = record { decided_empty = λ q. cc; asleep_notified = λ q p. cc }
Step-NoLostMessage (decides e empty running) v = record {
  decided_empty = λ q. empty;
  asleep_notified = λ q p. cc;
}
Step-NoLostMessage {s} (sleeps e) v = ground (arith, v.decided_empty e)
Step-NoLostMessage (finds_message e some_left) v = ground arith
Step-NoLostMessage (finds_stop e stopped) v = ground arith
Step-NoLostMessage (deals e running) v = ground arith
Step-NoLostMessage (drains e stopped) v = ground arith
Step-NoLostMessage (sets_stop e) v = record {
  decided_empty = v.decided_empty;
  asleep_notified = v.asleep_notified;
}
Step-NoLostMessage {s} (notifies_stop e) v = record {
  decided_empty = λ q. v.decided_empty (notified-deciding s.worker q);
  asleep_notified = λ q. absurd (notified-ne-asleep s.worker q);
}

pub Reach-NoLostMessage : {s : State} → Reach s → NoLostMessage s
Reach-NoLostMessage here = record { decided_empty = λ q. cc; asleep_notified = λ q p. cc }
Reach-NoLostMessage (next r st) = Step-NoLostMessage st (Reach-NoLostMessage r)

-- In every reachable state in which the worker sleeps while a message waits, a session is about to
-- notify it: no message is left behind by a lost wakeup.
pub no_lost_wakeup : {s : State} → Reach s → s.worker ≡ asleep → 0 < s.msg_count → 0 < s.notifying
no_lost_wakeup r = (Reach-NoLostMessage r).asleep_notified
