-- ===== src/Logic/Wakeup/Lost.antt =====
-- The stop of the worker by ~LogicSystem of LogicServer/LogicSystem.cpp, which sets `_b_stop` without
-- the lock: the worker may already have tested the flag and not yet be in `wait` when `notify_one` is
-- called.
use asio_network.Base.{◌+◌, ◌≡◌, refl, true, arith, ap}
use asio_network.Logic.Wakeup.{
  Steps, stay, then_step, Reach-NoLostMessage, State, asleep, deciding, joining, alive, Step, posts,
  notifies, locks, wakes, decides, sleeps, finds_message, finds_stop, deals, drains, sets_stop,
  notifies_stop, Reach, notified,
}

-- The destructor is in `join()` and the worker in `wait`, with nobody left to notify it.
pub record IsHung (s : State) : Type 0 where
  pub worker_asleep : s.worker ≡ asleep
  pub is_joining : s.destructor ≡ joining
  pub none_notifying : s.notifying ≡ 0

-- In a hung state with an empty queue no thread can make a step but a session that posts.
only_posts :
    {t u : State}
    → IsHung t
    → t.msg_count ≡ 0
    → Step t u
    → u ≡ record t { msg_count = t.msg_count + 1; notifying = 1 }
only_posts {t} h z (posts free) = rw z (rw h.none_notifying refl)
only_posts h z (notifies some_left) = absurd (omega (arith, h.none_notifying))
only_posts h z (locks e) = cc (h.worker_asleep)
only_posts h z (wakes e) = cc (h.worker_asleep)
only_posts h z (decides e empty running) = cc (h.worker_asleep)
only_posts h z (sleeps e) = cc (h.worker_asleep)
only_posts h z (finds_message e some_left) = cc (h.worker_asleep)
only_posts h z (finds_stop e stopped) = cc (h.worker_asleep)
only_posts h z (deals e running) = cc (h.worker_asleep)
only_posts h z (drains e stopped) = cc (h.worker_asleep)
only_posts h z (sets_stop e) = cc (h.is_joining)
only_posts h z (notifies_stop e) = cc (h.is_joining)

-- From every reachable state in which the worker has decided to wait, the destructor has not begun
-- and no session notifies, some steps lead to a state in which `_b_stop` is set and the queue empty, and
-- the worker sleeps while the destructor, its one notification spent, waits to join it.
pub stop_can_hang :
    {s : State}
    → Reach s
    → s.worker ≡ deciding
    → s.destructor ≡ alive
    → s.notifying ≡ 0
    → (t : State) × Steps s t × IsHung t × (t.b_stop ≡ true) × (t.msg_count ≡ 0)
unfolding notified
stop_can_hang {s} r w d n = (
  record s { b_stop = true; destructor = joining; worker = asleep },
  then_step (then_step (then_step stay (sets_stop d)) (notifies_stop refl))
      (sleeps (ap notified w)),
  record { worker_asleep = refl; is_joining = refl; none_notifying = n },
  refl,
  (Reach-NoLostMessage r).decided_empty w,
)
