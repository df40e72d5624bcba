-- ===== src/Pool/Mains.antt =====
-- How IOContextPoolServer/IOContextPoolServer.cpp and IOThreadPoolServer/IOThreadPoolServer.cpp end: the
-- handler of the signals stops the pool, and the pool, a static, is destroyed after main.
use asio_network.Base.{
  ℕ, zero, suc, ◌<◌, ◌≡◌, refl, ap, ◌∙◌, Bool, true, false, List, [], ◌∷◌, ◌++◌, arith, replicate,
}
use asio_network.Wire.Exec.{Exec, done, undefined, throws}
use asio_network.Pool.Joins.{join_all}
use asio_network.Pool.Contexts.{AsioIoContextPool, new_context_pool, stop_pool, stop_pool-twice}
use asio_network.Pool.Threads.{
  AsioIoThreadPool, new_thread_pool, stop_threads, stop-new_thread_pool, emplace_threads,
  emplace_threads-front,
}
use asio_network.Base.{if◌then◌else◌}

-- What has become of the LogicSystem when it is to be destroyed. Its destructor joins the worker, which
-- may never come to its end: then neither does the join.
pub data LogicEnd : Type 0 where
  never_made joins never_joins : LogicEnd

-- The constructor of CServer throws, as where its port is taken, and no session has made the
-- LogicSystem; SIGINT or SIGTERM; neither.
pub data Happening : Type 0 where
  port_taken nothing : Happening
  signalled : LogicEnd → Happening

pub data Finish : Type 0 where
  exits terminates goes_undefined hangs still_runs : Finish

-- LogicSystem.cpp, lines 66-70.
unfoldable pub destroy_logic : LogicEnd → Finish
destroy_logic never_made = exits
destroy_logic joins = exits
destroy_logic never_joins = hangs

-- What ends the program ends it for good.
unfoldable pub followed_by : Finish → Finish → Finish
followed_by exits after = after
followed_by terminates after = terminates
followed_by goes_undefined after = goes_undefined
followed_by hangs after = hangs
followed_by still_runs after = still_runs

-- After main: the two statics `_instance`, of the LogicSystem and of the pool, are destroyed. They are
-- static members of a template, so the standard does not say which comes first.
unfoldable pub destroy_statics : Bool → LogicEnd → Finish → Finish
unfolding destroy_logic followed_by
destroy_statics logic_first logic pool_end =
    if logic_first
    then followed_by (destroy_logic logic) pool_end
    else followed_by pool_end (destroy_logic logic)

-- The destructor of a vector of threads: that of one that is joinable calls `std::terminate`.
unfoldable pub destroy_vector : List Bool → Finish
destroy_vector [] = exits
destroy_vector (true ∷ threads) = terminates
destroy_vector (false ∷ threads) = destroy_vector threads

-- The threads after the loop of joins, whether it has come to its end or thrown.
unfoldable pub joined_so_far : List Bool → List Bool
joined_so_far [] = []
joined_so_far (true ∷ threads) = false ∷ joined_so_far threads
joined_so_far (false ∷ threads) = false ∷ threads

-- IOContextPoolServer.cpp, lines 5-20, from the handler's `pool->Stop()` on. The destructor of the pool
-- has an empty body; an exception of Stop is caught in main.
unfoldable pub after_pool_stop : List Bool → Exec AsioIoContextPool → Finish
unfolding destroy_vector joined_so_far
after_pool_stop threads (done pool) = destroy_vector pool.threads
after_pool_stop threads throws = destroy_vector (joined_so_far threads)
after_pool_stop threads undefined = goes_undefined

unfoldable pub context_pool_main : ℕ → Bool → Happening → Finish
unfolding after_pool_stop destroy_statics
context_pool_main size logic_first nothing = still_runs
context_pool_main size logic_first port_taken =
    destroy_statics logic_first never_made (destroy_vector (new_context_pool size).threads)
context_pool_main size logic_first (signalled logic) =
    destroy_statics logic_first logic
      (after_pool_stop (new_context_pool size).threads (stop_pool (new_context_pool size)))

-- AsioIOThreadPool.cpp, lines 3-5: the destructor calls Stop, and may not throw.
unfoldable pub after_destructor : Exec AsioIoThreadPool → Finish
unfolding destroy_vector
after_destructor (done pool) = destroy_vector pool.threads
after_destructor throws = terminates
after_destructor undefined = goes_undefined

-- IOThreadPoolServer.cpp, lines 5-20. The handler's Stop leaves the threads joined that it came to.
unfoldable pub thread_pool_main : ℕ → Bool → Happening → Finish
unfolding after_destructor joined_so_far destroy_statics
thread_pool_main size logic_first nothing = still_runs
thread_pool_main size logic_first port_taken =
    destroy_statics logic_first never_made (after_destructor (stop_threads (new_thread_pool size)))
thread_pool_main size logic_first (signalled logic) = destroy_statics logic_first logic (
    after_destructor (
      stop_threads
        (record { threads = joined_so_far (new_thread_pool size).threads; work = false })))

all_joined : (n : ℕ) → destroy_vector (replicate n false) ≡ exits
unfolding destroy_vector
all_joined zero = refl
all_joined (suc n) = all_joined n

stops_again :
    (n : ℕ)
    → stop_threads
        (record { threads = joined_so_far (new_thread_pool (suc n)).threads; work = false })
      ≡ throws
unfolding stop_threads joined_so_far new_thread_pool emplace_threads join_all
stops_again n =
    let (rest, e) = emplace_threads-front n false (replicate n false ++ (true ∷ [])) in rw e refl

-- Where the pools end like this, so do the programs.
context_end :
    (logic_first : Bool) (logic : LogicEnd)
    → destroy_statics logic_first logic exits ≡ destroy_logic logic
unfolding destroy_statics destroy_logic followed_by
context_end true never_made = refl
context_end true joins = refl
context_end true never_joins = refl
context_end false logic = refl

-- With pools of at least one thread, and whichever of the statics is destroyed first: on a signal
-- IOContextPoolServer exits where its LogicSystem has never been made or the join in the destructor
-- of the LogicSystem returns, and hangs where that join does not return; it is terminated where its
-- CServer cannot be made, as the threads of the pool are still joinable. On a signal IOThreadPoolServer
-- is terminated, as its pool cannot be destroyed, but for the case that the LogicSystem is destroyed
-- first and its join does not return, in which it hangs; it is terminated where its CServer cannot be
-- made.
pub mains_end :
    (size : ℕ) (logic_first : Bool)
    → 0 < size
    → (context_pool_main size logic_first (signalled never_made) ≡ exits)
      × (context_pool_main size logic_first (signalled joins) ≡ exits)
      × (context_pool_main size logic_first (signalled never_joins) ≡ hangs)
      × (context_pool_main size logic_first port_taken ≡ terminates)
      × (thread_pool_main size logic_first (signalled never_made) ≡ terminates)
      × (thread_pool_main size logic_first (signalled joins) ≡ terminates)
      × (thread_pool_main size logic_first (signalled never_joins)
          ≡ (if logic_first then hangs else terminates))
      × (thread_pool_main size logic_first port_taken ≡ terminates)
unfolding context_pool_main thread_pool_main new_context_pool destroy_logic destroy_statics
    followed_by
mains_end zero logic_first some_threads = absurd (omega (arith, some_threads))
mains_end (suc n) logic_first some_threads = (
  context never_made,
  context joins,
  context never_joins,
  terminated logic_first,
  ap (destroy_statics logic_first never_made) thread ∙ terminated logic_first,
  ap (destroy_statics logic_first joins) thread ∙ terminated_joined logic_first,
  ap (destroy_statics logic_first never_joins) thread ∙ may_hang logic_first,
  ap (destroy_statics logic_first never_made)
        (ap after_destructor (stop-new_thread_pool (suc n) some_threads).1)
      ∙ terminated logic_first,
)
  where
    context :
        (logic : LogicEnd)
        → context_pool_main (suc n) logic_first (signalled logic) ≡ destroy_logic logic
    context logic =
        ap (destroy_statics logic_first logic) (
          ap (after_pool_stop (new_context_pool (suc n)).threads)
            (stop_pool-twice (suc n) 0 some_threads).0
          ∙ all_joined (suc n))
        ∙ context_end logic_first logic

    thread :
        after_destructor (
          stop_threads
            (record { threads = joined_so_far (new_thread_pool (suc n)).threads; work = false }))
        ≡ terminates
    thread = ap after_destructor (stops_again n)

    terminated : (first : Bool) → destroy_statics first never_made terminates ≡ terminates
    terminated true = refl
    terminated false = refl

    terminated_joined : (first : Bool) → destroy_statics first joins terminates ≡ terminates
    terminated_joined true = refl
    terminated_joined false = refl

    may_hang :
        (first : Bool)
        → destroy_statics first never_joins terminates ≡ (if first then hangs else terminates)
    may_hang true = refl
    may_hang false = refl
