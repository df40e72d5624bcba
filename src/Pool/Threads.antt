-- ===== src/Pool/Threads.antt =====
-- IOThreadPoolServer/AsioIOThreadPool.h and AsioIOThreadPool.cpp.
use asio_network.Base.{
  ℕ, zero, suc, ◌+◌, ◌<◌, ◌≡◌, refl, Bool, true, false, List, [], ◌∷◌, ◌++◌, arith, length,
  replicate, length-replicate, length-append,
}
use asio_network.Wire.Exec.{Exec, done, throws, ◌>>=◌}
use asio_network.Pool.Joins.{join_all}

-- A thread is whether it is joinable. `_work` is whether there is one: nothing ever makes one.
pub record AsioIoThreadPool : Type 0 where
  pub threads : List Bool
  pub work : Bool

-- The loop of the constructor.
unfoldable pub emplace_threads : ℕ → List Bool → List Bool
emplace_threads zero threads = threads
emplace_threads (suc n) threads = emplace_threads n (threads ++ (true ∷ []))

-- The constructor: `_threads(size)` is `size` threads without a function.
unfoldable pub new_thread_pool : ℕ → AsioIoThreadPool
unfolding emplace_threads
new_thread_pool size = record {
  threads = emplace_threads size (replicate size false);
  work = false;
}

unfoldable pub stop_threads : AsioIoThreadPool → Exec AsioIoThreadPool
stop_threads pool = do
  threads ← join_all pool.threads
  done (record { threads = threads; work = false })

length-emplace_threads :
    (n : ℕ) (threads : List Bool) → length (emplace_threads n threads) ≡ n + length threads
unfolding emplace_threads
length-emplace_threads zero threads = omega arith
length-emplace_threads (suc n) threads =
    omega
      (arith, length-emplace_threads n (threads ++ (true ∷ [])), length-append threads (true ∷ []))

pub emplace_threads-front :
    (n : ℕ) (b : Bool) (threads : List Bool)
    → (rest : List Bool) × (emplace_threads n (b ∷ threads) ≡ b ∷ rest)
unfolding emplace_threads
emplace_threads-front zero b threads = (threads, refl)
emplace_threads-front (suc n) b threads = emplace_threads-front n b (threads ++ (true ∷ []))

-- The pool has twice as many threads as it was asked for, and if that is any, Stop and with it the
-- destructor throws: the first thread that it joins never had a function.
pub stop-new_thread_pool :
    (size : ℕ)
    → 0 < size
    → (length (new_thread_pool size).threads ≡ size + size)
      × (stop_threads (new_thread_pool size) ≡ throws)
unfolding new_thread_pool stop_threads join_all
stop-new_thread_pool zero h = absurd (omega arith)
stop-new_thread_pool (suc n) h = (
  omega (
    arith,
    length-emplace_threads n ((false ∷ replicate n false) ++ (true ∷ [])),
    length-append (false ∷ replicate n false) (true ∷ []),
    length-replicate {A = Bool} n false,
  ),
  let (rest, e) = emplace_threads-front n false (replicate n false ++ (true ∷ [])) in rw e refl,
)
