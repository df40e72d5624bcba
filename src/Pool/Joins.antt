-- ===== src/Pool/Joins.antt =====
-- `std::thread` as far as the pools use it: `join()` throws on a thread that is not joinable, as one
-- that is made without a function is not, and leaves the thread not joinable.
use asio_network.Base.{ℕ, zero, suc, ◌≡◌, refl, Bool, true, false, List, [], ◌∷◌, replicate}
use asio_network.Wire.Exec.{Exec, done, throws, ◌>>=◌}

-- `for (auto& t : _threads) { t.join(); }`, where a thread is whether it is joinable.
unfoldable pub join_all : List Bool → Exec (List Bool)
join_all [] = done []
join_all (false ∷ threads) = throws
join_all (true ∷ threads) = do threads' ← join_all threads; done (false ∷ threads')

pub join_all-replicate : (n : ℕ) → join_all (replicate n true) ≡ done (replicate n false)
unfolding join_all
join_all-replicate zero = refl
join_all-replicate (suc n) = rw (join_all-replicate n) refl
