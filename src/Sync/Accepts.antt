-- ===== src/Sync/Accepts.antt =====
-- server and main of SyncServer/server.cpp: the blocking accepts, and how the program ends.
use asio_network.Base.{ℕ, Bool, true, false, Option, none, some, List, [], ◌∷◌, ◌++◌}

-- How far `server` has come, with the sockets whose threads are in `thread_set`: it waits in `accept`,
-- it has thrown, or it has returned.
pub data ServerRun : Type 0 where
  accepting threw returned : List ℕ → ServerRun

-- Lines 185-190, for the results of the accepts: a socket, or an exception.
unfoldable pub accept_loop : List (Option ℕ) → List ℕ → ServerRun
accept_loop [] threads = accepting threads
accept_loop (some socket ∷ more) threads = accept_loop more (threads ++ (socket ∷ []))
accept_loop (none ∷ more) threads = threw threads

-- Lines 179-191. The constructor of the acceptor may throw.
unfoldable pub server : Bool → List (Option ℕ) → ServerRun
unfolding accept_loop
server acceptor_made accepts = elim acceptor_made [
  | true ↦ accept_loop accepts []
  | false ↦ threw []
]

-- What becomes of the program.
pub data ProgramEnd : Type 0 where
  serving : List ℕ → ProgramEnd
  exited terminated : ProgramEnd

-- The destructor of `thread_set`, with the threads that have not been joined: that of a thread which
-- is joinable calls `std::terminate`.
unfoldable pub destroy_threads : List ℕ → ProgramEnd
destroy_threads [] = exited
destroy_threads (socket ∷ threads) = terminated

-- Lines 193-204: `join()` of every thread where `server` returns, none where it throws.
unfoldable pub sync_main : ServerRun → ProgramEnd
unfolding destroy_threads
sync_main (accepting threads) = serving threads
sync_main (threw threads) = destroy_threads threads
sync_main (returned threads) = destroy_threads []

abbrev pub all_accepted : List ℕ → List (Option ℕ)
all_accepted [] = []
all_accepted (socket ∷ sockets) = some socket ∷ all_accepted sockets
