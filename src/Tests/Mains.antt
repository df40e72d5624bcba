-- ===== src/Tests/Mains.antt =====
-- Runs of AsyncEchoServer, of the pools' main functions and of GetInstance.
use asio_network.Base.{none, ◌≤◌, ◌≡◌, ◌⊎◌, refl, true, false, some, List, [], ◌∷◌, arith, All}
use asio_network.Base.{Bool}
use asio_network.Server.{lookup, CServer, clear_session, handle_accept}
use asio_network.Server.View.{entries, clear_session-handle_accept}
use asio_network.Mirror.{arrives, sent_out, read_fails}
use asio_network.Mirror.Server.{ServerEvent, accept_ends, at_session}
use asio_network.Pool.Mains.{
  signalled, port_taken, exits, terminates, never_made, joins, never_joins, hangs,
  context_pool_main, thread_pool_main, mains_end,
}
use asio_network.Singleton.{
  Static, begins, makes, fails, returns, StaticReach, here, next, make_instance, return_instance,
  completed, GotFirst, get_instance_lem,
}

-- Two peers connect, with an accept that fails between them.
abbrev server_events : List ServerEvent
server_events =
    accept_ends false []
    ∷ at_session 0 (arrives (1 ∷ 2 ∷ []))
    ∷ accept_ends true []
    ∷ accept_ends false (7 ∷ [])
    ∷ at_session 1 read_fails
    ∷ at_session 0 (sent_out 2)
    ∷ []

mains_end_example :
    (context_pool_main 4 true (signalled never_made) ≡ exits)
    × (context_pool_main 4 true (signalled joins) ≡ exits)
    × (context_pool_main 4 true (signalled never_joins) ≡ hangs)
    × (context_pool_main 4 true port_taken ≡ terminates)
    × (thread_pool_main 4 true (signalled never_made) ≡ terminates)
    × (thread_pool_main 4 true (signalled joins) ≡ terminates)
    × (thread_pool_main 4 true (signalled never_joins) ≡ hangs)
    × (thread_pool_main 4 true port_taken ≡ terminates)
mains_end_example = mains_end 4 true (omega arith)

-- Thread 1 fails to make the object, and thread 2 makes it; both of 2 and 3 return.
abbrev got_twice : Static
got_twice = record {
  static_flag = completed;
  instance_ptr = some 0;
  objects = 1;
  returned = (3, some 0) ∷ (2, some 0) ∷ [];
}

StaticReach-got_twice : StaticReach got_twice
unfolding make_instance return_instance
StaticReach-got_twice =
    next
      (next
        (next (next (next (next here (begins 1 refl)) (fails 1 refl)) (begins 2 refl))
          (makes 2 refl))
        (returns 2 refl))
      (returns 3 refl)

get_instance_lem_example :
    All GotFirst got_twice.returned
    × (got_twice.objects ≤ 1)
    × ((got_twice.returned ≡ []) ⊎ (got_twice.objects ≡ 1))
get_instance_lem_example = get_instance_lem got_twice StaticReach-got_twice

-- A server that keeps two sessions.
abbrev two_sessions : CServer Bool
two_sessions = record { sessions = (1, true) ∷ (2, false) ∷ []; accepting = [] }

clear_session-handle_accept_example :
    let accepted : CServer Bool =
      handle_accept (λ b. true) false two_sessions (5, false) (6, false) in
    (lookup 5 accepted.sessions ≡ some true)
    × (lookup 1 accepted.sessions ≡ lookup 1 two_sessions.sessions)
    × (entries (clear_session accepted 1)
        ≡ entries
            (handle_accept (λ b. true) false (clear_session two_sessions 1) (5, false) (6, false)))
    × (entries (clear_session accepted 5) ≡ entries two_sessions)
    × (lookup 5 (clear_session accepted 5).sessions ≡ none)
clear_session-handle_accept_example =
    clear_session-handle_accept (λ b. true) two_sessions (5, false) (6, false) 1 refl refl
