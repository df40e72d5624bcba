-- ===== src/Server.antt =====
-- LogicServer/CServer.h and CServer.cpp: the acceptor and the map that keeps sessions alive.
-- A session's uuid is a number, of which only equality is used.
pub mod View
use asio_network.Base.{
  ℕ, ◌≡◌, refl, Bool, true, false, Option, none, some, List, [], ◌∷◌, arith, ◌==◌, if◌then◌else◌,
}

module _ {V : Type 0} where
  abbrev pub lookup : ℕ → List (ℕ × V) → Option V
  lookup j [] = none
  lookup j ((i, v) ∷ m) = if i == j then some v else lookup j m

  -- `std::map::insert`, which leaves an entry that is there alone.
  unfoldable pub insert : ℕ → V → List (ℕ × V) → List (ℕ × V)
  insert k v [] = (k, v) ∷ []
  insert k v ((i, w) ∷ m) = if i == k then (i, w) ∷ m else (i, w) ∷ insert k v m

  -- `std::map::erase`.
  unfoldable pub erase : ℕ → List (ℕ × V) → List (ℕ × V)
  erase k [] = []
  erase k ((i, w) ∷ m) = if i == k then erase k m else (i, w) ∷ erase k m

  pub lookup-erase :
      (k j : ℕ) (m : List (ℕ × V)) → lookup j (erase k m) ≡ (if k == j then none else lookup j m)
  unfolding erase
  lookup-erase k j [] = ground arith
  lookup-erase k j ((i, w) ∷ m) = ground (arith, lookup-erase k j m)

  abbrev pub or_else : Option V → Option V → Option V
  or_else none o = o
  or_else (some v) o = some v

  pub lookup-insert :
      (k j : ℕ) (v : V) (m : List (ℕ × V))
      → lookup j (insert k v m) ≡ or_else (lookup j m) (if k == j then some v else none)
  unfolding insert
  lookup-insert k j v [] = ground arith
  lookup-insert k j v ((i, w) ∷ m) = ground (arith, lookup-insert k j v m)

-- `V` is what is kept of a session. `accepting` lists the sessions for whose sockets an
-- `async_accept` is under way.
pub record CServer (V : Type 0) : Type 0 where
  pub sessions : List (ℕ × V)
  pub accepting : List (ℕ × V)

module _ {V : Type 0} where
  unfoldable pub clear_session : CServer V → ℕ → CServer V
  clear_session s uuid = record s { sessions = erase uuid s.sessions }

  -- `uuid` and `new_session` are those of the session that is made.
  unfoldable pub start_accept : CServer V → ℕ → V → CServer V
  start_accept s uuid new_session = record s { accepting = (uuid, new_session) ∷ s.accepting }

  -- The handler of an accept: `start` is Start() of the accepted session, and `next` the session
  -- that `start_accept` makes.
  unfoldable pub handle_accept : (V → V) → Bool → CServer V → ℕ × V → ℕ × V → CServer V
  unfolding start_accept
  handle_accept start error s (uuid, session) (next_uuid, next) =
      if error
      then start_accept s next_uuid next
      else start_accept (record s { sessions = insert uuid (start session) s.sessions }) next_uuid
          next

  -- The constructor.
  unfoldable pub new_server : ℕ → V → CServer V
  unfolding start_accept
  new_server uuid first = start_accept (record { sessions = []; accepting = [] }) uuid first

  -- After ClearSession the session is not in the map, and every other entry is as it was.
  lookup-clear_session :
      (s : CServer V) (uuid j : ℕ)
      → lookup j (clear_session s uuid).sessions ≡ (if uuid == j then none else lookup j s.sessions)
  unfolding clear_session
  lookup-clear_session s uuid j = lookup-erase uuid j s.sessions

  -- The handler of an accept arms the next accept in every case; the session, started, is added to
  -- the map, where no session of its uuid is, exactly when there was no error.
  lookup-handle_accept :
      (start : V → V) (error : Bool) (s : CServer V) (session next : ℕ × V) (j : ℕ)
      → ((handle_accept start error s session next).accepting ≡ next ∷ s.accepting)
        × (lookup j (handle_accept start error s session next).sessions ≡ (
            if error
            then lookup j s.sessions
            else or_else
                (lookup j s.sessions)
                (if session.0 == j then some (start session.1) else none)))
  unfolding handle_accept start_accept
  lookup-handle_accept start true s session next j = (refl, refl)
  lookup-handle_accept start false s session next j =
      (refl, lookup-insert session.0 j (start session.1) s.sessions)
