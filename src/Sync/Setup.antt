-- ===== src/Sync/Setup.antt =====
-- The functions of SyncServer/server.cpp and SyncServer/client.cpp that open and connect sockets, and
-- what they return of the errors that the system reports.
use asio_network.Base.{
  ℕ, ◌≡◌, ◌≢◌, ◌⊎◌, refl, ap, inl, inr, false, Bool-cases, List, [], ◌∷◌, ◌++◌, ◌==◌, ==_iff,
  if◌then◌else◌, leb, All,
}

-- What may fail, in client.cpp and in server.cpp.
pub data SystemCall : Type 0 where
  parses_address opens_socket connects sends : SystemCall
  opens_acceptor binds listens accepts : SystemCall

-- The value of the `error_code` that an operation reports, 0 for none. Where it is called without an
-- `error_code` it throws a `system_error` with this code, if that is not 0.
abbrev pub Kernel : Type 0
Kernel = SystemCall → ℕ

-- A function returns a number, or leaves by an exception with a code.
pub data CallResult : Type 0 where
  returns : ℕ → CallResult
  escapes : ℕ → CallResult

module _ (os : Kernel) where
  -- `if (ec.value() != 0) { ... return ec.value(); } return 0;` after an operation.
  unfoldable pub checked : SystemCall → CallResult
  checked o = if os o == 0 then returns 0 else returns (os o)

  -- The operations of a `try` whose `catch` returns the code, and what comes after them.
  unfoldable pub tried : List SystemCall → CallResult → CallResult
  tried [] after = after
  tried (o ∷ rest) after = let next = tried rest after in if os o == 0 then next else returns (os o)

  -- server.cpp, lines 7-26.
  unfoldable pub server_end_point : CallResult
  server_end_point = returns 0

  -- server.cpp, lines 28-50, and client.cpp, lines 34-57.
  unfoldable pub create_tcp_socket : CallResult
  unfolding checked
  create_tcp_socket = checked opens_socket

  -- server.cpp, lines 52-68.
  unfoldable pub create_acceptor_socket : CallResult
  unfolding checked
  create_acceptor_socket = checked opens_acceptor

  -- server.cpp, lines 70-94. The constructor of the acceptor opens it, outside of any `try`.
  unfoldable pub bind_acceptor_socket : CallResult
  unfolding checked
  bind_acceptor_socket =
      if os opens_acceptor == 0 then checked binds else escapes (os opens_acceptor)

  -- server.cpp, lines 96-135.
  unfoldable pub accept_new_connection : CallResult
  unfolding tried
  accept_new_connection = tried (opens_acceptor ∷ binds ∷ listens ∷ accepts ∷ []) (returns 0)

  -- client.cpp, lines 7-32.
  unfoldable pub client_end_point : CallResult
  unfolding checked
  client_end_point = checked parses_address

  -- client.cpp, lines 59-88.
  unfoldable pub connect_to_end : CallResult
  unfolding tried
  connect_to_end = tried (parses_address ∷ opens_socket ∷ connects ∷ []) (returns 0)

  -- client.cpp, lines 90-116.
  unfoldable pub send_data_by_send : ℕ → CallResult
  unfolding tried
  send_data_by_send send_length =
      tried (parses_address ∷ opens_socket ∷ connects ∷ sends ∷ [])
        (if leb send_length 0 then returns 0 else returns 0)

  abbrev Succeeds : SystemCall → Type 0
  Succeeds o = os o ≡ 0

  -- All operations succeed and 0 is returned, or the code of the first that fails.
  abbrev pub Reports : List SystemCall → CallResult → Type 0
  Reports operations out =
      (All Succeeds operations × (out ≡ returns 0))
      ⊎ ((before : List SystemCall) × (o : SystemCall) × (after : List SystemCall) × (operations
            ≡ before ++ (o ∷ after))
          × All Succeeds before
          × (os o ≢ 0)
          × (out ≡ returns (os o)))

  failed_first :
      (o : SystemCall) (rest : List SystemCall) (out : CallResult)
      → (os o == 0) ≡ false
      → out ≡ returns (os o)
      → Reports (o ∷ rest) out
  failed_first o rest out e is_code =
      inr ([], o, rest, refl, tt, (λ ok. cc (e, ap (λ (n : ℕ). n == 0) ok)), is_code)

  tried-Reports : (operations : List SystemCall) → Reports operations (tried operations (returns 0))
  unfolding tried
  tried-Reports [] = inl (tt, refl)
  tried-Reports (o ∷ rest) = elim (Bool-cases (os o == 0)) [
    | inl ok ↦ elim (tried-Reports rest) [
      | inl (all, zero_code) ↦ inl (((==_iff (os o) 0).0 ok, all), rw ok zero_code)
      | inr (before, p, after, split, fine, bad, code) ↦
          inr (
            o ∷ before,
            p,
            after,
            ap (◌∷◌ o) split,
            ((==_iff (os o) 0).0 ok, fine),
            bad,
            rw ok code,
          )
    ]
    | inr bad ↦ failed_first o rest _ bad (rw bad refl)
  ]

  checked-Reports : (o : SystemCall) → Reports (o ∷ []) (checked o)
  unfolding checked
  checked-Reports o = elim (Bool-cases (os o == 0)) [
    | inl ok ↦ inl (((==_iff (os o) 0).0 ok, tt), rw ok refl)
    | inr bad ↦ failed_first o [] _ bad (rw bad refl)
  ]

  sent_or_not : (send_length : ℕ) → (if leb send_length 0 then returns 0 else returns 0) ≡ returns 0
  sent_or_not send_length = elim (Bool-cases (leb send_length 0)) [
    | inl nothing ↦ rw nothing refl
    | inr something ↦ rw something refl
  ]

  bind_acceptor_socket-Reports :
      ((os opens_acceptor ≡ 0) × Reports (binds ∷ []) bind_acceptor_socket)
      ⊎ ((os opens_acceptor ≢ 0) × (bind_acceptor_socket ≡ escapes (os opens_acceptor)))
  unfolding bind_acceptor_socket
  bind_acceptor_socket-Reports = elim (Bool-cases (os opens_acceptor == 0)) [
    | inl ok ↦ inl ((==_iff (os opens_acceptor) 0).0 ok, rw ok (checked-Reports binds))
    | inr bad ↦ inr ((λ ok. cc (bad, ap (λ (n : ℕ). n == 0) ok)), rw bad refl)
  ]

  -- Each of the functions that open sockets returns 0 exactly where all of its operations succeed, and
  -- otherwise the code of the first that fails, whatever the operations after it would do; but a
  -- failure to open the acceptor leaves bind_acceptor_socket by an exception. That send has sent
  -- nothing is no failure.
  pub set_up-Reports :
      (send_length : ℕ)
      → Reports (opens_socket ∷ []) create_tcp_socket
        × Reports (opens_acceptor ∷ []) create_acceptor_socket
        × (((os opens_acceptor ≡ 0) × Reports (binds ∷ []) bind_acceptor_socket)
            ⊎ ((os opens_acceptor ≢ 0) × (bind_acceptor_socket ≡ escapes (os opens_acceptor))))
        × Reports (opens_acceptor ∷ binds ∷ listens ∷ accepts ∷ []) accept_new_connection
        × Reports (parses_address ∷ []) client_end_point
        × Reports (parses_address ∷ opens_socket ∷ connects ∷ []) connect_to_end
        × Reports
            (parses_address ∷ opens_socket ∷ connects ∷ sends ∷ [])
            (send_data_by_send send_length)
  unfolding create_tcp_socket create_acceptor_socket accept_new_connection client_end_point
      connect_to_end send_data_by_send
  set_up-Reports send_length = (
    checked-Reports opens_socket,
    checked-Reports opens_acceptor,
    bind_acceptor_socket-Reports,
    tried-Reports (opens_acceptor ∷ binds ∷ listens ∷ accepts ∷ []),
    checked-Reports parses_address,
    tried-Reports (parses_address ∷ opens_socket ∷ connects ∷ []),
    rw (sent_or_not send_length)
        (tried-Reports (parses_address ∷ opens_socket ∷ connects ∷ sends ∷ [])),
  )
