-- ===== src/Tests/Blocking.antt =====
-- Runs of SyncServer.
use asio_network.Base.{◌≡◌, ◌≢◌, ◌⊎◌, some, [], ◌∷◌, length, take}
use asio_network.Wire.Memory.{Bytes}
use asio_network.Sync.Setup.{
  parses_address, opens_socket, connects, sends, opens_acceptor, binds, listens, accepts, Kernel,
  escapes, Reports, create_tcp_socket, create_acceptor_socket, bind_acceptor_socket,
  accept_new_connection, client_end_point, connect_to_end, send_data_by_send, set_up-Reports,
}
use asio_network.Sync.Client.{client_main, server_gives, typed_request, client_main_lem}

-- The port is taken.
abbrev port_taken : Kernel
port_taken binds = 98
port_taken parses_address = 0
port_taken opens_socket = 0
port_taken connects = 0
port_taken sends = 0
port_taken opens_acceptor = 0
port_taken listens = 0
port_taken accepts = 0

set_up-Reports_example :
    Reports port_taken (opens_socket ∷ []) (create_tcp_socket port_taken)
    × Reports port_taken (opens_acceptor ∷ []) (create_acceptor_socket port_taken)
    × (((port_taken opens_acceptor ≡ 0)
          × Reports port_taken (binds ∷ []) (bind_acceptor_socket port_taken))
        ⊎ ((port_taken opens_acceptor ≢ 0)
            × (bind_acceptor_socket port_taken ≡ escapes (port_taken opens_acceptor))))
    × Reports port_taken
        (opens_acceptor ∷ binds ∷ listens ∷ accepts ∷ [])
        (accept_new_connection port_taken)
    × Reports port_taken (parses_address ∷ []) (client_end_point port_taken)
    × Reports port_taken (parses_address ∷ opens_socket ∷ connects ∷ []) (connect_to_end port_taken)
    × Reports port_taken
        (parses_address ∷ opens_socket ∷ connects ∷ sends ∷ [])
        (send_data_by_send port_taken 11)
set_up-Reports_example = set_up-Reports port_taken 11

-- The line holds a NUL.
abbrev line : Bytes
line = 104 ∷ 105 ∷ 0 ∷ 106 ∷ []

client_main_lem_example :
    client_main 0 line (λ request. length request) (server_gives 100)
    ≡ some (record { sent = typed_request line; reply = take 100 (typed_request line) })
client_main_lem_example = client_main_lem 0 100 line
