-- ===== src/Net/TcpClient/Tests.antt =====
-- The theorems about TcpClient.cpp at one client.
use thread_library.Prelude.{◌≡◌, refl, true, [], ◌∷◌, none}
use thread_library.Prelude.Outcome.{fatal, Returns}
use thread_library.Net.Connector.{Attempt}
use thread_library.Net.TcpClient.{
  TcpClient, create, enable_retry, new_tcp_connection, new_connection, close_connection,
}
use thread_library.Net.TcpClient.Connections.{close_connection_aborts}

abbrev client : TcpClient
client = enable_retry (create 1 (b'c' ∷ []))

abbrev accepted : Attempt
accepted = record { opened = true; fd = 9; answer = none }

close_connection_example :
    Returns
      (new_connection (λ n. n ∷ []) (b'p' ∷ []) true 7 client)
      (λ d. close_connection accepted (new_tcp_connection 7 client) d ≡ fatal)
close_connection_example =
    close_connection_aborts (λ n. n ∷ []) (b'p' ∷ []) 7 accepted (new_tcp_connection 7 client)
      client refl
