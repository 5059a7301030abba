-- ===== src/Net/TcpServer/Tests.antt =====
-- Three connections of a server whose user has set a connection and a message callback.
use thread_library.Prelude.{ℕ, ◌+◌, List, [], ◌∷◌, refl, ◌≡◌, some, true, Bool, ◌==◌}
use thread_library.Prelude.Outcome.{Returns, ok}
use thread_library.Net.TcpServer.{
  TcpServer, create, user, set_message_callback, set_connection_callback, accept_all,
}
use thread_library.Net.TcpServer.Connections.{Accepted, accept_all-Accepted}
use thread_library.Net.TcpServer.Start
use thread_library.Net.TcpServer.Start.{Site, Started, start-Started}
use thread_library.Net.EventLoopThreadPool

abbrev server : TcpServer
server = set_connection_callback (user 4) (set_message_callback (user 5) (create 1 (b's' ∷ [])))

abbrev print : ℕ → List ℕ
print n = (b'0' + n) ∷ []

-- The user's connection callback closes one connection, with another descriptor.
abbrev user_closes : ℕ → Bool
user_closes fd = fd == 6

accept_all_example :
    Returns (accept_all print user_closes (7 ∷ 8 ∷ 9 ∷ []) server) λ r. Accepted 3 r.0 r.1
unfolding create set_message_callback set_connection_callback EventLoopThreadPool.create
accept_all_example =
    accept_all-Accepted print user_closes 7 (8 ∷ 9 ∷ []) server refl refl (refl, (refl, (refl, tt)))

start-Started_example :
    (s : Site) × (Start.start true 3 (Start.create 1 (b's' ∷ []) 5 6) ≡ some (ok s)) × Started 2 s
start-Started_example = start-Started 1 2 5 6 (b's' ∷ [])
