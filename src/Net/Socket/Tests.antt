-- ===== src/Net/Socket/Tests.antt =====
-- The theorem about InetAddress.cpp at one address.
use thread_library.Prelude.{◌≡◌, ◌↔◌, ◌+◌, ◌*◌, ◌/◌, ◌%◌, refl, [], ◌∷◌, some, arith}
use thread_library.Net.InetAddress.{
  InetAddress, success, get_socket_addr, socket_addr_to_inet_address,
}
use thread_library.Net.InetAddress.Ports.{socket_addr_swaps_port}

-- Port 8080 of an address with a text of three bytes, which stands for 7.
abbrev server : InetAddress
server = record { port = 8080; address = b'1' ∷ b'.' ∷ b'7' ∷ [] }

socket_addr_swaps_port_example :
    let r =
      socket_addr_to_inet_address
        (λ n. some server.address)
        (get_socket_addr (λ t. some 7) server)
        server in
    (r.0 ≡ success)
    × (r.1.address ≡ server.address)
    × (r.1.port ≡ server.port % 256 * 256 + server.port / 256)
    × (r.1.port ≡ server.port ↔ server.port % 256 ≡ server.port / 256)
socket_addr_swaps_port_example =
    socket_addr_swaps_port (λ t. some 7) (λ n. some server.address) server server 7 refl refl
      (omega arith)
