-- ===== src/Net/InetAddress/Ports.antt =====
-- What becomes of the port between an address and a `sockaddr_in`.
use thread_library.Prelude.{
  ℕ, ◌+◌, ◌*◌, ◌/◌, ◌%◌, ◌^◌, ◌<◌, ◌≡◌, refl, ◌∙◌, ap, ◌↔◌, List, Option, some, arith,
}
use thread_library.Net.Endian.{network_to_host, to_memory, of_memory}
use thread_library.Net.InetAddress.{
  success, InetAddress, SockAddr, get_socket_addr, socket_addr_to_inet_address, or_zero,
}

network_to_host-swaps : (v : ℕ) → network_to_host 2 v ≡ v % 256 * 256 + v / 256 % 256
unfolding network_to_host to_memory of_memory
network_to_host-swaps v = omega arith

converted :
    (ntop : ℕ → Option (List ℕ)) (s : SockAddr) (out : InetAddress) (text : List ℕ)
    → ntop s.sin_addr ≡ some text
    → socket_addr_to_inet_address ntop s out
      ≡ (success, record { port = network_to_host 2 s.sin_port; address = text })
unfolding socket_addr_to_inet_address
converted ntop s out text h = rw (h, socket_addr_to_inet_address) refl

-- GetSocketAddr stores the port in the host's order and SocketAddrToInetAddress reads it in the network's:
-- an address that goes through both, with texts and numbers that inet_pton and inet_ntop turn into each
-- other, keeps its text, and comes back with the two bytes of its port exchanged; it is the same address
-- exactly when these two are equal.
pub socket_addr_swaps_port :
    (pton : List ℕ → Option ℕ) (ntop : ℕ → Option (List ℕ)) (a out : InetAddress) (n : ℕ)
    → pton a.address ≡ some n
    → ntop n ≡ some a.address
    → a.port < 2 ^ 16
    → let r = socket_addr_to_inet_address ntop (get_socket_addr pton a) out in
      (r.0 ≡ success)
      × (r.1.address ≡ a.address)
      × (r.1.port ≡ a.port % 256 * 256 + a.port / 256)
      × (r.1.port ≡ a.port ↔ a.port % 256 ≡ a.port / 256)
unfolding get_socket_addr
socket_addr_swaps_port pton ntop a out n p q b =
    rw (converted ntop (get_socket_addr pton a) out a.address (ap (λ o. ntop (or_zero o)) p ∙ q)) (
      refl,
      refl,
      omega (arith, network_to_host-swaps a.port),
      (
        (λ h. omega (arith, network_to_host-swaps a.port, h)),
        (λ h. omega (arith, network_to_host-swaps a.port, h)),
      ),
    )
