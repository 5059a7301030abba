-- ===== src/Net/InetAddress.antt =====
-- framework/net/include/InetAddress.hpp and framework/net/src/InetAddress.cpp, with `Status` of
-- framework/base/include/Types.hpp. inet_pton, inet_ntop and the stream's number text are arguments; a
-- `sockaddr_in` has the two fields that the code sets, each as the host reads it.
pub mod Ports
use thread_library.Prelude.{ℕ, List, [], ◌∷◌, ◌++◌, Option, none, some}
use thread_library.Net.Endian.{network_to_host}

pub data Status : Type 0 where
  success param_error socket_address_convert_failed socket_bind_failed socket_listen_failed : Status
  socket_accept_failed socket_getlocal_name_failed socket_connect_failed : Status
  socket_setopt_failed socket_getopt_failed : Status

pub record InetAddress : Type 0 where
  pub port : ℕ
  pub address : List ℕ

pub record SockAddr : Type 0 where
  pub sin_port : ℕ
  pub sin_addr : ℕ

-- The constructor from a `sockaddr_in` has an empty body: the port is whatever the memory held.
unfoldable pub of_socket_addr : ℕ → SockAddr → InetAddress
of_socket_addr memory s = record { port = memory; address = [] }

unfoldable get_ip_and_port : (ℕ → List ℕ) → InetAddress → List ℕ
get_ip_and_port print a = a.address ++ b' ' ∷ b':' ∷ b' ' ∷ print a.port

-- The structure is zero before, and inet_pton of a text that is no address leaves it so.
abbrev pub or_zero : Option ℕ → ℕ
or_zero none = 0
or_zero (some n) = n

unfoldable pub get_socket_addr : (List ℕ → Option ℕ) → InetAddress → SockAddr
get_socket_addr pton a = record { sin_port = a.port; sin_addr = or_zero (pton a.address) }

-- With the new value of `*addr_out`.
unfoldable pub socket_addr_to_inet_address :
    (ℕ → Option (List ℕ)) → SockAddr → InetAddress → Status × InetAddress
socket_addr_to_inet_address ntop s out = elim (ntop s.sin_addr) [
  | none ↦ (socket_address_convert_failed, out)
  | some text ↦ (success, record { port = network_to_host 2 s.sin_port; address = text })
]
