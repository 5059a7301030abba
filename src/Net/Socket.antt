-- ===== src/Net/Socket.antt =====
-- framework/net/include/Socket.hpp and framework/net/src/Socket.cpp. What a system call answers is an
-- argument; an out parameter is null or the value that it holds, and comes back with the result.
pub mod Answers
mod Tests
use thread_library.Prelude.{
  ℕ, zero, Bool, true, false, List, [], ◌∷◌, Option, none, some, if◌then◌else◌, ◌||◌, ◌==◌,
}
use thread_library.Prelude.Int.{ℤ, pos, negsuc}
use thread_library.Prelude.Outcome.{Outcome, ok, fatal}
use thread_library.Net.InetAddress.{
  Status, success, param_error, socket_bind_failed, socket_listen_failed, socket_accept_failed,
  socket_getlocal_name_failed, socket_connect_failed, socket_setopt_failed, socket_getopt_failed,
  InetAddress, SockAddr, of_socket_addr,
}

-- The constructor that makes a socket, from the answer of socket(2).
unfoldable pub create : ℤ → Outcome ℤ
create (negsuc zero) = fatal
create fd = ok fd

pub data SocketOption : Type 0 where
  keep_alive reuse_addr tcp_no_delay : SocketOption

-- `SetKeepAlive`, `SetReuseAddr` and `SetTcpNoDelay`; `setsockopt` answers for an option and a value.
abbrev by_setsockopt : ℤ → Status
by_setsockopt (negsuc zero) = socket_setopt_failed
by_setsockopt answer = success

unfoldable set_option : (SocketOption → ℕ → ℤ) → SocketOption → Bool → Status
set_option setsockopt o status = by_setsockopt (setsockopt o (if status then 1 else 0))

unfoldable bind_address : ℤ → Status
bind_address (pos zero) = success
bind_address answer = socket_bind_failed

unfoldable listen : ℤ → Status
listen (negsuc n) = socket_listen_failed
listen (pos n) = success

-- What accept(2) answers: a descriptor or an error number.
pub data AcceptAnswer : Type 0 where
  connected_fd refused : ℕ → AcceptAnswer

abbrev pub eperm : ℕ
eperm = 1

abbrev pub eintr : ℕ
eintr = 4

abbrev pub eagain : ℕ
eagain = 11

abbrev pub emfile : ℕ
emfile = 24

abbrev econnaborted : ℕ
econnaborted = 103

-- The cases of the switch.
unfoldable pub is_harmless : ℕ → Bool
is_harmless e = e == eagain || e == econnaborted || e == eintr || e == eperm || e == emfile

unfoldable pub accept : AcceptAnswer → Option ℕ → Outcome (Status × Option ℕ)
unfolding is_harmless
accept answer none = ok (param_error, none)
accept (connected_fd fd) (some out) = ok (success, some fd)
accept (refused e) (some out) = if is_harmless e then ok (socket_accept_failed, some out) else fatal

-- `Close` and `ShutDownWrite`.
unfoldable close : ℤ → Status
close answer = success

unfoldable pub shut_down_write : ℤ → Status
shut_down_write answer = success

unfoldable connect_to : ℤ → Status
connect_to (negsuc zero) = socket_connect_failed
connect_to answer = success

-- `GetLocalAdress` and `GetPeerAdress`, from what getsockname(2) or getpeername(2) fills in.
unfoldable pub get_address : ℕ → Option SockAddr → Option InetAddress → Status × Option InetAddress
unfolding of_socket_addr
get_address memory answer none = (param_error, none)
get_address memory none (some out) = (socket_getlocal_name_failed, some out)
get_address memory (some s) (some out) = (success, some (of_socket_addr memory s))

unfoldable get_error_code : Option ℕ → Option ℕ → Status × Option ℕ
get_error_code answer none = (param_error, none)
get_error_code none (some out) = (socket_getopt_failed, some out)
get_error_code (some e) (some out) = (success, some e)
