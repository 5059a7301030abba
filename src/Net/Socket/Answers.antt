-- ===== src/Net/Socket/Answers.antt =====
-- What the results of a socket say of the system's answers, and the acceptor on top of accept(2).
use thread_library.Prelude.{
  ℕ, ◌≡◌, ◌≢◌, refl, true, false, ◌==◌, Option, some, if◌then◌else◌, ==_false,
}
use thread_library.Prelude.Outcome.{Outcome, ok, fatal, ◌>>=◌, Returns}
use thread_library.Net.InetAddress.{success, InetAddress, SockAddr}
use thread_library.Net.Acceptor.{
  Acceptor, AcceptResult, accepted, exhausted, failed, broken, handle_read, by_result,
}
use thread_library.Net.Socket.{
  AcceptAnswer, connected_fd, refused, is_harmless, accept, emfile, get_address,
}

-- The acceptor's view of an answer: after EMFILE, `second` is what accept(2) answers then and `idle` the
-- new descriptor of /dev/null, if there is one.
unfoldable to_result : Option ℕ → Option ℕ → AcceptAnswer → AcceptResult
to_result second idle (connected_fd fd) = accepted fd
to_result second idle (refused e) =
    if e == emfile then exhausted second idle else if is_harmless e then failed else broken

-- `HandleRead` of the acceptor with `Accept` of its socket.
unfoldable handle_accept : AcceptAnswer → Option ℕ → Option ℕ → Acceptor → Outcome Acceptor
unfolding accept to_result handle_read
handle_accept answer second idle a =
    accept answer (some 0) >>= λ r. handle_read true (to_result second idle answer) a

-- What the acceptor makes of a failure of accept(2), in the loop's thread: EAGAIN, ECONNABORTED, EINTR and
-- EPERM leave it as it is, EMFILE leaves it with the new idle descriptor, and any other error aborts the
-- process.
handle_accept_errors :
    (e : ℕ) (second idle : Option ℕ) (a : Acceptor)
    → (is_harmless e ≡ true → e ≢ emfile → handle_accept (refused e) second idle a ≡ ok a)
      × (is_harmless e ≡ false → handle_accept (refused e) second idle a ≡ fatal)
      × Returns (handle_accept (refused emfile) second idle a) (λ b. b.idle_fd ≡ idle)
unfolding handle_accept accept handle_read to_result by_result
handle_accept_errors e second idle a =
    ((λ h n. rw h (rw (==_false e emfile n) refl)), (λ h. rw h refl), refl)

-- GetLocalAdress and GetPeerAdress report SUCCESS with an address that does not depend on the one that
-- the system gave: any two answers give the same.
get_address_ignores_answer :
    (memory : ℕ) (s t : SockAddr) (out : InetAddress)
    → ((get_address memory (some s) (some out)).0 ≡ success)
      × (get_address memory (some s) (some out) ≡ get_address memory (some t) (some out))
unfolding get_address
get_address_ignores_answer memory s t out = (refl, refl)
