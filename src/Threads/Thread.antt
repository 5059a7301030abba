-- ===== src/Threads/Thread.antt =====
-- framework/thread/include/Thread.hpp and framework/thread/src/Thread.cpp: the life of a Thread. What
-- pthread_create answers is an argument; the calls of pthread are recorded in `trace`, in order.
pub mod Life
use thread_library.Prelude.{
  ℕ, Bool, true, false, not, ◌&&◌, List, [], ◌∷◌, ◌++◌, Option, none, some, if◌then◌else◌,
}
use thread_library.Prelude.Outcome.{Outcome, ok, fault, ◌>>=◌}
use thread_library.Threads.CurrentThread.{CurrentThread, get_tid}

pub data Effect : Type 0 where
  created joined_with detached : ℕ → Effect

pub record Thread : Type 0 where
  pub started : Bool
  pub joined : Bool
  pub pthread_id : ℕ
  -- the number behind `tid_`, which is a null pointer for `none`
  pub tid : Option ℕ
  pub name : List ℕ
  pub trace : List Effect

-- "HPCs Thread"
abbrev default_name : List ℕ
default_name = b'H' ∷ b'P' ∷ b'C' ∷ b's' ∷ b' ' ∷ b'T' ∷ b'h' ∷ b'r' ∷ b'e' ∷ b'a' ∷ b'd' ∷ []

unfoldable pub named : List ℕ → List ℕ
named [] = default_name
named (c ∷ cs) = c ∷ cs

-- Nothing is ever put behind `tid_`.
unfoldable pub create : List ℕ → Thread
unfolding named
create name = record {
  started = false;
  joined = false;
  pthread_id = 0;
  tid = none;
  name = named name;
  trace = [];
}

-- `none` is a failure of pthread_create.
abbrev pub by_answer : Option ℕ → Thread → Thread
by_answer none t = record t { started = false }
by_answer (some id) t = record t {
  started = true;
  pthread_id = id;
  trace = t.trace ++ created id ∷ [];
}

unfoldable pub start : Option ℕ → Thread → Thread
start answer t = if t.started then t else by_answer answer t

-- The two assertions, and then pthread_join.
unfoldable pub join : Thread → Outcome Thread
join t =
    if not t.started
    then fault
    else if t.joined
    then fault
    else ok (record t { joined = true; trace = t.trace ++ joined_with t.pthread_id ∷ [] })

-- The destructor.
unfoldable pub destroy : Thread → Thread
destroy t =
    if t.started && not t.joined
    then record t { trace = t.trace ++ detached t.pthread_id ∷ [] }
    else t

-- What `wptid_` leads to once the new thread has written its number there.
unfoldable publish_tid : ℕ → Option ℕ → Option ℕ
publish_tid tid none = none
publish_tid tid (some _) = some tid

-- "Smile Thread"
abbrev anonymous_name : List ℕ
anonymous_name =
    b'S' ∷ b'm' ∷ b'i' ∷ b'l' ∷ b'e' ∷ b' ' ∷ b'T' ∷ b'h' ∷ b'r' ∷ b'e' ∷ b'a' ∷ b'd' ∷ []

-- "Thread : finish the task"
abbrev finished_name : List ℕ
finished_name =
    b'T' ∷ b'h' ∷ b'r' ∷ b'e' ∷ b'a' ∷ b'd' ∷ b' ' ∷ b':' ∷ b' ' ∷ b'f' ∷ b'i' ∷ b'n' ∷ b'i' ∷ b's'
    ∷ b'h' ∷ b' ' ∷ b't' ∷ b'h' ∷ b'e' ∷ b' ' ∷ b't' ∷ b'a' ∷ b's' ∷ b'k' ∷ []

abbrev shown_name : List ℕ → List ℕ
shown_name [] = anonymous_name
shown_name (c ∷ cs) = c ∷ cs

-- `runThread` in the new thread: what `wptid_` leads to, and what the thread keeps of itself while its function
-- runs and after it.
unfoldable run_thread :
    (ℕ → List ℕ) → ℕ → List ℕ → Option ℕ → CurrentThread → Option ℕ × CurrentThread × CurrentThread
unfolding get_tid publish_tid
run_thread print tid name wptid c =
    let (own, d) = get_tid print tid c in
    let running = record d { thread_name = shown_name name } in
    (publish_tid own wptid, running, record running { thread_name = finished_name })

pub data Call : Type 0 where
  starts : Option ℕ → Call
  joins : Call

unfoldable pub call : Call → Thread → Outcome Thread
unfolding start join
call (starts answer) t = ok (start answer t)
call joins t = join t

unfoldable pub calls : List Call → Thread → Outcome Thread
unfolding call
calls [] t = ok t
calls (c ∷ cs) t = call c t >>= calls cs
