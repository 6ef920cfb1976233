-- ===== src/Chat/Reach.antt =====
-- project2/np_single_proc.cpp: what the server can come to. `main` serves one socket after the other;
-- each event is one service, of a socket other than 0, that does not fault.
pub mod Users
pub mod Pipes
pub mod Laws
use network_programming_demo.Prelude.{
  ℕ, List, [], ◌∷◌, Option, none, some, Bool, true, not, ◌==◌, ◌&&◌, if◌then◌else◌, ◌≡◌,
}
use network_programming_demo.Prelude.Int.{ℤ}
use network_programming_demo.Text.Bytes.{Bytes}
use network_programming_demo.Chat.State.{Client, Server, Out, initial}
use network_programming_demo.Chat.Env.{load_env}
use network_programming_demo.Chat.Login.{login, logout}
use network_programming_demo.Chat.Talk.{execute_name}
use network_programming_demo.Chat.UserPipe.{Gate, gate_state, gates, keep_pipe, drop_pipe}

-- A connection with its address, the end of a session, `name` with its operands, `setenv` with its
-- assignment, a line with its checks of `<n` and `>n`, the pipe that `>n` keeps, and the one
-- that `<n` gives up. The other commands change nothing.
pub data Event : Type 0 where
  arrive : ℕ → Bytes → ℕ → Event
  leave : ℕ → Event
  rename : ℕ → List Bytes → Event
  assign : ℕ → Bytes → Event
  check : ℕ → Bytes → Event
  store_pipe : ℕ → ℤ → ℕ → Event
  give_up : ℕ → ℤ → Event

abbrev pub socket : Event → ℕ
socket (arrive fd ip port) = fd
socket (leave fd) = fd
socket (rename fd ops) = fd
socket (assign fd env_str) = fd
socket (check fd line) = fd
socket (store_pipe fd number read_end) = fd
socket (give_up fd number) = fd

-- `accept` gives a descriptor that is not in use.
abbrev pub is_new : ℕ → List Client → Bool
is_new fd [] = true
is_new fd (c ∷ cs) = not (c.fd == fd) && is_new fd cs

abbrev pub state_of : Option (Out × Server) → Option Server
state_of none = none
state_of (some (out, m)) = some m

abbrev pub passed_state : Option Gate → Option Server
passed_state none = none
passed_state (some g) = some (gate_state g)

abbrev pub run : Event → Server → Option Server
run (arrive fd ip port) m = if is_new fd m.clients then state_of (login fd ip port m) else none
run (leave fd) m = state_of (logout fd m)
run (rename fd ops) m = state_of (execute_name fd ops m)
run (assign fd env_str) m = load_env fd env_str m
run (check fd line) m = passed_state (gates fd line m)
run (store_pipe fd number read_end) m = keep_pipe fd number read_end m
run (give_up fd number) m = drop_pipe fd number m

abbrev pub step : Event → Server → Option Server
step e m = if socket e == 0 then none else run e m

pub data Reach : Server → Type 0 where
  empty : Reach initial
  next : {m m' : Server} (e : Event) → Reach m → step e m ≡ some m' → Reach m'
