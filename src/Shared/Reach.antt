-- ===== src/Shared/Reach.antt =====
-- project2/np_multi_proc.cpp: the steps of the processes over the shared memory, and what they can
-- reach. A step is one command, arrival, departure or signal of one process; steps are not cut.
pub mod Search
pub mod Invariant
pub mod Texts
pub mod Gates
pub mod Laws
use network_programming_demo.Prelude.{ℕ, List, Option, none, some, ◌>>=◌, get_elem?, set, ◌≡◌}
use network_programming_demo.Text.Bytes.{Bytes}
use network_programming_demo.Shared.State.{Client, Shm, Effect, Outcome, initial, sig_usr1}
use network_programming_demo.Shared.Users.{
  add_client, execute_name, execute_yell, execute_tell, rm_user,
}
use network_programming_demo.Shared.Fifo.{Os, Gate, refused, passed, gates, finish, sig_usr2}

-- What the process at a place does: with operands for a command, a line for the checks, the sender's
-- place and the two descriptors for the end of a command.
pub data Event : Type 0 where
  arrive : ℕ → Bytes → ℕ → Event
  nickname yell tell : List Bytes → Event
  check : Bytes → Event
  done : ℕ → ℕ → ℕ → Event
  handle1 handle2 : Event
  leave : Event

abbrev pub gate_state : Gate → Shm
gate_state (refused (shm, _)) = shm
gate_state (passed (shm, _) _ _) = shm

abbrev at : ℕ → (Client → Client × List Effect) → Shm → Option Shm
at me f shm = do c ← get_elem? shm me; some (set shm me (f c).0)

abbrev pub state_of : Option Outcome → Option Shm
state_of none = none
state_of (some out) = some out.0

unfoldable pub step : Os → ℕ → Event → Shm → Option Shm
step os me (arrive pid ip port) shm = some (add_client pid ip port shm).0.0
step os me (nickname ops) shm = state_of (execute_name me ops shm)
step os me (yell ops) shm = state_of (execute_yell me ops shm)
step os me (tell ops) shm = state_of (execute_tell me ops shm)
step os me (check line) shm = do gate ← gates os me line shm; some (gate_state gate)
step os me (done s fd_in fd_out) shm = state_of (finish me s fd_in fd_out shm)
step os me handle1 shm = at me sig_usr1 shm
step os me handle2 shm = at me (sig_usr2 os) shm
step os me leave shm = state_of (rm_user me shm)

pub data Reach (os : Os) : Shm → Type 0 where
  start : Reach os initial
  next :
      {shm shm' : Shm} (me : ℕ) (e : Event)
      → Reach os shm
      → step os me e shm ≡ some shm'
      → Reach os shm'
