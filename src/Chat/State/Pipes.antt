-- ===== src/Chat/State/Pipes.antt =====
-- The invariant of the pipes between users.
use network_programming_demo.Prelude.{ℕ, suc, ◌<◌, some, get_elem?, ◌≡◌, ◌≢◌}
use network_programming_demo.Chat.State.{Client, Server}

-- A user with this number, one of the 30 that have a row.
pub record IsUser (m : Server) (number : ℕ) : Type 0 where
  pub place : ℕ
  pub client : Client
  pub numbered : number ≡ suc place
  pub within : place < 30
  pub here : get_elem? m.clients place ≡ some client
  pub live : client.fd ≢ 0

-- Every pipe in use leads from a user to a user.
pub record HasLivePipes (m : Server) : Type 0 where
  pub sender : (s r : ℕ) → (m.user_pipe s r).flag ≢ 0 → IsUser m s
  pub receiver : (s r : ℕ) → (m.user_pipe s r).flag ≢ 0 → IsUser m r
