-- ===== src/Chat/Login.antt =====
-- project2/np_single_proc.cpp: a user comes (`main`, `handle_new_connection(int, sockaddr_in)`) and
-- goes (`main`, `broadcast_logout`).
pub mod Laws
pub mod Arrival
pub mod Departure
use network_programming_demo.Prelude.{
  ℕ, zero, suc, ◌+◌, ◌-◌, List, [], ◌∷◌, ◌++◌, Option, none, some, ◌>>=◌, ◌==◌, ◌&&◌, ◌||◌, leb,
  if◌then◌else◌, get_elem?, set,
}
use network_programming_demo.Text.Bytes.{Bytes, codes}
use network_programming_demo.Text.Decimal.{to_string}
use network_programming_demo.Chat.State.{
  Client, UserPipe, Server, Out, sockets, to_all, update, first_where, has_fd,
}
use network_programming_demo.Chat.Env.{load_env}

abbrev pub banner : Bytes
banner =
    codes "****************************************\n"
    ++ codes "** Welcome to the information server. **\n"
    ++ codes "****************************************\n"

unfoldable pub entered : Bytes → ℕ → Bytes
unfolding to_string
entered ip port =
    codes "*** User '(no name)' entered from "
    ++ ip
    ++ codes ":"
    ++ to_string port
    ++ codes ". ***\n"

-- The sockets of the loop that tells the others.
abbrev pub others : ℕ → List ℕ → List ℕ
others fd [] = []
others fd (g ∷ gs) = let rest = others fd gs in if g == fd then rest else g ∷ rest

unfoldable pub welcome : ℕ → Bytes → ℕ → Server → Out
unfolding entered sockets
welcome fd ip port m =
    (fd, banner)
    ∷ (fd, entered ip port)
    ∷ (fd, codes "% ")
    ∷ to_all (others fd (sockets m)) (entered ip port)

-- The first free place up to `size`.
unfoldable pub free_index : Server → Option ℕ
free_index m = first_where (has_fd 0) (suc m.size) m.clients

-- The place keeps the environment that its last user left.
unfoldable pub seat : ℕ → Bytes → ℕ → ℕ → Client → Server → Server
seat fd ip port i old m = record m {
  size = if i == m.size then m.size + 1 else m.size;
  clients =
      set m.clients i
        (record { fd = fd; nickname = codes "(no name)"; env = old.env; ip = ip; port = port });
}

unfoldable pub login : ℕ → Bytes → ℕ → Server → Option (Out × Server)
login fd ip port m = do
  i ← free_index m
  old ← get_elem? m.clients i
  loaded ← load_env fd (codes "PATH=bin:.") (seat fd ip port i old m)
  some (welcome fd ip port m, loaded)

unfoldable pub left : Bytes → Bytes
left name = codes "*** User '" ++ name ++ codes "' left. ***\n"

-- `for (i = 1; i <= 30; ++i) { user_pipe[cid][i].flag = 0; user_pipe[i][cid].flag = 0; }`
unfoldable pub clear_pipes : ℕ → (ℕ → ℕ → UserPipe) → ℕ → ℕ → UserPipe
clear_pipes cid pipes s r =
    if (s == cid && leb 1 r && leb r 30) || (r == cid && leb 1 s && leb s 30)
    then record (pipes s r) { flag = 0 }
    else pipes s r

-- The sockets of the loop that skips the place `i == cid - 1`, over the rounds left.
pub sockets_but : ℕ → ℕ → ℕ → List Client → List ℕ
sockets_but skip i zero cs = []
sockets_but skip i (suc n) [] = []
sockets_but skip i (suc n) (c ∷ cs) =
    let rest = sockets_but skip (i + 1) n cs in if i == skip || c.fd == 0 then rest else c.fd ∷ rest

-- The pipes have rows and columns for 30 users.
unfoldable pub broadcast_logout : ℕ → Server → Option (Out × Server)
unfolding clear_pipes left sockets_but
broadcast_logout cid m = do
  gone ← get_elem? m.clients (cid - 1)
  let out = to_all (sockets_but (cid - 1) 0 m.size m.clients) (left gone.nickname)
  let cleared = record m { user_pipe = clear_pipes cid m.user_pipe }
  if leb cid 30 then some (out, cleared) else none

-- What `main` does once a command has ended the session on `fd`: the first place up to `size` with
-- the socket is freed.
unfoldable pub logout : ℕ → Server → Option (Out × Server)
logout fd m = elim (first_where (has_fd fd) (suc m.size) m.clients) [
  | none ↦ some ([], m)
  | some i ↦ (do
    c ← get_elem? m.clients i
    broadcast_logout (i + 1) (update m i (record c { fd = 0 })))
]
