-- ===== src/Chat/State.antt =====
-- project2/np_single_proc.cpp: `clients_map`, the table of users, and `user_pipe`. What the server
-- writes to sockets is a list of socket and text, in the order of the writes; what it prints on its
-- own terminal is left out. The writes go through standard output, flushed at each newline as on a
-- terminal. Fixed arrays are lists of their sizes, and `none` is an access outside
-- an array, a copy that does not fit, or a use of a variable that was never set.
pub mod Search
pub mod Table
pub mod Inbox
pub mod Pipes
use network_programming_demo.Prelude.{
  ℕ, zero, suc, ◌-◌, List, [], ◌∷◌, Option, none, some, Bool, ◌==◌, if◌then◌else◌, replicate, set,
}
use network_programming_demo.Prelude.Int.{ℤ, pos, negsuc}
use network_programming_demo.Text.Bytes.{Bytes}
use network_programming_demo.Text.Decimal.{to_string}

abbrev pub max_user_num : ℕ
max_user_num = 60

-- `env_map`: the first `env_num` places of the two arrays are in use.
pub record EnvMap : Type 0 where
  pub env_num : ℕ
  pub key : List Bytes
  pub value : List Bytes

-- One index of the arrays of `client_map`; `fd` is 0 in a free place. The address is kept as text.
pub record Client : Type 0 where
  pub fd : ℕ
  pub nickname : Bytes
  pub env : EnvMap
  pub ip : Bytes
  pub port : ℕ

-- `user_pipe_info`.
pub record UserPipe : Type 0 where
  pub pipe_fd : ℕ
  pub flag : ℕ

-- `clients_map` and `user_pipe`, whose indices are the sender's and the receiver's numbers.
pub record Server : Type 0 where
  pub size : ℕ
  pub clients : List Client
  pub user_pipe : ℕ → ℕ → UserPipe

abbrev pub Out : Type 0
Out = List (ℕ × Bytes)

abbrev empty_env : EnvMap
empty_env = record { env_num = 0; key = replicate 100 []; value = replicate 100 [] }

abbrev pub no_client : Client
no_client = record { fd = 0; nickname = []; env = empty_env; ip = []; port = 0 }

-- The zeroed globals.
abbrev pub initial : Server
initial = record {
  size = 0;
  clients = replicate 60 no_client;
  user_pipe = λ s r. record { pipe_fd = 0; flag = 0 };
}

-- `for (i = 0; i < n; ++i) if (test) { …; break; }`: the index at which the loop breaks.
unfoldable pub first_where : (Client → Bool) → ℕ → List Client → Option ℕ
first_where test zero cs = none
first_where test (suc n) [] = none
first_where test (suc n) (c ∷ cs) =
    if test c
    then some 0
    else (elim (first_where test n cs) [ none ↦ none | some i ↦ some (suc i) ])

abbrev pub has_fd : ℕ → Client → Bool
has_fd fd c = c.fd == fd

-- The place of the user on a socket, looked for below `size`.
unfoldable pub client_index : ℕ → Server → Option ℕ
client_index fd m = first_where (has_fd fd) m.size m.clients

-- The sockets other than 0 among the first `size` places, in order.
unfoldable pub sockets_from : ℕ → List Client → List ℕ
sockets_from zero cs = []
sockets_from (suc n) [] = []
sockets_from (suc n) (c ∷ cs) =
    let rest = sockets_from n cs in if c.fd == 0 then rest else c.fd ∷ rest

unfoldable pub sockets : Server → List ℕ
unfolding sockets_from
sockets m = sockets_from m.size m.clients

-- The loop that writes one text to every user.
abbrev pub to_all : List ℕ → Bytes → Out
to_all [] text = []
to_all (fd ∷ fds) text = (fd, text) ∷ to_all fds text

-- `printf("%d", n)` on an int.
unfoldable pub int_text : ℤ → Bytes
unfolding to_string
int_text (pos n) = to_string n
int_text (negsuc n) = b'-' ∷ to_string (suc n)

abbrev pub update : Server → ℕ → Client → Server
update m i c = record m { clients = set m.clients i c }
