-- ===== src/Shared/State.antt =====
-- project2/np_multi_proc.cpp: `client` and `FIFO`, the shared array `clients`, and the loop of
-- `broadcast`. Texts stand without their NUL; fixed arrays are lists of their sizes. `none` is an
-- access outside an array, a text that does not fit, or the use of a null operand.
use network_programming_demo.Prelude.{
  ℕ, suc, List, [], ◌∷◌, ◌++◌, Option, none, some, ◌==◌, ltb, if◌then◌else◌, replicate, length,
  get_elem?, set, take,
}
use network_programming_demo.Text.Bytes.{Bytes}
use network_programming_demo.Shared.Mailbox.{Slots, put, take_rows}

abbrev pub max_users : ℕ
max_users = 30

abbrev pub max_msg_num : ℕ
max_msg_num = 10

abbrev pub max_msg_size : ℕ
max_msg_size = 1024

-- `FIFO`.
pub record Fifo : Type 0 where
  pub fd : ℕ
  pub filename : Bytes

-- `client`: `id` is 0 in a free place; `msg` and `fifo` have a row for each sender.
pub record Client : Type 0 where
  pub id : ℕ
  pub pid : ℕ
  pub nickname : Bytes
  pub ip : Bytes
  pub port : ℕ
  pub msg : List Slots
  pub fifo : List Fifo

abbrev pub no_fifo : Fifo
no_fifo = record { fd = 0; filename = [] }

-- `memset(&clients[client_id], 0, sizeof(client))`
abbrev pub no_client : Client
no_client = record {
  id = 0;
  pid = 0;
  nickname = [];
  ip = [];
  port = 0;
  msg = replicate 30 (replicate 10 []);
  fifo = replicate 30 no_fifo;
}

abbrev pub Shm : Type 0
Shm = List Client

-- `init_shm`
abbrev pub initial : Shm
initial = replicate 30 no_client

pub data Signal : Type 0 where
  usr1 usr2 : Signal

-- What a process does besides: text for its standard output through stdio (`printed`, held back until a
-- buffer is full or the process ends) or past it (`wrote`, also for standard error), a signal to a
-- process, a FIFO that is made, opened or unlinked, a descriptor that is closed, a variable of the
-- environment that is printed or set, the end of the process.
pub data Effect : Type 0 where
  printed wrote : Bytes → Effect
  killed : ℕ → Signal → Effect
  made opened unlinked : Bytes → Effect
  closed : ℕ → Effect
  env_printed env_put : Bytes → Effect
  exited : Effect

abbrev pub Outcome : Type 0
Outcome = Shm × List Effect

abbrev pub written : List Bytes → List Effect
written [] = []
written (text ∷ texts) = wrote text ∷ written texts

-- `sig_handler` on SIGUSR1: the texts are written, by sender and place, and their places become free.
unfoldable pub sig_usr1 : Client → Client × List Effect
unfolding take_rows
sig_usr1 c = let (texts, rows) = take_rows c.msg in (record c { msg = rows }, written texts)

-- A text from the process at `me` for the user at place `i`: without a free place nothing happens. The
-- signal that a process sends to itself is handled before `kill` returns.
unfoldable pub post : ℕ → ℕ → Bytes → Client → Client × List Effect
unfolding put sig_usr1
post me i msg c = elim (get_elem? c.msg me) [
  | none ↦ (c, [])
  | some slots ↦ (elim (put msg slots) [
    | none ↦ (c, [])
    | some slots' ↦
        let posted = record c { msg = set c.msg me slots' } in
        let (c', es) = sig_usr1 posted in
        if i == me then (c', killed c.pid usr1 ∷ es) else (posted, killed c.pid usr1 ∷ [])
  ])
]

-- `for (i = 0; i < MAX_USERS; ++i) if (clients[i].id > 0) …`, from place `i` on.
unfoldable pub broadcast_from : ℕ → ℕ → Bytes → Shm → Outcome
unfolding post
broadcast_from me i msg [] = ([], [])
broadcast_from me i msg (c ∷ cs) =
    let (cs', es) = broadcast_from me (suc i) msg cs in
    let (c', e) = post me i msg c in if ltb 0 c.id then (c' ∷ cs', e ++ es) else (c ∷ cs', es)

unfoldable pub broadcast : ℕ → Bytes → Shm → Outcome
unfolding broadcast_from
broadcast me msg shm = broadcast_from me 0 msg shm

-- `snprintf(msg, MAX_MSG_SIZE + 1, …)` cuts a text; `sprintf` runs over the array.
abbrev pub cut : Bytes → Bytes
cut text = take max_msg_size text

abbrev pub fit : Bytes → Option Bytes
fit text = if ltb max_msg_size (length text) then none else some text
