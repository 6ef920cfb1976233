-- ===== src/Shared/Exec.antt =====
-- project2/np_multi_proc.cpp: `do_exec` as a whole: the reading of a line, the checks, the built-in
-- commands, and the loop that starts programs. The table of numbered pipes and what `parser` returns are
-- as in project2/np_simple.cpp, the parts of a line as in np_single_proc.cpp. The pause after 200
-- commands is left out.
pub mod Laws
pub mod Joined
use network_programming_demo.Prelude.{
  ℕ, ◌+◌, ◌-◌, List, [], ◌∷◌, ◌++◌, Option, none, some, ◌>>=◌, Bool, true, false, not, ◌&&◌, ◌==◌,
  if◌then◌else◌, get_elem?,
}
use network_programming_demo.Prelude.Int.{pos, negsuc, succ}
use network_programming_demo.Text.Bytes.{Bytes, codes}
use network_programming_demo.Text.Find.{contains}
use network_programming_demo.Simple.Line.{Line, split_pipe, split_space, starts_blank}
use network_programming_demo.Simple.Table.{Table, Source, find_output, reserve, count_down, store}
use network_programming_demo.Simple.Child.{Args, Child}
use network_programming_demo.Simple.Exec.{Os, pipedata, last_get_input}
use network_programming_demo.Chat.UserPipe.{pipe_number}
use network_programming_demo.Chat.Command.{read_names}
use network_programming_demo.Shared.State.{Shm, Effect, Outcome, env_printed, env_put, exited}
use network_programming_demo.Shared.Users.{
  execute_who, execute_name, execute_yell, execute_tell, rm_user,
}
use network_programming_demo.Shared.Child.{child}
use network_programming_demo.Shared.Fifo.{Gate, refused, passed, gates}

-- A line is empty, or has its commands; `none` for a line of bars alone, where strchr is given a null
-- pointer.
unfoldable pub read_line : Bytes → Option (Option Line)
unfolding split_pipe starts_blank read_names
read_line [] = some none
read_line (c ∷ cmd) = elim (split_pipe (c ∷ cmd)) [
  | [] ↦ none
  | f ∷ fs ↦ some (if starts_blank f then none else some (read_names [] f fs))
]

-- What the handlers do; a child, none if it faults, with whether it is waited for; a descriptor that is
-- closed.
pub data Act : Type 0 where
  did : List Effect → Act
  started : Option Child → Bool → Act
  closed : ℕ → Act

-- The shared memory, the process's own table, and the number of pipes made.
pub record Process : Type 0 where
  pub shm : Shm
  pub table : Table
  pub made : ℕ

-- `output` is `output_fd`; the two FIFOs are 0 where there is none.
pub record Job : Type 0 where
  pub path : Bytes
  pub output : ℕ
  pub wait : Bool
  pub n_pipe_err : Bool
  pub get_input : ℕ
  pub user_pipe_in : ℕ
  pub user_pipe_out : ℕ

-- The last command writes to the FIFO, if there is one.
abbrev output_fd : Job → Bool → ℕ
output_fd j last = if last && not (j.user_pipe_out == 0) then j.user_pipe_out else j.output

abbrev pub args : Job → Bool → Bool → Source → Args
args j first last s = record {
  input = s.input;
  first = first;
  last = last;
  enter = s.enter;
  n_pipe_err = j.n_pipe_err;
  output = output_fd j last;
  get_input = last_get_input last j.get_input;
}

abbrev pub take_source : Bool → ℕ → Table → Source × Table
take_source first input t =
    let s : Source = record { input = input; output = 0; enter = false } in
    let (found, es) = count_down 1000 s t.entries in
    if first then (found, record t { entries = es }) else (s, t)

unfoldable pub finish : Bool → ℕ → ℕ × ℕ → Table → List Act × Table
unfolding store
finish last get_input ends t =
    if not last
    then (closed ends.1 ∷ [], t)
    else if get_input == 0
    then (closed ends.1 ∷ [], t)
    else if get_input == 4
    then ([], store ends.0 ends.1 t)
    else ([], t)

abbrev pub close_if : Bool → ℕ → List Act
close_if b fd = if b then closed fd ∷ [] else []

-- One round of the loop, and the input of the next.
unfoldable pub stage : Os → Job → Bool → Bool → ℕ → Bytes → Process → List Act × ℕ × Process
unfolding count_down child pipedata finish
stage os j first last input cmd v =
    let (s, t) = take_source first input v.table in
    let (ended, t') = finish last (last_get_input last j.get_input) (pipedata os v.made) t in
    (
      close_if s.enter s.output
          ++ started (child j.path (args j first last s) (os.pipe_end v.made).1 cmd)
              (j.wait && last)
            ∷ (close_if (not (s.input == 0)) s.input
                ++ close_if (first && not (j.user_pipe_in == 0)) j.user_pipe_in
                ++ ended),
      (pipedata os v.made).0,
      record v { table = t'; made = v.made + 1 },
    )

unfoldable pub stages : Os → Job → Bool → ℕ → Bytes → List Bytes → Process → List Act × Process
unfolding stage
stages os j first input cmd [] v =
    let (acts, _, v') = stage os j first true input cmd v in (acts, v')
stages os j first input cmd (next ∷ cmds) v =
    let (acts, input', v') = stage os j first false input cmd v in
    let (more, v'') = stages os j false input' next cmds v' in (acts ++ more, v'')

pub data Builtin : Type 0 where
  printenv setenv exit who nickname yell tell : Builtin

-- The chain of strstr over a line of one command.
unfoldable pub builtin : Bytes → Option Builtin
unfolding contains
builtin cmd =
    if contains (codes "printenv") cmd
    then some printenv
    else if contains (codes "setenv") cmd
    then some setenv
    else if contains (codes "exit") cmd
    then some exit
    else if contains (codes "who") cmd
    then some who
    else if contains (codes "nickname") cmd
    then some nickname
    else if contains (codes "yell") cmd
    then some yell
    else if contains (codes "tell") cmd
    then some tell
    else none

abbrev pub assignment : List Bytes → Option Bytes
assignment ops = do key ← get_elem? ops 1; val ← get_elem? ops 2; some (key ++ codes "=" ++ val)

-- The process at `me`. `old` is what the pointers in `operand`, left by an earlier command, point to now:
-- `nickname` does not split its own line. `exit` finds its own process in the record.
unfoldable pub run_builtin : ℕ → List Bytes → Builtin → Bytes → Shm → Option Outcome
unfolding split_space
run_builtin me old printenv cmd shm = do
  name ← get_elem? (split_space cmd) 1
  some (shm, env_printed name ∷ [])
run_builtin me old setenv cmd shm = do
  text ← assignment (split_space cmd)
  some (shm, env_put text ∷ [])
run_builtin me old exit cmd shm = do (shm', es) ← rm_user me shm; some (shm', es ++ exited ∷ [])
run_builtin me old who cmd shm = some (shm, execute_who me shm)
run_builtin me old nickname cmd shm = execute_name me old shm
run_builtin me old yell cmd shm = execute_yell me (split_space cmd) shm
run_builtin me old tell cmd shm = execute_tell me (split_space cmd) shm

abbrev is_exit : Builtin → Bool
is_exit exit = true
is_exit _ = false

abbrev going : List Act × Process → Bool × List Act × Process
going (acts, v) = (false, acts, v)

-- Whether the process has ended, what was done, and the state.
unfoldable pub run_commands :
    Os → ℕ → List Bytes → Job → ℕ → List Bytes → Process → Option (Bool × List Act × Process)
unfolding builtin run_builtin stages
run_commands os me old j input [] v = some (false, [], v)
run_commands os me old j input (cmd ∷ []) v = elim (builtin cmd) [
  | none ↦ some (going (stages os j true input cmd [] v))
  | some b ↦ (do
    (shm, es) ← run_builtin me old b cmd v.shm
    some (is_exit b, did es ∷ [], record v { shm = shm }))
]
run_commands os me old j input (cmd ∷ next ∷ cmds) v =
    some (going (stages os j true input cmd (next ∷ cmds) v))

-- `wait`, `output_fd` and `get_input`, and the table in which a new number has a place.
unfoldable pub number_target : Line → Table → Option ℕ × Table
unfolding find_output reserve
number_target line t = elim line.pipe_number [
  | none ↦ (none, t)
  | some n ↦ (elim (find_output 1000 (succ n) t.entries) [
    | some o ↦ (some o, t)
    | none ↦ (none, reserve (succ n) t)
  ])
]

abbrev pub job : Bytes → Line → Option ℕ → ℕ → ℕ → Job
job path line target fd_in fd_out = record {
  path = path;
  output = elim target [ none ↦ 0 | some o ↦ o ];
  wait = elim line.pipe_number [ none ↦ true | some n ↦ false ];
  n_pipe_err = line.n_pipe_err;
  get_input = elim line.pipe_number [ none ↦ 0 | some n ↦ (elim target [ none ↦ 2 | some o ↦ 1 ]) ];
  user_pipe_in = fd_in;
  user_pipe_out = fd_out;
}

-- The number behind "<", for the end of `do_exec`.
abbrev pub sender : Bytes → ℕ
sender cmd = elim (pipe_number b'<' cmd) [
  | none ↦ 0
  | some n ↦ (elim n [ pos k ↦ k - 1 | negsuc k ↦ 0 ])
]

abbrev pub ended : ℕ → Bytes → ℕ → ℕ → Bool × List Act × Process → Option (List Act × Process)
ended me cmd fd_in fd_out (true, acts, v) = some (acts, v)
ended me cmd fd_in fd_out (false, acts, v) = do
  (shm, es) ← network_programming_demo.Shared.Fifo.finish me (sender cmd) fd_in fd_out v.shm
  some (acts ++ did es ∷ [], record v { shm = shm })

-- A line that is refused ends there; one that is let through has its commands run.
unfoldable pub after_gate :
    Os → ℕ → List Bytes → Bytes → Bytes → Line → Gate → Process → Option (List Act × Process)
unfolding run_commands number_target pipe_number
after_gate os me old path cmd line (refused (shm, es)) v =
    some (did es ∷ [], record v { shm = shm; table = (number_target line v.table).1 })
after_gate os me old path cmd line (passed (shm, es) fd_in fd_out) v = do
  ran ←
      run_commands os me old (job path line (number_target line v.table).0 fd_in fd_out) fd_in
        line.commands (record v { shm = shm; table = (number_target line v.table).1 })
  (acts, v') ← ended me cmd fd_in fd_out ran
  some (did es ∷ acts, v')

-- `do_exec` for the process at `me`, with its PATH; `fs` says which FIFOs can be made and opened.
unfoldable pub do_exec :
    Os
    → network_programming_demo.Shared.Fifo.Os
    → ℕ
    → List Bytes
    → Bytes
    → Bytes
    → Process
    → Option (List Act × Process)
unfolding read_line gates after_gate
do_exec os fs me old path cmd v = do
  read ← read_line cmd
  elim read [
    | none ↦ some ([], v)
    | some line ↦ (do gate ← gates fs me cmd v.shm; after_gate os me old path cmd line gate v)
  ]
